-- ===== src/Protocol/Status.antt =====
-- `parse_status_items`, `format_status_response` and `format_status_response_with_defaults` of
-- crates/protocol/src/lib.rs.
pub mod Laws
use imapped_lightmode.Base.{
  ℕ, zero, suc, ◌+◌, Bool, true, false, ◌||◌, Option, none, some, List, [], ◌∷◌, ◌++◌,
  if◌then◌else◌, is_empty, any, map, Error, parse_error, Result, ok, err,
}
use imapped_lightmode.Base.Int.{ℤ, pos, negsuc}
use imapped_lightmode.Text.{Text, lit, eq, join}
use imapped_lightmode.Text.Case.{to_ascii_uppercase, to_ascii_lowercase}
use imapped_lightmode.Text.Trim.{trim}
use imapped_lightmode.Text.Split.{split_whitespace}
use imapped_lightmode.Text.Decimal.{show}
use imapped_lightmode.Domain.Records.{Mailbox}
use imapped_lightmode.Protocol.Store.{strip_parens}
use imapped_lightmode.Protocol.Tokenize.{quote_imap_string}

unfoldable pub is_status_item : Text → Bool
is_status_item upper =
    eq upper (lit "MESSAGES")
    || eq upper (lit "RECENT")
    || eq upper (lit "UIDNEXT")
    || eq upper (lit "UIDVALIDITY")
    || eq upper (lit "UNSEEN")
    || eq upper (lit "HIGHESTMODSEQ")

abbrev pub has_item : List Text → Text → Bool
has_item items upper = any (λ existing. eq existing upper) items

-- The loop over the words of the list.
unfoldable pub gather_items : List Text → List Text → Result (List Text)
gather_items items [] = ok items
gather_items items (word ∷ words) =
    let upper = to_ascii_uppercase (trim word) in
    let rest = gather_items (if has_item items upper then items else items ++ upper ∷ []) words in
    if is_status_item upper
    then rest
    else err (parse_error (lit "STATUS does not support item " ++ upper))

unfoldable pub nonempty_items : Result (List Text) → Result (List Text)
nonempty_items (err e) = err e
nonempty_items (ok []) = err (parse_error (lit "STATUS requires at least one item"))
nonempty_items (ok (item ∷ items)) = ok (item ∷ items)

unfoldable pub parse_status_items : List Text → Result (List Text)
unfolding nonempty_items gather_items
parse_status_items [] = err (parse_error (lit "STATUS requires a status item list"))
parse_status_items (items_value ∷ args) =
    nonempty_items (gather_items [] (split_whitespace (strip_parens items_value)))

unfoldable pub show_ℤ : ℤ → Text
show_ℤ (pos n) = show n
show_ℤ (negsuc n) = b'-' ∷ show (suc n)

unfoldable pub unwrap_or_ℤ : Option ℤ → ℤ → ℤ
unwrap_or_ℤ none default = default
unwrap_or_ℤ (some n) default = n

-- The number that the mailbox gives for an item.
unfoldable pub status_value : Mailbox → Text → Option ℤ
unfolding unwrap_or_ℤ
status_value mailbox item =
    if eq item (lit "MESSAGES")
    then some mailbox.exists_count
    else if eq item (lit "RECENT")
    then some mailbox.recent_count
    else if eq item (lit "UNSEEN")
    then some mailbox.unseen_count
    else if eq item (lit "UIDNEXT")
    then some (unwrap_or_ℤ mailbox.uidnext (pos 1))
    else if eq item (lit "UIDVALIDITY")
    then some (unwrap_or_ℤ mailbox.uidvalidity (pos 1))
    else if eq item (lit "HIGHESTMODSEQ")
    then some (unwrap_or_ℤ mailbox.highestmodseq (pos 0))
    else none

unfoldable pub status_items : Mailbox → List Text → List Text
unfolding show_ℤ
status_items mailbox [] = []
status_items mailbox (item ∷ items) = elim (status_value mailbox item) [
  | some n ↦ (item ++ 32 ∷ show_ℤ n) ∷ status_items mailbox items
  | none ↦ status_items mailbox items
]

unfoldable pub format_status_response : Mailbox → List Text → Text
unfolding status_items
format_status_response mailbox requested_items =
    lit "* STATUS "
    ++ (quote_imap_string mailbox.name
        ++ (lit " (" ++ (join (lit " ") (status_items mailbox requested_items) ++ lit ")")))

unfoldable pub format_status_response_with_defaults : Text → List Text → Text
unfolding format_status_response
format_status_response_with_defaults mailbox_name requested_items =
    format_status_response
      (record {
        id = pos 0;
        account_id = pos 0;
        name = mailbox_name;
        canonical_name = to_ascii_lowercase mailbox_name;
        delimiter = some (lit "/");
        attributes = [];
        subscribed = false;
        special_use = none;
        uidvalidity = some (pos 1);
        uidnext = some (pos 1);
        highestmodseq = none;
        exists_count = pos 0;
        recent_count = pos 0;
        unseen_count = pos 0;
      })
      requested_items
