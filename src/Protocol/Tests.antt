-- ===== src/Protocol/Tests.antt =====
-- The properties of the protocol's parsers at concrete requests.
use mathlib.Core.Option
use imapped_lightmode.Base.{refl, true, if◌then◌else◌, length, none}
use imapped_lightmode.Text.{eq}
use imapped_lightmode.Text.Case.{to_ascii_uppercase}
use imapped_lightmode.Text.Trim.{
  trim, trim_start, trim_end, trim_start_where, trim_end_where, strip_prefix, strip_suffix,
}
use imapped_lightmode.Text.Split.{split_whitespace, split_where, push_first}
use imapped_lightmode.Text.Decimal.{show}
use imapped_lightmode.Protocol.Store.{parse_literal_marker, strip_parens}
use imapped_lightmode.Protocol.Store.Laws.{parse_literal_marker-show}
use imapped_lightmode.Domain.Records.{Mailbox}
use imapped_lightmode.Protocol.Status.{
  parse_status_items, status_items, has_item, gather_items, is_status_item, nonempty_items,
}
use imapped_lightmode.Protocol.Status.Laws.{
  item_of, parse_status_items-has_item, status_items-parse_status_items,
}
use imapped_lightmode.Protocol.Fetch.{parse_raw_fetch_request}
use imapped_lightmode.Protocol.Fetch.Laws.{asked_for, parse_raw_fetch_request-peek}
use imapped_lightmode.Base.{◌≡◌, ◌&&◌, any, List, [], ◌∷◌, ◌++◌, map, arith, ltb, retain, some, ok}
use imapped_lightmode.Base.Int.{pos, eqb_ℤ}
use imapped_lightmode.Base.Sort.{sort, dedup}
use imapped_lightmode.Base.Sort.Laws.{IsStrict}
use imapped_lightmode.Base.Sort.Orders.{nat_ord, int_ord}
use imapped_lightmode.Text.{Text, lit, is_whitespace}
use imapped_lightmode.Protocol.Tokenize.{tokenize}
use imapped_lightmode.Protocol.Tokenize.Laws.{tokenize_total, command_line, IsPlain}
use imapped_lightmode.Protocol.Command.{parse_command}
use imapped_lightmode.Protocol.Command.Laws.{parse_command-command_line}
use imapped_lightmode.Protocol.NumberSet.{
  parse_number_set, format_number_set, set_parts, is_positive,
}
use imapped_lightmode.Protocol.NumberSet.Laws.{
  mem-parse_number_set, parse_number_set-IsStrict, part_covers,
}
use imapped_lightmode.Protocol.NumberSet.RoundTrip.{parse-format_number_set}

abbrev tag : Text
tag = b'a' ∷ b'1' ∷ []

abbrev name : Text
name = b'L' ∷ []

-- An argument with a quote inside.
abbrev args : List Text
args = (b'x' ∷ 34 ∷ b' ' ∷ []) ∷ [] ∷ []

tag-IsPlain : IsPlain tag
unfolding is_whitespace
tag-IsPlain = ground arith

name-IsPlain : IsPlain name
unfolding is_whitespace
name-IsPlain = ground arith

tokenize_total_example : (ts : List Text) × (tokenize (lit "a1 NOOP (x") ≡ ok ts)
tokenize_total_example = tokenize_total (lit "a1 NOOP (x")

parse_command-command_line_example :
    parse_command (command_line tag name args ++ 13 ∷ 10 ∷ [])
    ≡ ok (some (record { tag = tag; name = name; args = args }))
parse_command-command_line_example =
    parse_command-command_line tag name args (λ e. cc) (λ e. cc) tag-IsPlain name-IsPlain

mem-parse_number_set_example :
    any (λ x. eqb_ℤ x (pos 4)) (parse_number_set (lit "7, 5:3,*") (pos 9)) ≡ (
      is_positive (pos 4)
      && any (λ part. part_covers (pos 9) part (pos 4)) (set_parts (lit "7, 5:3,*")))
mem-parse_number_set_example = mem-parse_number_set (lit "7, 5:3,*") (pos 9) (pos 4)

parse_number_set-IsStrict_example : IsStrict int_ord (parse_number_set (lit "7, 5:3,*") (pos 9))
parse_number_set-IsStrict_example = parse_number_set-IsStrict (lit "7, 5:3,*") (pos 9)

parse-format_number_set_example :
    parse_number_set (format_number_set (7 ∷ 0 ∷ 3 ∷ 4 ∷ 7 ∷ [])) (pos 9)
    ≡ map pos (retain (ltb 0) (dedup nat_ord (sort nat_ord (7 ∷ 0 ∷ 3 ∷ 4 ∷ 7 ∷ []))))
parse-format_number_set_example =
    parse-format_number_set (7 ∷ 0 ∷ 3 ∷ 4 ∷ 7 ∷ []) (pos 9) (omega arith)

parse_literal_marker-show_example :
    parse_literal_marker (b'{' ∷ ((show 310 ++ (if true then b'+' ∷ [] else [])) ++ b'}' ∷ []))
    ≡ some (310, true)
parse_literal_marker-show_example = parse_literal_marker-show 310 true (omega arith)

abbrev inbox : Mailbox
inbox = record {
  id = pos 3;
  account_id = pos 1;
  canonical_name = lit "inbox";
  delimiter = none;
  attributes = [];
  subscribed = true;
  special_use = none;
  name = lit "INBOX";
  uidvalidity = some (pos 1);
  uidnext = none;
  highestmodseq = none;
  exists_count = pos 4;
  recent_count = pos 1;
  unseen_count = pos 2;
}

abbrev recent_item : Text
recent_item = b'R' ∷ b'E' ∷ b'C' ∷ b'E' ∷ b'N' ∷ b'T' ∷ []

recent_accepted : parse_status_items (recent_item ∷ []) ≡ ok (recent_item ∷ [])
unfolding parse_status_items strip_parens trim trim_start trim_end trim_start_where trim_end_where
    strip_prefix strip_suffix split_whitespace split_where push_first gather_items is_status_item
    nonempty_items to_ascii_uppercase is_whitespace eq lit
recent_accepted = refl

parse_status_items-has_item_example :
    has_item (recent_item ∷ []) recent_item
    ≡ has_item (map item_of (split_whitespace (strip_parens recent_item))) recent_item
parse_status_items-has_item_example =
    parse_status_items-has_item recent_item [] (recent_item ∷ []) recent_item recent_accepted

status_items-parse_status_items_example :
    length (status_items inbox (recent_item ∷ [])) ≡ length (recent_item ∷ [])
status_items-parse_status_items_example =
    status_items-parse_status_items inbox (recent_item ∷ []) (recent_item ∷ []) recent_accepted

parse_raw_fetch_request-peek_example :
    Option.map asked_for (parse_raw_fetch_request (lit "BODY.PEEK[" ++ lit "1.TEXT]<0.10>"))
    ≡ Option.map asked_for (parse_raw_fetch_request (lit "BODY[" ++ lit "1.TEXT]<0.10>"))
parse_raw_fetch_request-peek_example = parse_raw_fetch_request-peek (lit "1.TEXT]<0.10>")
