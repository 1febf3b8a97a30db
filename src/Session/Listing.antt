-- ===== src/Session/Listing.antt =====
-- crates/imap-server/src/imap.rs: LIST, LSUB and STATUS, with `parse_list_request` and
-- `mailbox_list_line`. `quote_imap_string` is the same function as that of crates/protocol/src/lib.rs.
use imapped_lightmode.Base.{
  ℕ, suc, ◌+◌, ◌-◌, ◌==◌, Bool, true, ◌||◌, Option, none, some, List, [], ◌∷◌, ◌++◌, if◌then◌else◌,
  any, retain, length, drop, Error, parse_error, external, Result, ok, err, ◌>>=◌,
}
use imapped_lightmode.Base.Int.{ℤ}
use imapped_lightmode.Text.{Text, lit, eq, join}
use imapped_lightmode.Text.Case.{to_ascii_uppercase, eq_ignore_ascii_case}
use imapped_lightmode.Text.Find.{find}
use imapped_lightmode.Protocol.{no}
use imapped_lightmode.Protocol.Status.{
  parse_status_items, format_status_response, format_status_response_with_defaults,
}
use imapped_lightmode.Protocol.Tokenize.{quote_imap_string}
use imapped_lightmode.Domain.Records.{Mailbox}
use imapped_lightmode.Db.{Db}
use imapped_lightmode.Db.Mailboxes.{find_mailbox, list_mailboxes}
use imapped_lightmode.ImapServer.ListPattern.{imap_list_pattern_matches}
use imapped_lightmode.Session.{ImapSession, Services, Reply, account_of, bad_state}
use imapped_lightmode.Session.Select.{first_or_inbox}
use imapped_lightmode.Session.Mailboxes.{completed}

abbrev pub is_return : Text → Bool
is_return arg = eq_ignore_ascii_case arg (lit "RETURN")

unfoldable pub take_until_return : List Text → List Text
take_until_return [] = []
take_until_return (arg ∷ args) = if is_return arg then [] else arg ∷ take_until_return args

-- The arguments behind the first RETURN.
unfoldable pub after_return : List Text → Option (List Text)
after_return [] = none
after_return (arg ∷ args) = if is_return arg then some args else after_return args

unfoldable pub first_or_star : List Text → Text
first_or_star [] = lit "*"
first_or_star (arg ∷ args) = arg

-- The second argument before RETURN, or else the first argument.
unfoldable pub list_pattern : List Text → List Text → Text
unfolding first_or_star
list_pattern args (reference ∷ pattern ∷ before) = pattern
list_pattern args (reference ∷ []) = first_or_star args
list_pattern args [] = first_or_star args

-- The text up to the parenthesis that closes the first one.
unfoldable pub through_close : ℕ → Text → Option Text
through_close depth [] = none
through_close depth (c ∷ s) =
    if c == b'('
    then elim (through_close (suc depth) s) [ some rest ↦ some (c ∷ rest) | none ↦ none ]
    else if c == b')'
    then if depth - 1 == 0
      then some (c ∷ [])
      else elim (through_close (depth - 1) s) [ some rest ↦ some (c ∷ rest) | none ↦ none ]
    else elim (through_close depth s) [ some rest ↦ some (c ∷ rest) | none ↦ none ]

abbrev pub missing_items : Error
missing_items = parse_error (lit "STATUS return option requires items")

abbrev pub ListRequest : Type 0
ListRequest = Text × Option (List Text)

abbrev pub with_items : Text → List Text → Result ListRequest
with_items pattern items = ok (pattern, some items)

unfoldable pub closed_items : Text → Option Text → Result ListRequest
closed_items pattern none = err missing_items
closed_items pattern (some items) = parse_status_items (items ∷ []) >>= with_items pattern

unfoldable pub opened_items : Text → Option (Text × Text) → Result ListRequest
unfolding closed_items through_close
opened_items pattern none = err missing_items
opened_items pattern (some (before, rest)) = closed_items pattern (through_close 0 rest)

-- `status_clause` starts behind the word STATUS, which `before` is in front of.
unfoldable pub status_clause : Text → Text → Option (Text × Text) → Result ListRequest
unfolding opened_items
status_clause pattern clause none = ok (pattern, none)
status_clause pattern clause (some (before, rest)) =
    opened_items pattern (find (lit "(") (drop (length before + 6) clause))

unfoldable pub return_options : Text → Option (List Text) → Result ListRequest
unfolding status_clause
return_options pattern none = ok (pattern, none)
return_options pattern (some options) =
    let clause = join (lit " ") options in
    status_clause pattern clause (find (lit "STATUS") (to_ascii_uppercase clause))

unfoldable pub parse_list_request : List Text → Result ListRequest
unfolding list_pattern take_until_return return_options after_return
parse_list_request args =
    return_options (list_pattern args (take_until_return args)) (after_return args)

unfoldable pub add_children : List Text → List Text
add_children attributes =
    if any
      (λ value.
        eq_ignore_ascii_case value (lit "\\haschildren")
        || eq_ignore_ascii_case value (lit "\\hasnochildren"))
      attributes
    then attributes
    else attributes ++ lit "\\HasNoChildren" ∷ []

unfoldable pub add_special_use : Option Text → List Text → List Text
add_special_use none attributes = attributes
add_special_use (some special_use) attributes =
    if any (λ value. eq_ignore_ascii_case value special_use) attributes
    then attributes
    else attributes ++ special_use ∷ []

unfoldable pub delimiter_of : Mailbox → Text
delimiter_of mailbox = elim mailbox.delimiter [ some delimiter ↦ delimiter | none ↦ lit "/" ]

unfoldable pub mailbox_list_line : Text → Mailbox → Text
unfolding add_children add_special_use delimiter_of
mailbox_list_line prefix mailbox =
    lit "* "
    ++ (prefix
        ++ (lit " ("
            ++ (join (lit " ")
                  (add_special_use mailbox.special_use (add_children mailbox.attributes))
                ++ (lit ") "
                    ++ (quote_imap_string (delimiter_of mailbox)
                        ++ (lit " " ++ quote_imap_string mailbox.name))))))

unfoldable pub status_lines : Mailbox → Option (List Text) → List Text
status_lines mailbox none = []
status_lines mailbox (some items) = format_status_response mailbox items ∷ []

unfoldable pub list_lines : Text → Option (List Text) → List Mailbox → List Text
unfolding mailbox_list_line status_lines
list_lines name items [] = []
list_lines name items (mailbox ∷ mailboxes) =
    mailbox_list_line name mailbox ∷ (status_lines mailbox items ++ list_lines name items mailboxes)

unfoldable pub matching_lines : Text → Text → List Mailbox → ListRequest → List Text
unfolding list_lines delimiter_of
matching_lines tag name mailboxes (pattern, items) =
    list_lines name items (
      retain (λ mailbox. imap_list_pattern_matches pattern mailbox.name (delimiter_of mailbox))
        mailboxes)
    ++ completed tag name ∷ []

unfoldable pub list_for : Services → Text → Text → List Text → Db → Option ℤ → Reply
unfolding matching_lines parse_list_request bad_state list_mailboxes
list_for services tag name args db none =
    ok (bad_state tag name (lit "an authenticated account") ∷ [])
list_for services tag name args db (some account_id) =
    let subscribed_only = if eq name (lit "LSUB") then some true else none in
    let mailboxes = list_mailboxes services.collates account_id subscribed_only db in
    parse_list_request args >>= λ request. ok (matching_lines tag name mailboxes request)

-- LIST and LSUB, by their names.
unfoldable pub list : Services → Text → Text → List Text → ImapSession → Db → Reply
unfolding list_for account_of
list services tag name args session db =
    if services.repository
    then list_for services tag name args db (account_of session.authenticated)
    else ok (lit "* LIST (\\HasNoChildren) \"/\" \"INBOX\"" ∷ completed tag name ∷ [])

-- `&command.args[1..]`, which panics without an argument; the panic is an error of its own here.
abbrev pub panicked : Error
panicked = external (lit "range start index 1 out of range for slice of length 0")

unfoldable pub args_from_1 : List Text → Result (List Text)
args_from_1 [] = err panicked
args_from_1 (arg ∷ args) = ok args

unfoldable pub status_reply : Text → List Text → (List Text → Text) → Reply
unfolding args_from_1
status_reply tag args line = args_from_1 args >>= parse_status_items >>= λ items.
    ok (line items ∷ completed tag (lit "STATUS") ∷ [])

unfoldable pub status_found : Text → List Text → Option Mailbox → Reply
unfolding status_reply no
status_found tag args none = ok (no tag (lit "NONEXISTENT") (lit "mailbox not found") ∷ [])
status_found tag args (some mailbox) = status_reply tag args (format_status_response mailbox)

unfoldable pub status_for : Text → List Text → Db → Option ℤ → Reply
unfolding status_found find_mailbox first_or_inbox bad_state
status_for tag args db none =
    ok (bad_state tag (lit "STATUS") (lit "an authenticated account") ∷ [])
status_for tag args db (some account_id) =
    status_found tag args (find_mailbox account_id (first_or_inbox args) db)

unfoldable pub status : Services → Text → List Text → ImapSession → Db → Reply
unfolding status_for status_reply account_of first_or_inbox
status services tag args session db =
    if services.repository
    then status_for tag args db (account_of session.authenticated)
    else status_reply tag args (format_status_response_with_defaults (first_or_inbox args))
