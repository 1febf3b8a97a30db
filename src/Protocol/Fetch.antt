-- ===== src/Protocol/Fetch.antt =====
-- `parse_fetch_items`, `parse_raw_fetch_request` and `parse_body_part_fetch_request` of
-- crates/protocol/src/lib.rs.
pub mod Laws
use imapped_lightmode.Base.{
  ℕ, zero, suc, ◌+◌, ◌-◌, Bool, true, false, not, ◌&&◌, ◌||◌, Option, none, some, List, [], ◌∷◌,
  ◌++◌, ◌==◌, leb, if◌then◌else◌, is_empty, take, drop, length, all, map,
}
use imapped_lightmode.Text.{Text, lit, eq, is_whitespace, join, ends_with_char}
use imapped_lightmode.Text.Case.{to_ascii_uppercase}
use imapped_lightmode.Text.Trim.{trim, strip_prefix, strip_suffix}
use imapped_lightmode.Text.Split.{split, split_whitespace}
use imapped_lightmode.Text.Find.{find, rfind, starts_with}
use imapped_lightmode.Text.Decimal.{parse_usize}
use imapped_lightmode.Protocol.{
  FetchBodySection, full, header, text, mime, header_fields, RawFetchSection, whole, part,
  RawFetchRequest,
}
use imapped_lightmode.Protocol.Store.{strip_parens}

-- `items.push(current.trim().to_ascii_uppercase())`, unless it is blank.
unfoldable pub push_item : Text → List Text → List Text
push_item current items =
    if is_empty (trim current) then items else to_ascii_uppercase (trim current) ∷ items

-- The loop over the characters, with the push behind it: the items from here on. `current` is kept
-- where a separator finds it blank.
unfoldable pub item_loop : ℕ → ℕ → Bool → Text → Text → List Text
unfolding push_item
item_loop parens brackets in_quotes current [] = push_item current []
item_loop parens brackets in_quotes current (ch ∷ s) =
    let unquoted = item_loop parens brackets (not in_quotes) (current ++ ch ∷ []) s in
    let opened = item_loop (parens + 1) brackets in_quotes (current ++ ch ∷ []) s in
    let closed = item_loop (parens - 1) brackets in_quotes (current ++ ch ∷ []) s in
    let bracketed = item_loop parens (brackets + 1) in_quotes (current ++ ch ∷ []) s in
    let unbracketed = item_loop parens (brackets - 1) in_quotes (current ++ ch ∷ []) s in
    let separated =
      if is_empty (trim current)
      then item_loop parens brackets in_quotes current s
      else to_ascii_uppercase (trim current) ∷ item_loop parens brackets in_quotes [] s in
    let pushed = item_loop parens brackets in_quotes (current ++ ch ∷ []) s in
    if ch == 34
    then unquoted
    else if ch == b'(' && not in_quotes
    then opened
    else if ch == b')' && not in_quotes
    then closed
    else if ch == b'[' && not in_quotes
    then bracketed
    else if ch == b']' && not in_quotes
    then unbracketed
    else if is_whitespace ch && not in_quotes && parens == 0 && brackets == 0
    then separated
    else pushed

unfoldable pub default_items : List Text → List Text
default_items [] =
    lit "FLAGS" ∷ lit "UID" ∷ lit "RFC822.SIZE" ∷ lit "ENVELOPE" ∷ lit "BODYSTRUCTURE" ∷ []
default_items (item ∷ items) = item ∷ items

unfoldable pub parse_fetch_items : List Text → List Text
unfolding item_loop default_items
parse_fetch_items args = default_items (item_loop 0 0 false [] (strip_parens (join (lit " ") args)))

-- The names inside the parentheses of HEADER.FIELDS.
unfoldable pub field_names : Text → List Text
field_names inner = map trim (split_whitespace inner)

unfoldable pub or_else : Option Text → Option Text → Option Text
or_else none other = other
or_else (some s) other = some s

-- Behind a marker for header fields.
unfoldable pub part_fields : Text → Text → Bool → Option (Text × FetchBodySection)
unfolding or_else field_names
part_fields path suffix negated =
    elim (or_else (strip_prefix (lit "HEADER.FIELDS.NOT (") suffix)
      (strip_prefix (lit "HEADER.FIELDS (") suffix)) [
        | some fields ↦ elim (strip_suffix (lit ")") fields) [
          | some inner ↦ some (path, header_fields (field_names inner) negated)
          | none ↦ none
        ]
        | none ↦ none
      ]

unfoldable pub simple_section : Text → Option FetchBodySection
simple_section suffix =
    if eq suffix (lit "HEADER")
    then some header
    else if eq suffix (lit "TEXT")
    then some text
    else if eq suffix (lit "MIME")
    then some mime
    else none

-- The markers in turn: one that is not found, or whose suffix is no section, passes on.
unfoldable pub simple_markers :
    Text → List Text → Option (Text × FetchBodySection) → Option (Text × FetchBodySection)
unfolding simple_section
simple_markers inner [] otherwise = otherwise
simple_markers inner (marker ∷ markers) otherwise = elim (find marker inner) [
  | some (path, rest) ↦ elim (simple_section (drop 1 rest)) [
    | some section ↦ some (path, section)
    | none ↦ simple_markers inner markers otherwise
  ]
  | none ↦ simple_markers inner markers otherwise
]

unfoldable pub is_part_char : ℕ → Bool
is_part_char ch = (leb b'0' ch && leb ch b'9') || ch == b'.'

unfoldable pub part_of : Text → Option (Text × FetchBodySection)
unfolding part_fields simple_markers is_part_char
part_of inner = elim (find (lit ".HEADER.FIELDS.NOT (") inner) [
  | some (path, rest) ↦ part_fields path (drop 1 rest) true
  | none ↦ elim (find (lit ".HEADER.FIELDS (") inner) [
    | some (path, rest) ↦ part_fields path (drop 1 rest) false
    | none ↦
        simple_markers inner (lit ".HEADER" ∷ lit ".TEXT" ∷ lit ".MIME" ∷ [])
          (if all is_part_char inner then some (inner, full) else none)
  ]
]

unfoldable pub body_inner : Text → Option Text
body_inner item = elim (strip_prefix (lit "BODY[") item) [
  | some rest ↦ strip_suffix (lit "]") rest
  | none ↦ none
]

unfoldable pub parse_body_part_fetch_request : Text → Option (Text × FetchBodySection)
unfolding part_of body_inner
parse_body_part_fetch_request item = elim (body_inner item) [
  | some inner ↦ if is_empty inner then some (lit "1", full) else part_of inner
  | none ↦ none
]

abbrev pub Partial : Type 0
Partial = Option (ℕ × Option ℕ)

unfoldable pub second_count : List Text → Option ℕ
second_count [] = none
second_count (count ∷ parts) = parse_usize count

-- `offset.count` between the angle brackets.
unfoldable pub parse_marker : List Text → Option (ℕ × Option ℕ)
unfolding second_count
parse_marker [] = none
parse_marker (offset ∷ parts) = elim (parse_usize offset) [
  | some n ↦ some (n, second_count parts)
  | none ↦ none
]

-- The item without its partial range, and the range; `none` where the function returns.
unfoldable pub split_partial : Text → Option (Text × Partial)
unfolding parse_marker
split_partial item = elim (rfind b'<' item) [
  | some (before, after) ↦
      if ends_with_char b'>' item
      then elim (parse_marker (split b'.' (take (length after - 1) after))) [
        | some range ↦ some (before, some range)
        | none ↦ none
      ]
      else some (item, none)
  | none ↦ some (item, none)
]

-- `strip_prefix(…).and_then(strip_suffix(")]"))`.
unfoldable pub between : Text → Text → Option Text
between before item = elim (strip_prefix before item) [
  | some rest ↦ strip_suffix (lit ")]") rest
  | none ↦ none
]

unfoldable pub section_of : Text → Option RawFetchSection
unfolding between field_names
section_of item =
    if eq item (lit "BODY[]") || eq item (lit "BODY.PEEK[]")
    then some (whole full)
    else if eq item (lit "BODY[HEADER]")
    then some (whole header)
    else if eq item (lit "BODY[TEXT]")
    then some (whole text)
    else if eq item (lit "BODY[MIME]")
    then some (whole mime)
    else elim (between (lit "BODY[HEADER.FIELDS (") item) [
      | some inner ↦ some (whole (header_fields (field_names inner) false))
      | none ↦ elim (between (lit "BODY[HEADER.FIELDS.NOT (") item) [
        | some inner ↦ some (whole (header_fields (field_names inner) true))
        | none ↦ elim (parse_body_part_fetch_request item) [
          | some (path, section) ↦ some (part path section)
          | none ↦ none
        ]
      ]
    ]

unfoldable pub request_of : Text → Bool → Text → Partial → Option RawFetchRequest
unfolding section_of
request_of label peek item partial =
    if eq item (lit "RFC822")
    then some (record { label = label; section = whole full; partial = partial; peek = false })
    else if eq item (lit "RFC822.HEADER")
    then some (record { label = label; section = whole header; partial = partial; peek = false })
    else if eq item (lit "RFC822.TEXT")
    then some (record { label = label; section = whole text; partial = partial; peek = false })
    else elim (section_of item) [
      | some section ↦
          some (record { label = label; section = section; partial = partial; peek = peek })
      | none ↦ none
    ]

-- The first `BODY.PEEK[` stands at the beginning where there is `peek`.
unfoldable pub normalize : Bool → Text → Text
normalize peek item = if peek then lit "BODY[" ++ drop 10 item else item

unfoldable pub finish_request : Text → Bool → Option (Text × Partial) → Option RawFetchRequest
unfolding request_of
finish_request label peek none = none
finish_request label peek (some (rest, partial)) = request_of label peek rest partial

unfoldable pub parse_raw_fetch_request : Text → Option RawFetchRequest
unfolding normalize split_partial finish_request
parse_raw_fetch_request item =
    let peek = starts_with (lit "BODY.PEEK[") item in
    finish_request item peek (split_partial (normalize peek item))
