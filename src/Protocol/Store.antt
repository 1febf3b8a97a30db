-- ===== src/Protocol/Store.antt =====
-- `parse_flag_list`, `parse_store_item`, `parse_store_request` and `parse_literal_marker` of
-- crates/protocol/src/lib.rs.
pub mod Laws
use imapped_lightmode.Base.{
  ℕ, suc, ◌-◌, Bool, true, false, not, ◌&&◌, Option, none, some, List, [], ◌∷◌, ◌++◌, if◌then◌else◌,
  is_empty, retain, take, drop, length, map, Error, parse_error, Result, ok, err,
}
use imapped_lightmode.Text.{Text, lit, eq, starts_with_char, ends_with_char}
use imapped_lightmode.Text.Case.{to_ascii_uppercase}
use imapped_lightmode.Text.Trim.{trim, strip_prefix, strip_suffix}
use imapped_lightmode.Text.Split.{split_whitespace}
use imapped_lightmode.Text.Decimal.{parse_usize}
use imapped_lightmode.Protocol.{StoreMode, replace, add, remove}

abbrev pub unwrap_or : Option Text → Text → Text
unwrap_or none default = default
unwrap_or (some s) default = s

-- One opening and one closing parenthesis around a trimmed text, if they are there.
unfoldable pub strip_parens : Text → Text
strip_parens value =
    let trimmed = trim value in
    let opened = unwrap_or (strip_prefix (lit "(") trimmed) trimmed in
    unwrap_or (strip_suffix (lit ")") opened) opened

unfoldable pub parse_flag_list : Text → List Text
unfolding strip_parens
parse_flag_list value =
    retain (λ flag. not (is_empty flag)) (map trim (split_whitespace (strip_parens value)))

unfoldable pub store_mode : Text → Option StoreMode
store_mode base =
    if eq base (lit "FLAGS")
    then some replace
    else if eq base (lit "+FLAGS")
    then some add
    else if eq base (lit "-FLAGS")
    then some remove
    else none

-- The item without `.SILENT`, and whether it ends so.
unfoldable pub split_silent : Text → Text × Bool
split_silent upper = elim (strip_suffix (lit ".SILENT") upper) [
  | some base ↦ (base, true)
  | none ↦ (upper, false)
]

unfoldable pub parse_store_item : Text → Option (StoreMode × Bool)
unfolding store_mode split_silent
parse_store_item item =
    let base = split_silent (to_ascii_uppercase (trim item)) in
    elim (store_mode base.0) [ some mode ↦ some (mode, base.1) | none ↦ none ]

abbrev pub StoreRequest : Type 0
StoreRequest = Text × StoreMode × Bool × List Text

-- The flag list is the first of the arguments behind the item.
unfoldable pub with_flags : Text → StoreMode → Bool → List Text → Result StoreRequest
with_flags sequence_set mode silent [] = err (parse_error (lit "STORE requires a flag list"))
with_flags sequence_set mode silent (flags_value ∷ args) =
    ok (sequence_set, mode, silent, parse_flag_list flags_value)

unfoldable pub parse_store_request : List Text → Result StoreRequest
unfolding with_flags
parse_store_request [] = err (parse_error (lit "STORE requires a message set"))
parse_store_request (sequence_set ∷ []) = err (parse_error (lit "STORE requires a flag list"))
parse_store_request (sequence_set ∷ item ∷ args) = elim (parse_store_item item) [
  | some (mode, silent) ↦ with_flags sequence_set mode silent args
  | none ↦ with_flags sequence_set replace false (item ∷ args)
]

-- The text between the braces, and whether it ends in `+`.
unfoldable pub marker_length : Text → Bool → Option (ℕ × Bool)
marker_length inner non_sync =
    elim (parse_usize (if non_sync then take (length inner - 1) inner else inner)) [
      | some n ↦ some (n, non_sync)
      | none ↦ none
    ]

unfoldable pub read_marker : Text → Option (ℕ × Bool)
unfolding marker_length
read_marker trimmed =
    let inner = take (length trimmed - 2) (drop 1 trimmed) in
    if starts_with_char b'{' trimmed && ends_with_char b'}' trimmed
    then marker_length inner (ends_with_char b'+' inner)
    else none

unfoldable pub parse_literal_marker : Text → Option (ℕ × Bool)
unfolding read_marker
parse_literal_marker value = read_marker (trim value)
