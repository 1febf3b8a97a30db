-- ===== src/Protocol/NumberSet.antt =====
-- `parse_number_set` and `format_number_set` of crates/protocol/src/lib.rs.
pub mod Laws
pub mod Range
pub mod RoundTrip
use mathlib.Core.List.{flat_map}
use imapped_lightmode.Base.{
  ℕ, zero, suc, ◌+◌, ◌%◌, ◌^◌, Bool, true, false, not, Option, none, some, List, [], ◌∷◌, ◌++◌, map,
  ltb, ◌==◌, if◌then◌else◌, is_empty, retain,
}
use imapped_lightmode.Base.Int.{ℤ, pos, negsuc, leb_ℤ, suc_ℤ, distance}
use imapped_lightmode.Base.Sort.{sort, dedup}
use imapped_lightmode.Base.Sort.Orders.{nat_ord, int_ord}
use imapped_lightmode.Text.{Text, lit, eq, join}
use imapped_lightmode.Text.Trim.{trim}
use imapped_lightmode.Text.Split.{split, split_once}
use imapped_lightmode.Text.Decimal.{show, parse_i64}

-- The closure `expand`: `*` stands for the largest number in use.
unfoldable pub expand : ℤ → Text → Option ℤ
expand max_value token = if eq token (lit "*") then some max_value else parse_i64 token

unfoldable pub range_from : ℕ → ℤ → List ℤ
range_from zero lo = []
range_from (suc n) lo = lo ∷ range_from n (suc_ℤ lo)

-- `lo..=hi`.
unfoldable pub range_inclusive : ℤ → ℤ → List ℤ
unfolding range_from
range_inclusive lo hi = if leb_ℤ lo hi then range_from (suc (distance lo hi)) lo else []

-- The numbers of `start:end`, in either order; an end that is no number skips the part.
unfoldable pub range_values : Option ℤ → Option ℤ → List ℤ
unfolding range_inclusive
range_values none end = []
range_values (some start) none = []
range_values (some start) (some end) =
    if leb_ℤ start end then range_inclusive start end else range_inclusive end start

unfoldable pub single_value : Option ℤ → List ℤ
single_value none = []
single_value (some value) = value ∷ []

-- What one round of the loop adds to `out`.
unfoldable pub part_values : ℤ → Text → List ℤ
part_values max_value part = elim (split_once b':' part) [
  | some (start, end) ↦ range_values (expand max_value (trim start)) (expand max_value (trim end))
  | none ↦ single_value (expand max_value part)
]

-- `value.split(',').map(str::trim).filter(|part| !part.is_empty())`.
unfoldable pub set_parts : Text → List Text
set_parts value = retain (λ part. not (is_empty part)) (map trim (split b',' value))

abbrev pub is_positive : ℤ → Bool
is_positive (pos n) = ltb 0 n
is_positive (negsuc n) = false

unfoldable pub parse_number_set : Text → ℤ → List ℤ
parse_number_set value max_value =
    retain is_positive
      (dedup int_ord (sort int_ord (flat_map (part_values max_value) (set_parts value))))

unfoldable pub format_range : ℕ → ℕ → Text
format_range start end = if start == end then show start else show start ++ b':' ∷ show end

-- The loop of `format_number_set`: `end + 1` is computed in 64 bits.
unfoldable pub group : ℕ → ℕ → List ℕ → List Text
group start end [] = format_range start end ∷ []
group start end (value ∷ values) =
    let extended = group start value values in
    let closed = format_range start end ∷ group value value values in
    if value == (end + 1) % 2 ^ 64 then extended else closed

unfoldable pub format_sorted : List ℕ → Text
format_sorted [] = []
format_sorted (value ∷ values) = join (b',' ∷ []) (group value value values)

unfoldable pub format_number_set : List ℕ → Text
format_number_set values = format_sorted (dedup nat_ord (sort nat_ord values))
