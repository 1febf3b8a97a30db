-- ===== src/Protocol/NumberSet/Laws.antt =====
-- Which numbers a parsed set holds, and in which order.
use mathlib.Core.List.{flat_map}
use imapped_lightmode.Base.{
  ℕ, zero, suc, ◌≡◌, refl, ap, ◌∙◌, Bool, false, ◌&&◌, ◌||◌, Option, none, some, List, [], ◌∷◌,
  arith, ltb, any, any-append, retain, Option-cases, inl, inr,
}
use imapped_lightmode.Base.Int.{ℤ, pos, negsuc, leb_ℤ, eqb_ℤ, eqb_ℤ_iff, distance}
use imapped_lightmode.Base.Sort.{sort, dedup}
use imapped_lightmode.Base.Sort.Laws.{
  IsStrict, mem-sort, mem-dedup, dedup-sort-IsStrict, retain-IsStrict,
}
use imapped_lightmode.Base.Sort.Orders.{int_ord}
use imapped_lightmode.Text.{Text}
use imapped_lightmode.Text.Trim.{trim}
use imapped_lightmode.Text.Split.{split_once}
use imapped_lightmode.Protocol.NumberSet.{
  expand, range_from, range_inclusive, range_values, single_value, part_values, set_parts,
  is_positive, parse_number_set,
}

-- `v` lies between the two ends, in either order.
abbrev pub between : Option ℤ → Option ℤ → ℤ → Bool
between none end v = false
between (some start) none v = false
between (some start) (some end) v = (leb_ℤ start v && leb_ℤ v end) || (leb_ℤ end v && leb_ℤ v start)

abbrev pub names : Option ℤ → ℤ → Bool
names none v = false
names (some value) v = eqb_ℤ value v

-- What one part of a set stands for: `*` is the largest number, `a:b` the numbers between its ends.
unfoldable pub part_covers : ℤ → Text → ℤ → Bool
part_covers max_value part v = elim (split_once b':' part) [
  | some (start, end) ↦ between (expand max_value (trim start)) (expand max_value (trim end)) v
  | none ↦ names (expand max_value part) v
]

mem-range_from :
    (n : ℕ) (lo v : ℤ)
    → any (λ x. eqb_ℤ x v) (range_from n lo) ≡ (leb_ℤ lo v && ltb (distance lo v) n)
unfolding range_from
mem-range_from zero lo v = ground arith
mem-range_from (suc n) (pos a) v = ground (arith, mem-range_from n (pos (suc a)) v)
mem-range_from (suc n) (negsuc zero) v = ground (arith, mem-range_from n (pos 0) v)
mem-range_from (suc n) (negsuc (suc a)) v = ground (arith, mem-range_from n (negsuc a) v)

mem-range_inclusive :
    (lo hi v : ℤ) → any (λ x. eqb_ℤ x v) (range_inclusive lo hi) ≡ (leb_ℤ lo v && leb_ℤ v hi)
unfolding range_inclusive
mem-range_inclusive lo hi v = ground (arith, mem-range_from (suc (distance lo hi)) lo v)

mem-range_values :
    (start end : Option ℤ) (v : ℤ)
    → any (λ x. eqb_ℤ x v) (range_values start end) ≡ between start end v
unfolding range_values
mem-range_values none end v = refl
mem-range_values (some start) none v = refl
mem-range_values (some start) (some end) v =
    ground (arith, mem-range_inclusive start end v, mem-range_inclusive end start v)

mem-single_value :
    (value : Option ℤ) (v : ℤ) → any (λ x. eqb_ℤ x v) (single_value value) ≡ names value v
unfolding single_value
mem-single_value none v = refl
mem-single_value (some value) v = ground arith

mem-part_values :
    (max_value : ℤ) (part : Text) (v : ℤ)
    → any (λ x. eqb_ℤ x v) (part_values max_value part) ≡ part_covers max_value part v
unfolding part_values part_covers
mem-part_values max_value part v = elim (Option-cases (split_once b':' part)) [
  | inl e ↦ rw (e, part_values, part_covers) (mem-single_value (expand max_value part) v)
  | inr (r, e) ↦
      rw (e, part_values, part_covers)
        (mem-range_values (expand max_value (trim r.0)) (expand max_value (trim r.1)) v)
]

any-flat_map :
    (p : ℤ → Bool) (f : Text → List ℤ) (xs : List Text)
    → any p (flat_map f xs) ≡ any (λ x. any p (f x)) xs
unfolding flat_map
any-flat_map p f [] = refl
any-flat_map p f (x ∷ xs) =
    any-append p (f x) (flat_map f xs) ∙ ap (λ b. any p (f x) || b) (any-flat_map p f xs)

any_ext : (p q : Text → Bool) → ((x : Text) → p x ≡ q x) → (xs : List Text) → any p xs ≡ any q xs
any_ext p q h [] = refl
any_ext p q h (x ∷ xs) = rw (h x, any_ext p q h xs)

mem-values :
    (max_value v : ℤ) (parts : List Text)
    → any (λ x. eqb_ℤ x v) (flat_map (part_values max_value) parts)
      ≡ any (λ part. part_covers max_value part v) parts
mem-values max_value v parts =
    any-flat_map (λ x. eqb_ℤ x v) (part_values max_value) parts
    ∙ any_ext (λ part. any (λ x. eqb_ℤ x v) (part_values max_value part))
        (λ part. part_covers max_value part v) (λ part. mem-part_values max_value part v) parts

-- Whether `v` is positive does not differ between equal numbers.
any-positive :
    (v : ℤ) (xs : List ℤ)
    → any (λ x. eqb_ℤ x v) (retain is_positive xs) ≡ (is_positive v && any (λ x. eqb_ℤ x v) xs)
any-positive v [] = ground arith
any-positive v (x ∷ xs) = ground (arith, any-positive v xs, eqb_ℤ_iff x v)

-- A number is in the parsed set exactly when it is positive and some part of the text covers it.
pub mem-parse_number_set :
    (value : Text) (max_value v : ℤ)
    → any (λ x. eqb_ℤ x v) (parse_number_set value max_value)
      ≡ (is_positive v && any (λ part. part_covers max_value part v) (set_parts value))
unfolding parse_number_set int_ord
mem-parse_number_set value max_value v =
    any-positive v (dedup int_ord (sort int_ord values)) ∙ ap (λ b. is_positive v && b) membership
  where
    values : List ℤ
    values = flat_map (part_values max_value) (set_parts value)

    membership :
        any (λ x. eqb_ℤ x v) (dedup int_ord (sort int_ord values))
        ≡ any (λ part. part_covers max_value part v) (set_parts value)
    membership =
        mem-dedup int_ord v (sort int_ord values)
        ∙ mem-sort int_ord v values
        ∙ mem-values max_value v (set_parts value)

-- The numbers of a parsed set increase strictly.
pub parse_number_set-IsStrict :
    (value : Text) (max_value : ℤ) → IsStrict int_ord (parse_number_set value max_value)
unfolding parse_number_set
parse_number_set-IsStrict value max_value =
    retain-IsStrict int_ord is_positive (dedup int_ord (sort int_ord values))
      (dedup-sort-IsStrict int_ord values)
  where
    values : List ℤ
    values = flat_map (part_values max_value) (set_parts value)
