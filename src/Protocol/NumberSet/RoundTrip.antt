-- ===== src/Protocol/NumberSet/RoundTrip.antt =====
-- A formatted set is parsed to its numbers.
use mathlib.Core.List.{flat_map}
use imapped_lightmode.Base.{
  ℕ, zero, suc, ◌+◌, ◌-◌, ◌%◌, ◌^◌, ◌≤◌, ◌<◌, ◌≡◌, ◌≢◌, refl, ap, ◌∙◌, true, not, List, [], ◌∷◌,
  ◌++◌, map, arith, ltb, ◌==◌, retain, is_empty, ==_iff, Bool-cases, inl, inr, All, append_assoc,
}
use imapped_lightmode.Base.Int.{ℤ, pos}
use imapped_lightmode.Base.Sort.{sort, dedup}
use imapped_lightmode.Base.Sort.Laws.{
  IsStrict, AllGt, sort-IsStrict_self, dedup-IsStrict_self, dedup-sort-IsStrict, All-sort,
  All-dedup,
}
use imapped_lightmode.Base.Sort.Orders.{nat_ord, int_ord}
use imapped_lightmode.Text.{Text, join}
use imapped_lightmode.Text.Trim.{trim, trim_start, trim_end}
use imapped_lightmode.Text.Split.{split, split-join, Lacks}
use imapped_lightmode.Text.Decimal.{i64_max}
use imapped_lightmode.Protocol.NumberSet.{
  range_from, part_values, set_parts, is_positive, parse_number_set, group, format_sorted,
  format_number_set,
}
use imapped_lightmode.Protocol.NumberSet.Range.{
  IsRangeText, span, range_char_not_comma, trim-IsRangeText, span_single, part_values-format_range,
  format_range-IsRangeText, format_range-nonempty,
}

-- The values from `end` on increase and fit `i64`.
abbrev IsChain : ℕ → List ℕ → Type 0
IsChain end [] = Unit
IsChain end (v ∷ vs) = (end < v) × (v ≤ i64_max) × IsChain v vs

range_from-snoc : (n a : ℕ) → range_from (suc n) (pos a) ≡ range_from n (pos a) ++ pos (a + n) ∷ []
unfolding range_from
range_from-snoc zero a = ground arith
range_from-snoc (suc n) a = ground (arith, range_from-snoc n (suc a))

span-extend : (s e v : ℕ) → s ≤ e → v ≡ e + 1 → span s v ≡ span s e ++ pos v ∷ []
span-extend s e v h k =
    ap (λ n. range_from n (pos s)) (omega arith)
    ∙ range_from-snoc (suc (e - s)) s
    ∙ ap (λ n. span s e ++ pos n ∷ []) (omega arith)

next_value : (v e : ℕ) → e ≤ i64_max → (v == (e + 1) % 2 ^ 64) ≡ true → v ≡ e + 1
next_value v e b h = omega (arith, (==_iff v ((e + 1) % 2 ^ 64)).0 h)

-- The parts of a grouping stand for its values.
values-group :
    (m : ℤ) (s e : ℕ) (vs : List ℕ)
    → s ≤ e
    → e ≤ i64_max
    → IsChain e vs
    → flat_map (part_values m) (group s e vs) ≡ span s e ++ map pos vs
unfolding group flat_map
values-group m s e [] h b c = ap (λ r. r ++ []) (part_values-format_range m s e h b)
values-group m s e (v ∷ vs) h b c = elim (Bool-cases (v == (e + 1) % 2 ^ 64)) [
  | inl next ↦ rw next (
      values-group m s v vs (omega (arith, c.0)) c.1 c.2
      ∙ ap (λ r. r ++ map pos vs) (span-extend s e v h (next_value v e b next))
      ∙ append_assoc (span s e) (pos v ∷ []) (map pos vs))
  | inr other ↦ rw other (
      ap (λ r. r ++ flat_map (part_values m) (group v v vs)) (part_values-format_range m s e h b)
      ∙ ap (λ r. span s e ++ r)
          (values-group m v v vs (omega arith) c.1 c.2
            ∙ ap (λ r. r ++ map pos vs) (span_single v v refl)))
]

group-parts :
    (s e : ℕ) (vs : List ℕ) → All (λ p. IsRangeText p × (not (is_empty p) ≡ true)) (group s e vs)
unfolding group
group-parts s e [] = ((format_range-IsRangeText s e, format_range-nonempty s e), tt)
group-parts s e (v ∷ vs) = elim (Bool-cases (v == (e + 1) % 2 ^ 64)) [
  | inl next ↦ rw next (group-parts s v vs)
  | inr other ↦
      rw other ((format_range-IsRangeText s e, format_range-nonempty s e), group-parts v v vs)
]

IsRangeText-Lacks_comma : (s : Text) → IsRangeText s → Lacks (λ c. c == b',') s
IsRangeText-Lacks_comma [] h = tt
IsRangeText-Lacks_comma (c ∷ s) h = (range_char_not_comma c h.0, IsRangeText-Lacks_comma s h.1)

parts-Lacks_comma :
    (ps : List Text)
    → All (λ p. IsRangeText p × (not (is_empty p) ≡ true)) ps
    → All (Lacks (λ c. c == b',')) ps
parts-Lacks_comma [] h = tt
parts-Lacks_comma (p ∷ ps) h = (IsRangeText-Lacks_comma p h.0.0, parts-Lacks_comma ps h.1)

kept-parts :
    (ps : List Text)
    → All (λ p. IsRangeText p × (not (is_empty p) ≡ true)) ps
    → retain (λ p. not (is_empty p)) (map trim ps) ≡ ps
kept-parts [] h = refl
kept-parts (p ∷ ps) h = rw (trim-IsRangeText p h.0.0, h.0.1, kept-parts ps h.1)

set_parts-join :
    (ps : List Text)
    → ps ≢ []
    → All (λ p. IsRangeText p × (not (is_empty p) ≡ true)) ps
    → set_parts (join (b',' ∷ []) ps) ≡ ps
unfolding set_parts
set_parts-join [] n h = absurd (n refl)
set_parts-join (p ∷ ps) n h =
    ap (λ r. retain (λ q. not (is_empty q)) (map trim r))
      (split-join b',' p ps (parts-Lacks_comma (p ∷ ps) h))
    ∙ kept-parts (p ∷ ps) h

group-ne-nil : (s e : ℕ) (vs : List ℕ) → group s e vs ≢ []
unfolding group
group-ne-nil s e [] = λ k. cc
group-ne-nil s e (v ∷ vs) = elim (Bool-cases (v == (e + 1) % 2 ^ 64)) [
  | inl next ↦ rw next (group-ne-nil s v vs)
  | inr other ↦ rw other (λ k. cc)
]

IsStrict-IsChain :
    (v : ℕ) (vs : List ℕ) → IsStrict nat_ord (v ∷ vs) → All (λ n. n ≤ i64_max) vs → IsChain v vs
unfolding nat_ord
IsStrict-IsChain v [] s b = tt
IsStrict-IsChain v (w ∷ vs) s b = (ground arith, b.0, IsStrict-IsChain w vs s.1 b.1)

-- The values that the parts of a formatted set stand for.
values-format_sorted :
    (m : ℤ) (vs : List ℕ)
    → IsStrict nat_ord vs
    → All (λ n. n ≤ i64_max) vs
    → flat_map (part_values m) (set_parts (format_sorted vs)) ≡ map pos vs
unfolding format_sorted
values-format_sorted m [] s b = unfold set_parts split trim trim_start trim_end flat_map in refl
values-format_sorted m (v ∷ vs) s b =
    ap (flat_map (part_values m))
      (set_parts-join (group v v vs) (group-ne-nil v v vs) (group-parts v v vs))
    ∙ values-group m v v vs (omega arith) b.0 (IsStrict-IsChain v vs s b.1)
    ∙ ap (λ r. r ++ map pos vs) (span_single v v refl)

map-pos-AllGt : (v : ℕ) (vs : List ℕ) → AllGt nat_ord v vs → AllGt int_ord (pos v) (map pos vs)
unfolding nat_ord int_ord
map-pos-AllGt v [] g = tt
map-pos-AllGt v (w ∷ vs) g = (ground arith, map-pos-AllGt v vs g.1)

map-pos-IsStrict : (vs : List ℕ) → IsStrict nat_ord vs → IsStrict int_ord (map pos vs)
map-pos-IsStrict [] s = tt
map-pos-IsStrict (v ∷ vs) s = (map-pos-AllGt v vs s.0, map-pos-IsStrict vs s.1)

retain-map-pos : (vs : List ℕ) → retain is_positive (map pos vs) ≡ map pos (retain (ltb 0) vs)
retain-map-pos [] = refl
retain-map-pos (v ∷ vs) = ground (arith, retain-map-pos vs)

parse-format_sorted :
    (m : ℤ) (vs : List ℕ)
    → IsStrict nat_ord vs
    → All (λ n. n ≤ i64_max) vs
    → parse_number_set (format_sorted vs) m ≡ map pos (retain (ltb 0) vs)
unfolding parse_number_set
parse-format_sorted m vs s b =
    ap (λ r. retain is_positive (dedup int_ord (sort int_ord r))) (values-format_sorted m vs s b)
    ∙ ap (λ r. retain is_positive (dedup int_ord r))
        (sort-IsStrict_self int_ord (map pos vs) strict)
    ∙ ap (retain is_positive) (dedup-IsStrict_self int_ord (map pos vs) strict)
    ∙ retain-map-pos vs
  where
    strict : IsStrict int_ord (map pos vs)
    strict = map-pos-IsStrict vs s

-- A formatted set of numbers that fit `i64` is parsed to its positive numbers, in increasing order
-- and each once, whatever the largest number in use is.
pub parse-format_number_set :
    (vs : List ℕ) (max_value : ℤ)
    → All (λ n. n ≤ i64_max) vs
    → parse_number_set (format_number_set vs) max_value
      ≡ map pos (retain (ltb 0) (dedup nat_ord (sort nat_ord vs)))
unfolding format_number_set
parse-format_number_set vs max_value b =
    parse-format_sorted max_value (dedup nat_ord (sort nat_ord vs)) (dedup-sort-IsStrict nat_ord vs)
      (All-dedup nat_ord (λ n. n ≤ i64_max) (sort nat_ord vs)
        (All-sort nat_ord (λ n. n ≤ i64_max) vs b))
