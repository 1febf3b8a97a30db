-- ===== src/Protocol/NumberSet/Range.antt =====
-- One formatted range, and the numbers that it is parsed to.
use imapped_lightmode.Base.{
  ℕ, suc, ◌-◌, ◌≤◌, ◌≡◌, ◌≢◌, refl, sym, ap, ◌∙◌, Bool, true, false, not, ◌||◌, none, some, List,
  [], ◌∷◌, ◌++◌, arith, ◌==◌, is_empty, ==_iff, Bool-cases, inl, inr, All, All-append,
}
use imapped_lightmode.Base.Int.{ℤ, pos}
use imapped_lightmode.Text.{Text, lit, eq, is_whitespace, printable_not_whitespace}
use imapped_lightmode.Text.Trim.{trim, trim_end_where_self}
use imapped_lightmode.Text.Split.{split_once, split_once-append, split_once-Lacks, Lacks}
use imapped_lightmode.Text.Decimal.{
  show, show-IsDigit, show-ne-nil, IsDigit, is_digit, parse_i64, parse_i64-show, i64_max,
}
use imapped_lightmode.Protocol.NumberSet.{
  expand, range_from, range_inclusive, range_values, single_value, part_values, format_range,
}

-- The characters of a formatted range.
abbrev pub is_range_char : ℕ → Bool
is_range_char c = is_digit c || c == b':'

abbrev pub IsRangeText : Text → Type 0
IsRangeText = All (λ c. is_range_char c ≡ true)

range_char_not_space : (c : ℕ) → is_range_char c ≡ true → is_whitespace c ≡ false
unfolding is_digit
range_char_not_space c h = ground (arith, printable_not_whitespace c)

IsRangeText-no_space : (s : Text) → IsRangeText s → All (λ c. is_whitespace c ≡ false) s
IsRangeText-no_space [] h = tt
IsRangeText-no_space (c ∷ s) h = (range_char_not_space c h.0, IsRangeText-no_space s h.1)

pub range_char_not_comma : (c : ℕ) → is_range_char c ≡ true → (c == b',') ≡ false
unfolding is_digit
range_char_not_comma c h = ground arith

digits-IsRangeText : (s : Text) → All IsDigit s → IsRangeText s
digits-IsRangeText [] h = tt
digits-IsRangeText (c ∷ s) h = (ground arith, digits-IsRangeText s h.1)

pub trim-IsRangeText : (s : Text) → IsRangeText s → trim s ≡ s
unfolding trim
trim-IsRangeText [] h = refl
trim-IsRangeText (c ∷ s) h =
    rw (range_char_not_space c h.0)
      (trim_end_where_self is_whitespace (c ∷ s) (IsRangeText-no_space (c ∷ s) h))

digits-Lacks_colon : (s : Text) → All IsDigit s → Lacks (λ c. c == b':') s
unfolding is_digit
digits-Lacks_colon [] h = tt
digits-Lacks_colon (c ∷ s) h = (ground arith, digits-Lacks_colon s h.1)

expand-digits :
    (m : ℤ) (n : ℕ) (s : Text)
    → All IsDigit s
    → parse_i64 s ≡ some (pos n)
    → expand m s ≡ some (pos n)
unfolding expand is_digit eq lit
expand-digits m n [] d h = h
expand-digits m n (c ∷ s) d h = ground arith

expand-show : (m : ℤ) (n : ℕ) → n ≤ i64_max → expand m (show n) ≡ some (pos n)
expand-show m n h = expand-digits m n (show n) (show-IsDigit n) (parse_i64-show n h)

expand_trimmed-show : (m : ℤ) (n : ℕ) → n ≤ i64_max → expand m (trim (show n)) ≡ some (pos n)
expand_trimmed-show m n h =
    ap (expand m) (trim-IsRangeText (show n) (digits-IsRangeText (show n) (show-IsDigit n)))
    ∙ expand-show m n h

-- The numbers from `s` to `e`.
abbrev pub span : ℕ → ℕ → List ℤ
span s e = range_from (suc (e - s)) (pos s)

range_inclusive-span : (s e : ℕ) → s ≤ e → range_inclusive (pos s) (pos e) ≡ span s e
unfolding range_inclusive
range_inclusive-span s e h = ground arith

part_values_single :
    (m v : ℤ) (part : Text)
    → split_once b':' part ≡ none
    → expand m part ≡ some v
    → part_values m part ≡ v ∷ []
unfolding part_values single_value
part_values_single m v part h k = ground arith

part_values_range :
    (m : ℤ) (a b : ℕ) (start end part : Text)
    → split_once b':' part ≡ some (start, end)
    → expand m (trim start) ≡ some (pos a)
    → expand m (trim end) ≡ some (pos b)
    → a ≤ b
    → part_values m part ≡ range_inclusive (pos a) (pos b)
unfolding part_values range_values
part_values_range m a b start end part h k l le = ground arith

pub span_single : (a b : ℕ) → a ≡ b → span a b ≡ pos a ∷ []
unfolding range_from
span_single a b e = ground arith

pub part_values-format_range :
    (m : ℤ) (s e : ℕ) → s ≤ e → e ≤ i64_max → part_values m (format_range s e) ≡ span s e
unfolding format_range
part_values-format_range m s e h b = elim (Bool-cases (s == e)) [
  | inl same ↦ rw same (
      part_values_single m (pos s) (show s)
        (split_once-Lacks b':' (show s) (digits-Lacks_colon (show s) (show-IsDigit s)))
        (expand-show m s (omega arith))
      ∙ sym (span_single s e ((==_iff s e).0 same)))
  | inr apart ↦ rw apart (
      part_values_range m s e (show s) (show e) (show s ++ b':' ∷ show e)
        (split_once-append b':' (show s) (show e) (digits-Lacks_colon (show s) (show-IsDigit s)))
        (expand_trimmed-show m s (omega arith)) (expand_trimmed-show m e b) h
      ∙ range_inclusive-span s e h)
]

pub format_range-IsRangeText : (s e : ℕ) → IsRangeText (format_range s e)
unfolding format_range
format_range-IsRangeText s e = elim (Bool-cases (s == e)) [
  | inl same ↦ rw same (digits-IsRangeText (show s) (show-IsDigit s))
  | inr apart ↦ rw apart (
      All-append (λ c. is_range_char c ≡ true) (show s) (b':' ∷ show e)
        (digits-IsRangeText (show s) (show-IsDigit s))
        (unfold is_digit in refl, digits-IsRangeText (show e) (show-IsDigit e)))
]

pub format_range-nonempty : (s e : ℕ) → not (is_empty (format_range s e)) ≡ true
unfolding format_range
format_range-nonempty s e = elim (Bool-cases (s == e)) [
  | inl same ↦ rw same (nonempty (show s) (show-ne-nil s))
  | inr apart ↦ rw apart (append_nonempty (show s) (b':') (show e))
]
  where
    nonempty : (t : Text) → t ≢ [] → not (is_empty t) ≡ true
    nonempty [] n = absurd (n refl)
    nonempty (c ∷ t) n = refl

    append_nonempty : (t : Text) (c : ℕ) (u : Text) → not (is_empty (t ++ c ∷ u)) ≡ true
    append_nonempty [] c u = refl
    append_nonempty (d ∷ t) c u = refl
