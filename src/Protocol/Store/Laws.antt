-- ===== src/Protocol/Store/Laws.antt =====
-- The literal markers that `parse_literal_marker` of crates/protocol/src/lib.rs reads.
use imapped_lightmode.Base.{
  ℕ, suc, ◌-◌, ◌≤◌, ◌≡◌, refl, ap, ◌∙◌, Bool, true, false, some, [], ◌∷◌, ◌++◌, arith,
  if◌then◌else◌, length, length-append, take, take_append, All, All-append, append-nil, ◌==◌,
}
use imapped_lightmode.Text.{
  Text, is_whitespace, printable_not_whitespace, ends_with_char, starts_with_char,
}
use imapped_lightmode.Text.Trim.{trim_self}
use imapped_lightmode.Text.Decimal.{
  u64_max, show, show-IsDigit, IsDigit, is_digit, parse_usize, parse_unsigned, parse_unsigned-show,
}
use imapped_lightmode.Protocol.Store.{parse_literal_marker, marker_length, read_marker}

abbrev Solid : Text → Type 0
Solid s = All (λ c. is_whitespace c ≡ false) s

digits-Solid : (s : Text) → All IsDigit s → Solid s
unfolding is_digit
digits-Solid [] h = h
digits-Solid (c ∷ s) h =
    (printable_not_whitespace c (ground arith) (ground arith), digits-Solid s h.1)

ends_with_char-snoc : (c d : ℕ) (s : Text) → ends_with_char c (s ++ d ∷ []) ≡ (d == c)
unfolding ends_with_char
ends_with_char-snoc c d [] = refl
ends_with_char-snoc c d (a ∷ []) = refl
ends_with_char-snoc c d (a ∷ b ∷ s) = ends_with_char-snoc c d (b ∷ s)

digits_no_plus : (s : Text) → All IsDigit s → ends_with_char b'+' s ≡ false
unfolding ends_with_char is_digit
digits_no_plus [] h = refl
digits_no_plus (c ∷ []) h = ground arith
digits_no_plus (c ∷ d ∷ s) h = digits_no_plus (d ∷ s) h.1

marker_char-Solid :
    (is_whitespace b'{' ≡ false) × (is_whitespace b'}' ≡ false) × (is_whitespace b'+' ≡ false)
unfolding is_whitespace
marker_char-Solid = (refl, refl, refl)

-- Between its braces a marker holds a length.
parse_literal_marker-braces :
    (t : Text)
    → Solid t
    → parse_literal_marker (b'{' ∷ (t ++ b'}' ∷ [])) ≡ marker_length t (ends_with_char b'+' t)
unfolding parse_literal_marker starts_with_char
parse_literal_marker-braces t h =
    let inside : take (suc (length (t ++ b'}' ∷ [])) - 2) (t ++ b'}' ∷ []) ≡ t =
      take_append (suc (length (t ++ b'}' ∷ [])) - 2) t (b'}' ∷ [])
        (omega (arith, length-append t (b'}' ∷ []))) in
    ap read_marker (
      trim_self (b'{' ∷ (t ++ b'}' ∷ [])) (
        marker_char-Solid.0,
        All-append (λ c. is_whitespace c ≡ false) t (b'}' ∷ []) h (marker_char-Solid.1, tt),
      ))
    ∙ rw (ends_with_char-snoc b'}' b'}' (b'{' ∷ t), inside, read_marker) refl

marker_length-true :
    (n : ℕ) (t : Text)
    → parse_unsigned u64_max (take (length t - 1) t) ≡ some n
    → marker_length t true ≡ some (n, true)
unfolding marker_length parse_usize
marker_length-true n t h = rw (h, marker_length) refl

-- The marker of a literal of `n` bytes, with `+` for one that needs no continuation, is read as `n`
-- and whether it has the `+`.
pub parse_literal_marker-show :
    (n : ℕ) (non_sync : Bool)
    → n ≤ u64_max
    → parse_literal_marker (b'{' ∷ ((show n ++ (if non_sync then b'+' ∷ [] else [])) ++ b'}' ∷ []))
      ≡ some (n, non_sync)
unfolding marker_length parse_usize
parse_literal_marker-show n true h =
    let digits = show-IsDigit n in
    let inside : take (length (show n ++ b'+' ∷ []) - 1) (show n ++ b'+' ∷ []) ≡ show n =
      take_append (length (show n ++ b'+' ∷ []) - 1) (show n) (b'+' ∷ [])
        (omega (arith, length-append (show n) (b'+' ∷ []))) in
    parse_literal_marker-braces (show n ++ b'+' ∷ []) (
      All-append (λ c. is_whitespace c ≡ false) (show n) (b'+' ∷ []) (digits-Solid (show n) digits)
        (marker_char-Solid.2, tt))
    ∙ ap (marker_length (show n ++ b'+' ∷ [])) (ends_with_char-snoc b'+' b'+' (show n))
    ∙ marker_length-true n (show n ++ b'+' ∷ [])
        (ap (parse_unsigned u64_max) inside ∙ parse_unsigned-show u64_max n h)
parse_literal_marker-show n false h =
    let digits = show-IsDigit n in
    ap (λ t. parse_literal_marker (b'{' ∷ (t ++ b'}' ∷ []))) (append-nil (show n))
    ∙ parse_literal_marker-braces (show n) (digits-Solid (show n) digits)
    ∙ ap (marker_length (show n)) (digits_no_plus (show n) digits)
    ∙ rw (parse_unsigned-show u64_max n h, marker_length) refl
