-- ===== src/Text/Trim.antt =====
-- `trim`, `trim_end_matches`, `strip_prefix` and `strip_suffix`.
use imapped_lightmode.Base.{
  ℕ, ◌≡◌, refl, Bool, true, false, ◌&&◌, Option, none, some, [], ◌∷◌, ◌++◌, ap, arith, ◌==◌,
  if◌then◌else◌, is_empty, All,
}
use mathlib.Core.Option
use imapped_lightmode.Text.{Text, eq, is_whitespace}

unfoldable pub trim_start_where : (ℕ → Bool) → Text → Text
trim_start_where p [] = []
trim_start_where p (c ∷ s) = if p c then trim_start_where p s else c ∷ s

unfoldable pub trim_end_where : (ℕ → Bool) → Text → Text
trim_end_where p [] = []
trim_end_where p (c ∷ s) =
    let rest = trim_end_where p s in if is_empty rest && p c then [] else c ∷ rest

unfoldable pub trim_start : Text → Text
unfolding trim_start_where
trim_start s = trim_start_where is_whitespace s

unfoldable pub trim_end : Text → Text
unfolding trim_end_where
trim_end s = trim_end_where is_whitespace s

unfoldable pub trim : Text → Text
unfolding trim_start trim_end
trim s = trim_end (trim_start s)

unfoldable pub strip_prefix : Text → Text → Option Text
strip_prefix [] s = some s
strip_prefix (p ∷ ps) [] = none
strip_prefix (p ∷ ps) (c ∷ s) = if p == c then strip_prefix ps s else none

-- `s.strip_suffix(suffix)`: what stands before the suffix.
unfoldable pub strip_suffix : Text → Text → Option Text
unfolding eq
strip_suffix suffix [] = if is_empty suffix then some [] else none
strip_suffix suffix (c ∷ s) =
    if eq suffix (c ∷ s) then some [] else Option.map (λ t. c ∷ t) (strip_suffix suffix s)

pub strip_prefix-append : (p s : Text) → strip_prefix p (p ++ s) ≡ some s
unfolding strip_prefix
strip_prefix-append [] s = refl
strip_prefix-append (c ∷ p) s = ground (arith, strip_prefix-append p s)

module _ (p : ℕ → Bool) where
  trim_end_where-ne-nil :
      (c : ℕ) (s : Text) → p c ≡ false → is_empty (trim_end_where p (c ∷ s)) ≡ false
  unfolding trim_end_where
  trim_end_where-ne-nil c s h = ground arith

  -- A text that keeps its end still does behind another text.
  pub trim_end_where-append :
      (s : Text) (c : ℕ) (t : Text)
      → trim_end_where p (c ∷ t) ≡ c ∷ t
      → trim_end_where p (s ++ c ∷ t) ≡ s ++ c ∷ t
  unfolding trim_end_where
  trim_end_where-append [] c t h = h
  trim_end_where-append (d ∷ s) c t h =
      go (s ++ c ∷ t) (append-ne-nil s) (trim_end_where-append s c t h)
    where
      append-ne-nil : (r : Text) → is_empty (r ++ c ∷ t) ≡ false
      append-ne-nil [] = refl
      append-ne-nil (a ∷ r) = refl

      go :
          (r : Text)
          → is_empty r ≡ false
          → trim_end_where p r ≡ r
          → trim_end_where p (d ∷ r) ≡ d ∷ r
      go [] n e = cc
      go (a ∷ r) n e = rw (e, trim_end_where)

  -- What is trimmed away does not matter.
  pub trim_end_where-All :
      (s t : Text) → All (λ c. p c ≡ true) t → trim_end_where p (s ++ t) ≡ trim_end_where p s
  unfolding trim_end_where
  trim_end_where-All [] [] h = refl
  trim_end_where-All [] (c ∷ t) h = ground (arith, trim_end_where-All [] t h.1)
  trim_end_where-All (d ∷ s) t h =
      ap (λ r. if is_empty r && p d then [] else d ∷ r) (trim_end_where-All s t h)

  pub trim_end_where_self : (s : Text) → All (λ c. p c ≡ false) s → trim_end_where p s ≡ s
  unfolding trim_end_where
  trim_end_where_self [] h = refl
  trim_end_where_self (c ∷ s) h = ground (arith, trim_end_where_self s h.1)

-- A text without whitespace is left as it is.
pub trim_self : (s : Text) → All (λ c. is_whitespace c ≡ false) s → trim s ≡ s
unfolding trim trim_start trim_end trim_start_where
trim_self [] h = trim_end_where_self is_whitespace [] h
trim_self (c ∷ s) h = rw h.0 (trim_end_where_self is_whitespace (c ∷ s) h)
