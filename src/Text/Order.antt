-- ===== src/Text/Order.antt =====
-- The order of `str`: UTF-8 keeps the order of the code points.
use imapped_lightmode.Base.{
  ◌≡◌, refl, ◌⊎◌, inl, inr, Bool, true, false, ◌&&◌, ◌||◌, [], ◌∷◌, ◌==◌, ltb, arith,
}
use imapped_lightmode.Base.Sort.{Ord}
use imapped_lightmode.Text.{Text, eq, eq_iff}

unfoldable pub leb_text : Text → Text → Bool
leb_text [] t = true
leb_text (c ∷ s) [] = false
leb_text (c ∷ s) (d ∷ t) = ltb c d || c == d && leb_text s t

pub leb_text_total : (s t : Text) → (leb_text s t ≡ true) ⊎ (leb_text t s ≡ true)
unfolding leb_text
leb_text_total [] t = inl refl
leb_text_total (c ∷ s) [] = inr refl
leb_text_total (c ∷ s) (d ∷ t) = elim (leb_text_total s t) [
  | inl h ↦ ground (arith, h)
  | inr h ↦ ground (arith, h)
]

pub leb_text_trans :
    (s t u : Text) → leb_text s t ≡ true → leb_text t u ≡ true → leb_text s u ≡ true
unfolding leb_text
leb_text_trans [] t u h k = refl
leb_text_trans (c ∷ s) [] u h k = ground arith
leb_text_trans (c ∷ s) (d ∷ t) [] h k = ground arith
leb_text_trans (c ∷ s) (d ∷ t) (e ∷ u) h k = ground (arith, leb_text_trans s t u)

pub leb_text_antisym : (s t : Text) → leb_text s t ≡ true → leb_text t s ≡ true → s ≡ t
unfolding leb_text
leb_text_antisym [] [] h k = refl
leb_text_antisym [] (d ∷ t) h k = ground arith
leb_text_antisym (c ∷ s) [] h k = ground arith
leb_text_antisym (c ∷ s) (d ∷ t) h k = ground (arith, leb_text_antisym s t)

unfoldable pub text_ord : Ord Text
unfolding leb_text eq
text_ord = record {
  le = leb_text;
  eq = eq;
  eq_iff = eq_iff;
  le_total = leb_text_total;
  le_trans = leb_text_trans;
  le_antisym = leb_text_antisym;
}
