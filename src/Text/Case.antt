-- ===== src/Text/Case.antt =====
-- `to_ascii_uppercase`, `to_ascii_lowercase` and `eq_ignore_ascii_case`.
use imapped_lightmode.Base.{
  ℕ, ◌+◌, ◌-◌, ◌≡◌, refl, sym, ◌∙◌, Bool, true, ◌&&◌, [], ◌∷◌, map, arith, leb, if◌then◌else◌,
  bool_ext,
}
use imapped_lightmode.Text.{Text, eq, eq_refl, eq→≡}

unfoldable pub upper_char : ℕ → ℕ
upper_char c = if leb b'a' c && leb c b'z' then c - 32 else c

unfoldable pub lower_char : ℕ → ℕ
lower_char c = if leb b'A' c && leb c b'Z' then c + 32 else c

unfoldable pub to_ascii_uppercase : Text → Text
unfolding upper_char
to_ascii_uppercase s = map upper_char s

unfoldable pub to_ascii_lowercase : Text → Text
unfolding lower_char
to_ascii_lowercase s = map lower_char s

unfoldable pub eq_ignore_ascii_case : Text → Text → Bool
unfolding to_ascii_lowercase eq
eq_ignore_ascii_case s t = eq (to_ascii_lowercase s) (to_ascii_lowercase t)

pub eq_ignore_ascii_case_refl : (s : Text) → eq_ignore_ascii_case s s ≡ true
unfolding eq_ignore_ascii_case
eq_ignore_ascii_case_refl s = eq_refl (to_ascii_lowercase s)

-- The test holds exactly of texts with one lower-case form.
pub eq_ignore_ascii_case→≡ :
    (s t : Text) → eq_ignore_ascii_case s t ≡ true → to_ascii_lowercase s ≡ to_ascii_lowercase t
eq_ignore_ascii_case→≡ s t h = eq→≡ (to_ascii_lowercase s) (to_ascii_lowercase t) (go h)
  where
    go : eq_ignore_ascii_case s t ≡ true → eq (to_ascii_lowercase s) (to_ascii_lowercase t) ≡ true
    go e = unfold eq_ignore_ascii_case in e

pub ≡→eq_ignore_ascii_case :
    (s t : Text) → to_ascii_lowercase s ≡ to_ascii_lowercase t → eq_ignore_ascii_case s t ≡ true
≡→eq_ignore_ascii_case s t e = unfold eq_ignore_ascii_case in rw e (eq_refl (to_ascii_lowercase t))

pub eq_ignore_ascii_case_comm : (s t : Text) → eq_ignore_ascii_case s t ≡ eq_ignore_ascii_case t s
eq_ignore_ascii_case_comm s t =
    bool_ext (eq_ignore_ascii_case s t) (eq_ignore_ascii_case t s)
      (λ h. ≡→eq_ignore_ascii_case t s (sym (eq_ignore_ascii_case→≡ s t h)))
      (λ h. ≡→eq_ignore_ascii_case s t (sym (eq_ignore_ascii_case→≡ t s h)))

-- Texts that are equal up to case are equal up to case to the same texts.
pub eq_ignore_ascii_case_trans :
    (s t u : Text)
    → eq_ignore_ascii_case s t ≡ true
    → eq_ignore_ascii_case t u ≡ true
    → eq_ignore_ascii_case s u ≡ true
eq_ignore_ascii_case_trans s t u h k =
    ≡→eq_ignore_ascii_case s u (eq_ignore_ascii_case→≡ s t h ∙ eq_ignore_ascii_case→≡ t u k)

lower_char_idem : (c : ℕ) → lower_char (lower_char c) ≡ lower_char c
unfolding lower_char
lower_char_idem c = ground arith

lower-upper_char : (c : ℕ) → lower_char (upper_char c) ≡ lower_char c
unfolding lower_char upper_char
lower-upper_char c = ground arith

pub to_ascii_lowercase_idem :
    (s : Text) → to_ascii_lowercase (to_ascii_lowercase s) ≡ to_ascii_lowercase s
unfolding to_ascii_lowercase
to_ascii_lowercase_idem [] = refl
to_ascii_lowercase_idem (c ∷ s) = cc (lower_char_idem c, to_ascii_lowercase_idem s)

pub lower-upper : (s : Text) → to_ascii_lowercase (to_ascii_uppercase s) ≡ to_ascii_lowercase s
unfolding to_ascii_lowercase to_ascii_uppercase
lower-upper [] = refl
lower-upper (c ∷ s) = cc (lower-upper_char c, lower-upper s)
