-- ===== src/Text/Split.antt =====
-- `split`, `split_once`, `split_whitespace` and `replace`.
use mathlib.Core.Option
use imapped_lightmode.Base.{
  ℕ, ◌≡◌, refl, ap, ◌∙◌, Bool, true, false, not, Option, none, some, List, [], ◌∷◌, ◌++◌, arith,
  ◌==◌, if◌then◌else◌, is_empty, retain, All,
}
use imapped_lightmode.Text.{Text, is_whitespace, join}

-- `s` put before the first piece.
unfoldable pub push_first : ℕ → List Text → List Text
push_first c [] = (c ∷ []) ∷ []
push_first c (p ∷ ps) = (c ∷ p) ∷ ps

unfoldable pub split_where : (ℕ → Bool) → Text → List Text
unfolding push_first
split_where p [] = [] ∷ []
split_where p (c ∷ s) = if p c then [] ∷ split_where p s else push_first c (split_where p s)

unfoldable pub split : ℕ → Text → List Text
unfolding split_where
split sep s = split_where (λ c. c == sep) s

unfoldable pub split_whitespace : Text → List Text
unfolding split_where
split_whitespace s = retain (λ p. not (is_empty p)) (split_where is_whitespace s)

unfoldable pub split_once : ℕ → Text → Option (Text × Text)
split_once sep [] = none
split_once sep (c ∷ s) =
    if c == sep
    then some ([], s)
    else Option.map (λ (r : Text × Text). (c ∷ r.0, r.1)) (split_once sep s)

-- `replace` of one character by a text.
unfoldable pub replace_char : ℕ → Text → Text → Text
replace_char c by [] = []
replace_char c by (d ∷ s) = if d == c then by ++ replace_char c by s else d ∷ replace_char c by s

abbrev pub Lacks : (ℕ → Bool) → Text → Type 0
Lacks p = All (λ c. p c ≡ false)

-- A text without separator is one piece, and what stands before a separator is a piece.
pub split_where-Lacks : (p : ℕ → Bool) (s : Text) → Lacks p s → split_where p s ≡ s ∷ []
unfolding split_where
split_where-Lacks p [] h = refl
split_where-Lacks p (c ∷ s) h = ground (arith, split_where-Lacks p s h.1)

pub split_where-append :
    (p : ℕ → Bool) (s rest : Text) (c : ℕ)
    → Lacks p s
    → p c ≡ true
    → split_where p (s ++ c ∷ rest) ≡ s ∷ split_where p rest
unfolding split_where
split_where-append p [] rest c h e = ground arith
split_where-append p (d ∷ s) rest c h e = ground (arith, split_where-append p s rest c h.1)

pub split_once-append :
    (sep : ℕ) (s rest : Text)
    → Lacks (λ c. c == sep) s
    → split_once sep (s ++ sep ∷ rest) ≡ some (s, rest)
unfolding split_once
split_once-append sep [] rest h = ground arith
split_once-append sep (d ∷ s) rest h = ground (arith, split_once-append sep s rest h.1)

pub split_once-Lacks : (sep : ℕ) (s : Text) → Lacks (λ c. c == sep) s → split_once sep s ≡ none
unfolding split_once
split_once-Lacks sep [] h = refl
split_once-Lacks sep (d ∷ s) h = ground (arith, split_once-Lacks sep s h.1)

-- Splitting a join gives the parts back, if there is a part and none holds the separator.
pub split-join :
    (sep : ℕ) (p : Text) (ps : List Text)
    → All (Lacks (λ c. c == sep)) (p ∷ ps)
    → split sep (join (sep ∷ []) (p ∷ ps)) ≡ p ∷ ps
unfolding split join
split-join sep p [] h = split_where-Lacks (λ c. c == sep) p h.0
split-join sep p (q ∷ ps) h =
    split_where-append (λ c. c == sep) p (join (sep ∷ []) (q ∷ ps)) sep h.0 (ground arith)
    ∙ ap (λ r. p ∷ r) (split-join sep q ps h.1)
