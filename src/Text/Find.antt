-- ===== src/Text/Find.antt =====
-- `find` and `contains` for a text, and `rfind` for a character.
use mathlib.Core.Option
use imapped_lightmode.Base.{
  ℕ, Bool, true, false, ◌||◌, Option, none, some, [], ◌∷◌, ◌==◌, if◌then◌else◌, ◌++◌, ◌≡◌, refl,
  length, drop, inl, inr, Option-cases, arith,
}
use imapped_lightmode.Text.{Text}

unfoldable pub starts_with : Text → Text → Bool
starts_with [] s = true
starts_with (p ∷ ps) [] = false
starts_with (p ∷ ps) (c ∷ s) = if p == c then starts_with ps s else false

-- `s.find(needle)` as the two parts of `s` at the index: what stands before the first occurrence,
-- and the rest, which begins with it.
unfoldable pub find : Text → Text → Option (Text × Text)
unfolding starts_with
find needle [] = if starts_with needle [] then some ([], []) else none
find needle (c ∷ s) =
    if starts_with needle (c ∷ s)
    then some ([], c ∷ s)
    else Option.map (λ (r : Text × Text). (c ∷ r.0, r.1)) (find needle s)

-- `s.contains(needle)`: `needle` stands at some position.
unfoldable pub contains : Text → Text → Bool
unfolding starts_with
contains needle [] = starts_with needle []
contains needle (c ∷ s) = starts_with needle (c ∷ s) || contains needle s

-- `s.rfind(ch)` as what stands before the last `ch`, and what stands behind it.
unfoldable pub rfind : ℕ → Text → Option (Text × Text)
rfind ch [] = none
rfind ch (c ∷ s) = elim (rfind ch s) [
  | some (before, after) ↦ some (c ∷ before, after)
  | none ↦ if c == ch then some ([], s) else none
]

pub starts_with→≡ :
    (needle s : Text) → starts_with needle s ≡ true → s ≡ needle ++ drop (length needle) s
unfolding starts_with
starts_with→≡ [] s h = refl
starts_with→≡ (p ∷ ps) [] h = cc
starts_with→≡ (p ∷ ps) (c ∷ s) h = ground (arith, starts_with→≡ ps s)

pub starts_with-append : (needle s : Text) → starts_with needle (needle ++ s) ≡ true
unfolding starts_with
starts_with-append [] s = refl
starts_with-append (p ∷ ps) s = ground (arith, starts_with-append ps s)

-- A text is what stands before an occurrence, the occurrence, and the rest.
pub find_sound :
    (needle s before rest : Text)
    → find needle s ≡ some (before, rest)
    → s ≡ before ++ (needle ++ drop (length needle) rest)
unfolding find
find_sound needle [] before rest h = ground (arith, starts_with→≡ needle [])
find_sound needle (c ∷ s) before rest h = elim (Option-cases (find needle s)) [
  | inl e ↦ ground (arith, e, starts_with→≡ needle (c ∷ s))
  | inr (r, e) ↦ ground (arith, e, starts_with→≡ needle (c ∷ s), find_sound needle s r.0 r.1 e)
]

pub find-none : (needle s : Text) → find needle s ≡ none → contains needle s ≡ false
unfolding find contains
find-none needle [] h = ground arith
find-none needle (c ∷ s) h = ground (arith, find-none needle s, Option-cases (find needle s))

pub find-some :
    (needle s : Text) (r : Text × Text) → find needle s ≡ some r → contains needle s ≡ true
unfolding find contains
find-some needle [] r h = ground arith
find-some needle (c ∷ s) r h = elim (Option-cases (find needle s)) [
  | inl e ↦ ground (arith, e)
  | inr (q, e) ↦ ground (arith, e, find-some needle s q e)
]
