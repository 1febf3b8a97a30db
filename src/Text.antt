-- ===== src/Text.antt =====
-- Rust's `str` and `[u8]`, as lists of code points or bytes, with the methods of the standard
-- library that the program calls. Every slice that the program takes of a `str` is at an ASCII
-- character, so indices into code points stand for its byte indices.
pub mod Case
pub mod Trim
pub mod Split
pub mod Find
pub mod Map
pub mod Order
pub mod Decimal
use Prim.Native.Char.{code}
use Prim.Native.String.{String}
use imapped_lightmode.Base.{
  ℕ, ◌≡◌, refl, ◌↔◌, Bool, true, false, ◌&&◌, ◌||◌, List, [], ◌∷◌, ◌++◌, arith, leb, ◌≤◌, ◌==◌,
  ==_iff,
}

abbrev pub Text : Type 0
Text = List ℕ

abbrev codes : String → Text
codes String.[] = []
codes (String.◌∷◌ c s) = code c ∷ codes s

-- A literal of the source.
unfoldable pub lit : String → Text
lit s = codes s

-- `==` on strings and on byte slices.
unfoldable pub eq : Text → Text → Bool
eq [] [] = true
eq [] (d ∷ t) = false
eq (c ∷ s) [] = false
eq (c ∷ s) (d ∷ t) = c == d && eq s t

-- `char::is_whitespace`: the code points with the property White_Space.
unfoldable pub is_whitespace : ℕ → Bool
is_whitespace c =
    (leb 9 c && leb c 13)
    || c == 0x20
    || c == 0x85
    || c == 0xA0
    || c == 0x1680
    || (leb 0x2000 c && leb c 0x200A)
    || c == 0x2028
    || c == 0x2029
    || c == 0x202F
    || c == 0x205F
    || c == 0x3000

-- `<[String]>::join`.
unfoldable pub join : Text → List Text → Text
join sep [] = []
join sep (p ∷ []) = p
join sep (p ∷ q ∷ ps) = p ++ (sep ++ join sep (q ∷ ps))

-- `starts_with` and `ends_with` for one character.
unfoldable pub starts_with_char : ℕ → Text → Bool
starts_with_char c [] = false
starts_with_char c (d ∷ s) = d == c

unfoldable pub ends_with_char : ℕ → Text → Bool
ends_with_char c [] = false
ends_with_char c (d ∷ []) = d == c
ends_with_char c (d ∷ e ∷ s) = ends_with_char c (e ∷ s)

pub eq_refl : (s : Text) → eq s s ≡ true
unfolding eq
eq_refl [] = refl
eq_refl (c ∷ s) = ground (arith, eq_refl s)

pub eq→≡ : (s t : Text) → eq s t ≡ true → s ≡ t
unfolding eq
eq→≡ [] [] h = refl
eq→≡ [] (d ∷ t) h = cc
eq→≡ (c ∷ s) [] h = cc
eq→≡ (c ∷ s) (d ∷ t) h = ground (arith, eq→≡ s t)

pub eq_iff : (s t : Text) → (eq s t ≡ true) ↔ (s ≡ t)
eq_iff s t = (eq→≡ s t, λ e. subst_eq e)
  where
    subst_eq : s ≡ t → eq s t ≡ true
    subst_eq e = rw e (eq_refl t)

-- Printable ASCII is no whitespace.
pub printable_not_whitespace : (c : ℕ) → 33 ≤ c → c ≤ 126 → is_whitespace c ≡ false
unfolding is_whitespace
printable_not_whitespace c h k = ground arith
