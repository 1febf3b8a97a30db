-- ===== src/Text/Decimal.antt =====
-- Decimal numbers: `to_string`, and `parse` into `u64`, `usize` and `i64`.
use imapped_lightmode.Base.{
  ℕ, zero, suc, ◌+◌, ◌-◌, ◌*◌, ◌/◌, ◌%◌, ◌^◌, ◌≤◌, ◌≡◌, refl, ap, ◌∙◌, Bool, true, ◌&&◌, Option,
  none, some, [], ◌∷◌, ◌++◌, arith, inl, inr, ◌≢◌, leb, ltb, ◌==◌, if◌then◌else◌, Bool-cases, All,
  All-append,
}
use mathlib.Core.List.{concat-ne-nil}
use imapped_lightmode.Base.Int.{ℤ, pos, negsuc}
use imapped_lightmode.Text.{Text}

abbrev pub u64_max : ℕ
u64_max = 2 ^ 64 - 1

abbrev pub i64_max : ℕ
i64_max = 2 ^ 63 - 1

unfoldable pub is_digit : ℕ → Bool
is_digit c = leb b'0' c && leb c b'9'

-- The number that digits spell behind `n`.
unfoldable pub scan_digits : ℕ → Text → Option ℕ
unfolding is_digit
scan_digits n [] = some n
scan_digits n (c ∷ s) = if is_digit c then scan_digits (n * 10 + (c - b'0')) s else none

-- At least one digit, and nothing else.
unfoldable pub parse_digits : Text → Option ℕ
unfolding scan_digits
parse_digits [] = none
parse_digits (c ∷ s) = scan_digits 0 (c ∷ s)

-- The standard library adds up digit by digit and fails once the sum passes the maximum. The sums
-- only grow, so that is the test of the whole number.
unfoldable pub at_most : ℕ → Option ℕ → Option ℕ
at_most bound none = none
at_most bound (some n) = if leb n bound then some n else none

-- One leading `+` is accepted.
unfoldable pub parse_unsigned : ℕ → Text → Option ℕ
unfolding parse_digits at_most
parse_unsigned bound [] = none
parse_unsigned bound (c ∷ s) =
    if c == b'+' then at_most bound (parse_digits s) else at_most bound (parse_digits (c ∷ s))

unfoldable pub parse_u64 : Text → Option ℕ
unfolding parse_unsigned
parse_u64 s = parse_unsigned u64_max s

-- `usize` has 64 bits.
unfoldable pub parse_usize : Text → Option ℕ
unfolding parse_unsigned
parse_usize s = parse_unsigned u64_max s

unfoldable pub negate : Option ℕ → Option ℤ
negate none = none
negate (some zero) = some (pos 0)
negate (some (suc n)) = some (negsuc n)

unfoldable pub nonneg : Option ℕ → Option ℤ
nonneg none = none
nonneg (some n) = some (pos n)

unfoldable pub parse_i64 : Text → Option ℤ
unfolding parse_unsigned negate nonneg at_most parse_digits
parse_i64 [] = none
parse_i64 (c ∷ s) =
    if c == b'-'
    then negate (at_most (2 ^ 63) (parse_digits s))
    else nonneg (parse_unsigned i64_max (c ∷ s))

-- The digits of `n`; `fuel` bounds their number, and the number itself is enough.
show_digits : ℕ → ℕ → Text
show_digits zero n = (b'0' + n) ∷ []
show_digits (suc fuel) n =
    let rest = show_digits fuel (n / 10) ++ (b'0' + n % 10) ∷ [] in
    if ltb n 10 then (b'0' + n) ∷ [] else rest

unfoldable pub show : ℕ → Text
unfolding show_digits
show n = show_digits n n

abbrev pub IsDigit : ℕ → Type 0
IsDigit c = is_digit c ≡ true

show_digits-IsDigit : (fuel n : ℕ) → n ≤ fuel → All IsDigit (show_digits fuel n)
unfolding show_digits is_digit
show_digits-IsDigit zero n h = ground arith
show_digits-IsDigit (suc fuel) n h = elim (Bool-cases (ltb n 10)) [
  | inl few ↦ rw few (ground arith)
  | inr more ↦ rw more (
      All-append IsDigit (show_digits fuel (n / 10)) ((b'0' + n % 10) ∷ [])
        (show_digits-IsDigit fuel (n / 10) (ground arith)) (ground arith))
]

pub show-IsDigit : (n : ℕ) → All IsDigit (show n)
unfolding show
show-IsDigit n = show_digits-IsDigit n n (omega arith)

scan_digits-append :
    (m : ℕ) (s : Text) (c k : ℕ)
    → scan_digits m s ≡ some k
    → is_digit c ≡ true
    → scan_digits m (s ++ c ∷ []) ≡ some (k * 10 + (c - b'0'))
unfolding scan_digits
scan_digits-append m [] c k h d = ground arith
scan_digits-append m (x ∷ s) c k h d =
    ground (arith, scan_digits-append (m * 10 + (x - b'0')) s c k)

scan-show_digits : (fuel n : ℕ) → n ≤ fuel → scan_digits 0 (show_digits fuel n) ≡ some n
unfolding show_digits scan_digits
scan-show_digits zero n h = ground arith
scan-show_digits (suc fuel) n h = elim (Bool-cases (ltb n 10)) [
  | inl few ↦ rw few (ground arith)
  | inr more ↦ rw more (
      scan_digits-append 0 (show_digits fuel (n / 10)) (b'0' + n % 10) (n / 10)
        (scan-show_digits fuel (n / 10) (ground arith)) (ground arith)
      ∙ ap some (omega arith))
]

show_digits-ne-nil : (fuel n : ℕ) → n ≤ fuel → show_digits fuel n ≢ []
unfolding show_digits
show_digits-ne-nil zero n h = λ e. cc
show_digits-ne-nil (suc fuel) n h = elim (Bool-cases (ltb n 10)) [
  | inl few ↦ rw few (λ e. cc)
  | inr more ↦ rw more (concat-ne-nil (b'0' + n % 10) (show_digits fuel (n / 10)))
]

parse_unsigned-digits :
    (bound n : ℕ) (s : Text)
    → s ≢ []
    → All IsDigit s
    → scan_digits 0 s ≡ some n
    → n ≤ bound
    → parse_unsigned bound s ≡ some n
unfolding parse_unsigned
parse_unsigned-digits bound n [] h d e b = absurd (h refl)
parse_unsigned-digits bound n (c ∷ s) h d e b = ground arith

parse_i64-digits :
    (n : ℕ) (s : Text)
    → s ≢ []
    → All IsDigit s
    → parse_unsigned i64_max s ≡ some n
    → parse_i64 s ≡ some (pos n)
unfolding parse_i64 is_digit
parse_i64-digits n [] h d e = absurd (h refl)
parse_i64-digits n (c ∷ s) h d e = ground arith

-- A printed number is parsed to itself, if it fits the type.
pub parse_unsigned-show : (bound n : ℕ) → n ≤ bound → parse_unsigned bound (show n) ≡ some n
unfolding show
parse_unsigned-show bound n h =
    parse_unsigned-digits bound n (show_digits n n) (show_digits-ne-nil n n (omega arith))
      (show_digits-IsDigit n n (omega arith)) (scan-show_digits n n (omega arith)) h

pub parse_i64-show : (n : ℕ) → n ≤ i64_max → parse_i64 (show n) ≡ some (pos n)
parse_i64-show n h =
    parse_i64-digits n (show n) (unfold show in show_digits-ne-nil n n (omega arith))
      (show-IsDigit n) (parse_unsigned-show i64_max n h)

pub show-ne-nil : (n : ℕ) → show n ≢ []
unfolding show
show-ne-nil n = show_digits-ne-nil n n (omega arith)
