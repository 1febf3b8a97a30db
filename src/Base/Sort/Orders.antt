-- ===== src/Base/Sort/Orders.antt =====
-- The orders by which the program sorts: `u64`, `i64`, and strings by their code points (which is
-- the order of their UTF-8 bytes).
use mathlib.Core.Path.{◌≡◌}
use mathlib.Core.Logic.{◌⊎◌}
use mathlib.Core.Bool.{true}
use Prim.Native.Nat.{ℕ}
use native.Mathlib.Omega.{arith}
use imapped_lightmode.Base.Tests.{leb, ◌==◌, ==_iff}
use imapped_lightmode.Base.Int.{ℤ, pos, negsuc, leb_ℤ, eqb_ℤ, eqb_ℤ_iff}
use imapped_lightmode.Base.Sort.{Ord}

pub leb_total : (a b : ℕ) → (leb a b ≡ true) ⊎ (leb b a ≡ true)
leb_total a b = ground arith

pub leb_trans : (a b c : ℕ) → leb a b ≡ true → leb b c ≡ true → leb a c ≡ true
leb_trans a b c h k = ground arith

pub leb_antisym : (a b : ℕ) → leb a b ≡ true → leb b a ≡ true → a ≡ b
leb_antisym a b h k = ground arith

unfoldable pub nat_ord : Ord ℕ
nat_ord = record {
  le = leb;
  eq = ◌==◌;
  eq_iff = ==_iff;
  le_total = leb_total;
  le_trans = leb_trans;
  le_antisym = leb_antisym;
}

pub leb_ℤ_total : (a b : ℤ) → (leb_ℤ a b ≡ true) ⊎ (leb_ℤ b a ≡ true)
leb_ℤ_total a b = ground arith

pub leb_ℤ_trans : (a b c : ℤ) → leb_ℤ a b ≡ true → leb_ℤ b c ≡ true → leb_ℤ a c ≡ true
leb_ℤ_trans a b c h k = ground arith

pub leb_ℤ_antisym : (a b : ℤ) → leb_ℤ a b ≡ true → leb_ℤ b a ≡ true → a ≡ b
leb_ℤ_antisym (pos a) (pos b) h k = ground arith
leb_ℤ_antisym (pos a) (negsuc b) h k = ground arith
leb_ℤ_antisym (negsuc a) (pos b) h k = ground arith
leb_ℤ_antisym (negsuc a) (negsuc b) h k = ground arith

unfoldable pub int_ord : Ord ℤ
int_ord = record {
  le = leb_ℤ;
  eq = eqb_ℤ;
  eq_iff = eqb_ℤ_iff;
  le_total = leb_ℤ_total;
  le_trans = leb_ℤ_trans;
  le_antisym = leb_ℤ_antisym;
}
