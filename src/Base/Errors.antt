-- ===== src/Base/Errors.antt =====
-- crates/core/src/error.rs: the errors that the modelled code raises, each with its message, and
-- `Result` with the `?` operator as `>>=`.
use Prim.Native.Nat.{ℕ}
use mathlib.Core.List.{List}
use mathlib.Core.Option.{Option, none, some}

-- The variants that wrap another library's error (`Io`, `Sqlx`, …) are one constructor.
pub data Error : Type 0 where
  config : List ℕ → Error
  authentication_failed : Error
  imap_command : List ℕ → Error
  parse_error : List ℕ → Error
  storage : List ℕ → Error
  external : List ℕ → Error

-- `std::result::Result` with this error.
pub data Result {ℓ} (A : Type ℓ) : Type ℓ where
  err : Error → Result A
  ok : A → Result A

-- `?`, and `Option::ok_or`.
module _ {ℓ} {A : Type ℓ} where
  infixl 5 ◌>>=◌
  abbrev pub ◌>>=◌ {κ} : {B : Type κ} → Result A → (A → Result B) → Result B
  err problem >>= next = err problem
  ok value >>= next = next value

  abbrev pub ok_or : Option A → Error → Result A
  ok_or (some value) problem = ok value
  ok_or none problem = err problem
