-- ===== src/Base/Sort.antt =====
-- `sort_unstable` and `dedup` over a total order, which fix their result: the sorted list is unique.
pub mod Laws
pub mod Orders
use mathlib.Core.Path.{◌≡◌, refl, ap}
use mathlib.Core.Logic.{◌↔◌, ◌⊎◌, inl, inr}
use mathlib.Core.Bool.{Bool, true, false, ◌||◌}
use mathlib.Core.List.{List, [], ◌∷◌, ◌++◌}
use native.Mathlib.Omega.{arith}
use imapped_lightmode.Base.Tests.{if◌then◌else◌, Bool-cases}
use imapped_lightmode.Base.Lists.{any, All}

-- `Ord`: a total order with its equality test.
pub record Ord (A : Type 0) : Type 0 where
  pub le : A → A → Bool
  pub eq : A → A → Bool
  pub eq_iff : (a b : A) → (eq a b ≡ true) ↔ (a ≡ b)
  pub le_total : (a b : A) → (le a b ≡ true) ⊎ (le b a ≡ true)
  pub le_trans : (a b c : A) → le a b ≡ true → le b c ≡ true → le a c ≡ true
  pub le_antisym : (a b : A) → le a b ≡ true → le b a ≡ true → a ≡ b

module _ {A : Type 0} (o : Ord A) where
  open o use {le, eq, eq_iff, le_total, le_trans, le_antisym}

  unfoldable pub insert : A → List A → List A
  insert a [] = a ∷ []
  insert a (x ∷ xs) = if le a x then a ∷ x ∷ xs else x ∷ insert a xs

  unfoldable pub sort : List A → List A
  unfolding insert
  sort [] = []
  sort (x ∷ xs) = insert x (sort xs)

  -- `Vec::dedup` removes consecutive repeated elements, and keeps the first of each run.
  unfoldable pub dedup_after : A → List A → List A
  dedup_after a [] = []
  dedup_after a (x ∷ xs) =
      let kept = x ∷ dedup_after x xs in if eq x a then dedup_after a xs else kept

  unfoldable pub dedup : List A → List A
  unfolding dedup_after
  dedup [] = []
  dedup (x ∷ xs) = x ∷ dedup_after x xs

  abbrev pub mem : A → List A → Bool
  mem a = any (λ x. eq x a)
