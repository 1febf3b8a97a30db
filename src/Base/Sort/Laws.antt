-- ===== src/Base/Sort/Laws.antt =====
-- What sorting and deduplicating do to order and membership.
use mathlib.Core.Path.{◌≡◌, refl, ap, ◌∙◌}
use mathlib.Core.Logic.{inl, inr}
use mathlib.Core.Bool.{Bool, true, false, ◌||◌}
use mathlib.Core.List.{List, [], ◌∷◌}
use native.Mathlib.Omega.{arith}
use imapped_lightmode.Base.Tests.{Bool-cases}
use imapped_lightmode.Base.Lists.{All, retain}
use imapped_lightmode.Base.Sort.{Ord, insert, sort, dedup_after, dedup, mem}

module _ {A : Type 0} (o : Ord A) where
  open o use {le, eq, eq_iff, le_total, le_trans, le_antisym}

  abbrev pub AllGe : A → List A → Type 0
  AllGe a = All (λ b. le a b ≡ true)

  abbrev pub IsSorted : List A → Type 0
  IsSorted [] = Unit
  IsSorted (x ∷ xs) = AllGe x xs × IsSorted xs

  abbrev pub AllGt : A → List A → Type 0
  AllGt a = All (λ b. le b a ≡ false)

  -- Strictly increasing.
  abbrev pub IsStrict : List A → Type 0
  IsStrict [] = Unit
  IsStrict (x ∷ xs) = AllGt x xs × IsStrict xs

  AllGe-mono : (a b : A) (xs : List A) → le a b ≡ true → AllGe b xs → AllGe a xs
  AllGe-mono a b [] h g = tt
  AllGe-mono a b (x ∷ xs) h g = (le_trans a b x h g.0, AllGe-mono a b xs h g.1)

  le_of_not : (a b : A) → le a b ≡ false → le b a ≡ true
  le_of_not a b h = ground (arith, le_total a b)

  insert-AllGe : (a b : A) (xs : List A) → le a b ≡ true → AllGe a xs → AllGe a (insert o b xs)
  unfolding insert
  insert-AllGe a b [] h g = (h, tt)
  insert-AllGe a b (x ∷ xs) h g = ground (arith, insert-AllGe a b xs h g.1)

  insert-IsSorted : (a : A) (xs : List A) → IsSorted xs → IsSorted (insert o a xs)
  unfolding insert
  insert-IsSorted a [] s = (tt, tt)
  insert-IsSorted a (x ∷ xs) s = elim (Bool-cases (le a x)) [
    | inl h ↦ rw h ((h, AllGe-mono a x xs h s.0), s)
    | inr h ↦ rw h (insert-AllGe x a xs (le_of_not a x h) s.0, insert-IsSorted a xs s.1)
  ]

  -- Sorting yields a list in order.
  pub sort-IsSorted : (xs : List A) → IsSorted (sort o xs)
  unfolding sort
  sort-IsSorted [] = tt
  sort-IsSorted (x ∷ xs) = insert-IsSorted x (sort o xs) (sort-IsSorted xs)

  mem-insert : (v a : A) (xs : List A) → mem o v (insert o a xs) ≡ (eq a v || mem o v xs)
  unfolding insert
  mem-insert v a [] = refl
  mem-insert v a (x ∷ xs) = ground (arith, mem-insert v a xs)

  -- Sorting keeps the members.
  pub mem-sort : (v : A) (xs : List A) → mem o v (sort o xs) ≡ mem o v xs
  unfolding sort
  mem-sort v [] = refl
  mem-sort v (x ∷ xs) = ground (arith, mem-insert v x (sort o xs), mem-sort v xs)

  mem-dedup_after :
      (v a : A) (xs : List A) → (eq a v || mem o v (dedup_after o a xs)) ≡ (eq a v || mem o v xs)
  unfolding dedup_after
  mem-dedup_after v a [] = refl
  mem-dedup_after v a (x ∷ xs) = elim (Bool-cases (eq x a)) [
    | inl h ↦ rw h (mem-dedup_after v a xs ∙ rw ((eq_iff x a).0 h) (ground arith))
    | inr h ↦ rw h (ground (arith, mem-dedup_after v x xs))
  ]

  -- So does deduplicating.
  pub mem-dedup : (v : A) (xs : List A) → mem o v (dedup o xs) ≡ mem o v xs
  unfolding dedup
  mem-dedup v [] = refl
  mem-dedup v (x ∷ xs) = mem-dedup_after v x xs

  le_of_not_trans : (a b c : A) → le a b ≡ true → le c b ≡ false → le c a ≡ false
  le_of_not_trans a b c h n = ground (arith, le_trans c a b)

  AllGt-mono : (a b : A) (xs : List A) → le a b ≡ true → AllGt b xs → AllGt a xs
  AllGt-mono a b [] h g = tt
  AllGt-mono a b (x ∷ xs) h g = (le_of_not_trans a b x h g.0, AllGt-mono a b xs h g.1)

  not_le_of_ne : (a b : A) → le a b ≡ true → eq b a ≡ false → le b a ≡ false
  not_le_of_ne a b h n = ground (arith, le_antisym b a, eq_iff b a)

  eq_false_of_not_le : (a b : A) → le b a ≡ false → eq b a ≡ false
  eq_false_of_not_le a b n = elim (Bool-cases (eq b a)) [
    | inl e ↦ let p : b ≡ a = (eq_iff b a).0 e in ground (arith, le_total a a, rw p at n)
    | inr e ↦ e
  ]

  dedup_after-IsStrict :
      (a : A) (xs : List A)
      → AllGe a xs
      → IsSorted xs
      → AllGt a (dedup_after o a xs) × IsStrict (dedup_after o a xs)
  unfolding dedup_after
  dedup_after-IsStrict a [] g s = (tt, tt)
  dedup_after-IsStrict a (x ∷ xs) g s = elim (Bool-cases (eq x a)) [
    | inl h ↦ rw h (dedup_after-IsStrict a xs g.1 s.1)
    | inr h ↦ rw h (
        let rest = dedup_after-IsStrict x xs s.0 s.1 in
        ((not_le_of_ne a x g.0 h, AllGt-mono a x (dedup_after o x xs) g.0 rest.0), rest))
  ]

  -- A sorted list without repetitions increases strictly.
  pub dedup-sort-IsStrict : (xs : List A) → IsStrict (dedup o (sort o xs))
  dedup-sort-IsStrict xs = go (sort o xs) (sort-IsSorted xs)
    where
      go : (ys : List A) → IsSorted ys → IsStrict (dedup o ys)
      go [] s = unfold dedup in tt
      go (y ∷ ys) s = unfold dedup in dedup_after-IsStrict y ys s.0 s.1

  retain-AllGt : (p : A → Bool) (a : A) (xs : List A) → AllGt a xs → AllGt a (retain p xs)
  retain-AllGt p a [] g = tt
  retain-AllGt p a (x ∷ xs) g = ground (arith, retain-AllGt p a xs g.1)

  pub retain-IsStrict : (p : A → Bool) (xs : List A) → IsStrict xs → IsStrict (retain p xs)
  retain-IsStrict p [] s = tt
  retain-IsStrict p (x ∷ xs) s = elim (Bool-cases (p x)) [
    | inl h ↦ rw h (retain-AllGt p x xs s.0, retain-IsStrict p xs s.1)
    | inr h ↦ rw h (retain-IsStrict p xs s.1)
  ]

  insert_front : (a : A) (xs : List A) → AllGt a xs → insert o a xs ≡ a ∷ xs
  unfolding insert
  insert_front a [] g = refl
  insert_front a (x ∷ xs) g = ground (arith, le_total a x, g.0)

  -- A strictly increasing list is sorted already, and has no repetitions.
  pub sort-IsStrict_self : (xs : List A) → IsStrict xs → sort o xs ≡ xs
  unfolding sort
  sort-IsStrict_self [] s = refl
  sort-IsStrict_self (x ∷ xs) s = rw (sort-IsStrict_self xs s.1) (insert_front x xs s.0)

  dedup_after-IsStrict_self :
      (a : A) (xs : List A) → AllGt a xs → IsStrict xs → dedup_after o a xs ≡ xs
  unfolding dedup_after
  dedup_after-IsStrict_self a [] g s = refl
  dedup_after-IsStrict_self a (x ∷ xs) g s =
      rw (eq_false_of_not_le a x g.0) (ap (λ r. x ∷ r) (dedup_after-IsStrict_self x xs s.0 s.1))

  pub dedup-IsStrict_self : (xs : List A) → IsStrict xs → dedup o xs ≡ xs
  unfolding dedup
  dedup-IsStrict_self [] s = refl
  dedup-IsStrict_self (x ∷ xs) s = ap (λ r. x ∷ r) (dedup_after-IsStrict_self x xs s.0 s.1)

  module _ (P : A → Type 0) where
    All-insert : (a : A) (xs : List A) → P a → All P xs → All P (insert o a xs)
    unfolding insert
    All-insert a [] h g = (h, tt)
    All-insert a (x ∷ xs) h g = ground (arith, All-insert a xs h g.1)

    pub All-sort : (xs : List A) → All P xs → All P (sort o xs)
    unfolding sort
    All-sort [] g = tt
    All-sort (x ∷ xs) g = All-insert x (sort o xs) g.0 (All-sort xs g.1)

    All-dedup_after : (a : A) (xs : List A) → All P xs → All P (dedup_after o a xs)
    unfolding dedup_after
    All-dedup_after a [] g = tt
    All-dedup_after a (x ∷ xs) g = elim (Bool-cases (eq x a)) [
      | inl h ↦ rw h (All-dedup_after a xs g.1)
      | inr h ↦ rw h (g.0, All-dedup_after x xs g.1)
    ]

    pub All-dedup : (xs : List A) → All P xs → All P (dedup o xs)
    unfolding dedup
    All-dedup [] g = tt
    All-dedup (x ∷ xs) g = (g.0, All-dedup_after x xs g.1)
