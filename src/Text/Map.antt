-- ===== src/Text/Map.antt =====
-- `HashMap` with texts as keys, as an association list in which the first entry of a key counts.
use imapped_lightmode.Base.{
  ◌≡◌, Option, none, some, List, [], ◌∷◌, arith, if◌then◌else◌, Bool-cases, inl, inr,
}
use imapped_lightmode.Text.{Text, eq, eq→≡}

abbrev pub Map : Type 0 → Type 0
Map V = List (Text × V)

module _ {V : Type 0} where
  unfoldable pub lookup : Text → Map V → Option V
  lookup key [] = none
  lookup key ((k, v) ∷ map) = if eq k key then some v else lookup key map

  unfoldable pub remove : Text → Map V → Map V
  remove key [] = []
  remove key ((k, v) ∷ map) = if eq k key then remove key map else (k, v) ∷ remove key map

  unfoldable pub insert : Text → V → Map V → Map V
  unfolding remove
  insert key value map = (key, value) ∷ remove key map

  pub lookup-remove :
      (j key : Text) (map : Map V)
      → lookup j (remove key map) ≡ (if eq key j then none else lookup j map)
  unfolding lookup remove
  lookup-remove j key [] = ground arith
  lookup-remove j key ((k, v) ∷ map) = elim (Bool-cases (eq k key)) [
    | inl e ↦ rw (e, remove) (ground (arith, lookup-remove j key map, eq→≡ k key))
    | inr e ↦ elim (Bool-cases (eq k j)) [
      | inl f ↦ elim (Bool-cases (eq key j)) [ inl g ↦ cc (eq→≡ key j g) | inr g ↦ ground arith ]
      | inr f ↦ ground (arith, lookup-remove j key map)
    ]
  ]

  pub lookup-insert :
      (j key : Text) (value : V) (map : Map V)
      → lookup j (insert key value map) ≡ (if eq key j then some value else lookup j map)
  unfolding lookup insert
  lookup-insert j key value map = ground (arith, lookup-remove j key map)
