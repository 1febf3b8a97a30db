-- ===== src/Coordination/Exclusion.antt =====
-- Mutual exclusion of the guards that the lock manager of crates/coordination/src/lib.rs gives out.
use imapped_lightmode.Base.{
  ℕ, ◌+◌, ◌≤◌, ◌≡◌, refl, ap, ◌∙◌, false, List, [], ◌∷◌, ◌++◌, arith, if◌then◌else◌, Bool-cases,
  inl, inr,
}
use imapped_lightmode.Text.{Text, eq, eq→≡, eq_refl}
use imapped_lightmode.Coordination.{
  SyncLockGuard, Locks, locked, acquire, release, World, add_guard, Step, acquires, drops, runs,
  Reachable, fresh, after,
}

-- How many guards of the list hold `key`, and how often `key` is locked.
unfoldable pub holders : Text → List SyncLockGuard → ℕ
holders key [] = 0
holders key (guard ∷ guards) = (if eq guard.key key then 1 else 0) + holders key guards

unfoldable count : Text → Locks → ℕ
count key [] = 0
count key (k ∷ ks) = (if eq k key then 1 else 0) + count key ks

holders-middle :
    (key : Text) (before rest : List SyncLockGuard) (guard : SyncLockGuard)
    → holders key (before ++ guard ∷ rest) ≡ holders key (guard ∷ (before ++ rest))
unfolding holders
holders-middle key [] rest guard = refl
holders-middle key (g ∷ before) rest guard = omega (arith, holders-middle key before rest guard)

count-release :
    (key k token : Text) (locks : Locks)
    → count key (release locks k token) ≡ (if eq k key then 0 else count key locks)
unfolding count release
count-release key k token [] = ground arith
count-release key k token (x ∷ locks) =
    ground (arith, count-release key k token locks, eq→≡ x k, eq→≡ x key, eq→≡ k key, eq_refl key)

locked-count : (key : Text) (locks : Locks) → locked locks key ≡ false → count key locks ≡ 0
unfolding count
locked-count key [] h = refl
locked-count key (k ∷ ks) h = ground (arith, locked-count key ks)

-- Every key is locked at most once, and as often as a guard or a release in waiting holds it.
abbrev Balanced : World → Text → Type 0
Balanced w key =
    (holders key w.guards + holders key w.releases ≡ count key w.locks) × (count key w.locks ≤ 1)

acquire-Balanced :
    (w : World) (k token key : Text)
    → Balanced w key
    → (holders key (add_guard (acquire w.locks k token).0 w.guards) + holders key w.releases
        ≡ count key (acquire w.locks k token).1)
      × (count key (acquire w.locks k token).1 ≤ 1)
unfolding acquire add_guard holders count
acquire-Balanced w k token key b = elim (Bool-cases (locked w.locks k)) [
  | inl e ↦ rw e b
  | inr e ↦ rw e (ground (arith, locked-count k w.locks e, eq→≡ k key))
]

holders_split :
    (key : Text) (guards before rest : List SyncLockGuard) (guard : SyncLockGuard)
    → guards ≡ before ++ guard ∷ rest
    → holders key guards ≡ (if eq guard.key key then 1 else 0) + holders key (before ++ rest)
unfolding holders
holders_split key guards before rest guard g =
    ap (holders key) g ∙ holders-middle key before rest guard

Step-Balanced : {w next : World} → Step w next → (key : Text) → Balanced w key → Balanced next key
unfolding holders
Step-Balanced {w} (acquires k token e) key b = rw e (acquire-Balanced w k token key b)
Step-Balanced {w} (drops before rest guard g e) key b =
    rw e (ground (arith, holders_split key w.guards before rest guard g, b.0), b.1)
Step-Balanced {w} (runs before rest guard g e) key b =
    let split = holders_split key w.releases before rest guard g in
    let left = count-release key guard.key guard.token w.locks in
    rw e (ground (arith, split, left, b.0, b.1))

Reachable-Balanced : {w : World} → Reachable w → (key : Text) → Balanced w key
unfolding holders count
Reachable-Balanced fresh key = (refl, omega arith)
Reachable-Balanced (after r s) key = Step-Balanced s key (Reachable-Balanced r key)

-- At no time are there two live guards for one key.
pub Reachable-holders : {w : World} → Reachable w → (key : Text) → holders key w.guards ≤ 1
Reachable-holders r key = let b = Reachable-Balanced r key in omega (arith, b.0, b.1)
