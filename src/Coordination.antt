-- ===== src/Coordination.antt =====
-- crates/coordination/src/lib.rs: `MemorySyncLockManager`, which keeps two workers from one key.
pub mod Exclusion
mod Tests
use imapped_lightmode.Base.{
  ℕ, Bool, true, false, not, ◌||◌, Option, none, some, List, [], ◌∷◌, ◌++◌, ◌≡◌, if◌then◌else◌, any,
  retain,
}
use imapped_lightmode.Text.{Text, eq}

-- `SyncLockGuard`, without the manager that it was made by: the token is one that
-- `Uuid::new_v4` gave.
pub record SyncLockGuard : Type 0 where
  pub key : Text
  pub token : Text

-- The `HashSet` of the keys that are locked.
abbrev pub Locks : Type 0
Locks = List Text

abbrev pub locked : Locks → Text → Bool
locked locks key = any (λ k. eq k key) locks

unfoldable pub acquire : Locks → Text → Text → Option SyncLockGuard × Locks
acquire locks key token =
    if locked locks key
    then (none, locks)
    else (some (record { key = key; token = token }), key ∷ locks)

-- The token is not looked at.
unfoldable pub release : Locks → Text → Text → Locks
release locks key token = retain (λ k. not (eq k key)) locks

-- The locks and the guards that are alive. A guard that is dropped releases its key in a task of its
-- own: the guard is gone at once, and its release is one of `releases` until the task runs.
pub record World : Type 0 where
  pub locks : Locks
  pub guards : List SyncLockGuard
  pub releases : List SyncLockGuard

unfoldable pub add_guard : Option SyncLockGuard → List SyncLockGuard → List SyncLockGuard
add_guard none guards = guards
add_guard (some guard) guards = guard ∷ guards

-- One worker asks for a key, a guard is dropped, or the release of a dropped guard runs.
pub data Step (w : World) : World → Type 0 where
  acquires :
      (key token : Text) {next : World}
      → next ≡ record w {
        locks = (acquire w.locks key token).1;
        guards = add_guard (acquire w.locks key token).0 w.guards;
      }
      → Step w next
  drops :
      (before after : List SyncLockGuard) (guard : SyncLockGuard) {next : World}
      → w.guards ≡ before ++ guard ∷ after
      → next ≡ record w { guards = before ++ after; releases = guard ∷ w.releases }
      → Step w next
  runs :
      (before after : List SyncLockGuard) (guard : SyncLockGuard) {next : World}
      → w.releases ≡ before ++ guard ∷ after
      → next
        ≡ record w { locks = release w.locks guard.key guard.token; releases = before ++ after }
      → Step w next

-- What a fresh manager can come to.
pub data Reachable : World → Type 0 where
  fresh : Reachable (record { locks = []; guards = []; releases = [] })
  after : {w next : World} → Reachable w → Step w next → Reachable next
