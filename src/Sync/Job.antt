-- ===== src/Sync/Job.antt =====
-- What a worker of the synchronisation does: it talks to the database and to the upstream server.
use imapped_lightmode.Base.{ℕ, Option, List, Result, ok, err}
use imapped_lightmode.Text.{Text}
use imapped_lightmode.Db.{Db, Done}

-- The client of the upstream server: what `UpstreamClient` of crates/upstream/src/lib.rs does to a
-- connection `U`, as far as the queued changes use it.
pub record Upstream (U : Type 0) : Type 0 where
  pub append_with_internal_date : Text → List Text → Option ℕ → Text → U → Result (Option ℕ) × U
  pub uid_store_flags : ℕ → List Text → U → Result Done × U
  pub select : Text → U → Result Done × U
  pub uid_copy_message : ℕ → Text → U → Result ℕ × U
  pub expunge_selected : U → Result Done × U

abbrev pub Job : Type 0 → Type 0 → Type 0
Job U A = Db × U → Result A × (Db × U)

module _ {U A : Type 0} where
  abbrev pub pure : A → Job U A
  pure a s = (ok a, s)

  abbrev pub lift : Result A → Job U A
  lift r s = (r, s)

  abbrev pub on_db : (Db → Result A × Db) → Job U A
  on_db f (db, u) = let r = f db in (r.0, (r.1, u))

  abbrev pub on_upstream : (U → Result A × U) → Job U A
  on_upstream f (db, u) = let r = f u in (r.0, (db, r.1))

infixl 5 ◌>>=◌ ◌>>◌
abbrev pub and_then : {U A B : Type 0} → Result A → (A → Job U B) → Job U B
and_then (err e) f s = (err e, s)
and_then (ok a) f s = f a s

abbrev pub ◌>>=◌ : {U A B : Type 0} → Job U A → (A → Job U B) → Job U B
◌>>=◌ m f s = and_then (m s).0 f (m s).1

abbrev pub ◌>>◌ : {U A B : Type 0} → Job U A → Job U B → Job U B
m >> k = m >>= λ _. k
