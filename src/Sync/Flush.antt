-- ===== src/Sync/Flush.antt =====
-- crates/sync/src/lib.rs: `flush_pending_mutations`. `now` is the time of the query, and `Utc::now()`
-- where a change has failed gives the same.
pub mod Rows
pub mod Laws
pub mod Settled
use imapped_lightmode.Base.{
  ℕ, zero, suc, ◌+◌, Option, none, some, List, [], ◌∷◌, Result, ok, err, Error,
}
use imapped_lightmode.Base.Int.{ℤ}
use imapped_lightmode.Domain.{MutationStatus, in_flight, succeeded, failed}
use imapped_lightmode.Domain.Records.{Payload, PendingMutation}
use imapped_lightmode.Db
use imapped_lightmode.Db.{Db, Done, done}
use imapped_lightmode.Db.Mutations.{list_due_pending_mutations, update_pending_mutation}
use imapped_lightmode.Sync.Retry.{retry_delay}
use imapped_lightmode.Sync.Job.{Job, pure, lift, on_db, and_then, ◌>>=◌, ◌>>◌}

-- `apply` sends one change.
module _ {U : Type 0} (apply : PendingMutation → Job U Done) (now : ℕ) where
  abbrev pub set_row : PendingMutation → MutationStatus → ℕ → Option ℕ → Job U PendingMutation
  set_row row status attempts next =
      on_db (Db.commit (update_pending_mutation row.id status attempts next))

  -- What follows when the change was sent, with `rest` for the other changes, and when it was not.
  unfoldable pub settle : PendingMutation → Job U ℕ → Result Done → Job U ℕ
  unfolding retry_delay
  settle row rest (ok sent) = set_row row succeeded row.attempts none >> rest
  settle row rest (err e) =
      set_row row failed row.attempts (some (now + retry_delay row.attempts)) >> lift (err e)

  -- The result of `apply` is looked at, whatever it is.
  abbrev pub attempt : PendingMutation → Job U ℕ → PendingMutation → Job U ℕ
  attempt m rest row s = let result = apply m s in settle row rest result.0 result.1

  -- The loop over the changes that are due.
  unfoldable pub flush_each : List PendingMutation → ℕ → Job U ℕ
  unfolding settle
  flush_each [] applied = pure applied
  flush_each (m ∷ pending) applied =
      set_row m in_flight (m.attempts + 1) none >>= attempt m (flush_each pending (suc applied))

  unfoldable pub flush_pending_mutations : ℤ → Job U ℕ
  unfolding flush_each list_due_pending_mutations
  flush_pending_mutations account_id (db, u) =
      flush_each (list_due_pending_mutations account_id now db) 0 (db, u)
