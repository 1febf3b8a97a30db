-- ===== src/Db/Mutations.antt =====
-- crates/db/src/repository.rs: the queries on the table `pending_mutations`. `NOW()` is an argument.
use imapped_lightmode.Base.{
  ℕ, suc, Bool, true, false, ◌&&◌, Option, none, some, List, [], ◌∷◌, ◌++◌, map, if◌then◌else◌, leb,
  any, retain, Result, ok, err,
}
use imapped_lightmode.Base.Int.{ℤ, pos, eqb_ℤ}
use imapped_lightmode.Text.{eq}
use imapped_lightmode.Domain.{MutationStatus, pending, in_flight, succeeded, failed, dead_letter}
use imapped_lightmode.Domain.Records.{PendingMutation}
use imapped_lightmode.Db.{Db, Transaction, unique_violation, row_not_found}

-- The index on `idempotency_key` is unique. The row gets the next id, whatever the id of `input` is.
unfoldable pub enqueue_mutation : PendingMutation → Transaction PendingMutation
enqueue_mutation input db =
    let row = record input { id = pos db.next_mutation_id } in
    if any (λ other. eq other.idempotency_key input.idempotency_key) db.mutations
    then err unique_violation
    else ok (
      row,
      record db {
        mutations = db.mutations ++ row ∷ [];
        next_mutation_id = suc db.next_mutation_id;
      },
    )

-- `status IN ('pending', 'failed')`.
unfoldable pub is_open : MutationStatus → Bool
is_open pending = true
is_open in_flight = false
is_open succeeded = false
is_open failed = true
is_open dead_letter = false

-- `next_attempt_at IS NULL OR next_attempt_at <= NOW()`.
unfoldable pub is_time : ℕ → Option ℕ → Bool
is_time now none = true
is_time now (some next_attempt_at) = leb next_attempt_at now

unfoldable pub is_due : ℤ → ℕ → PendingMutation → Bool
unfolding is_open is_time
is_due account_id now m =
    eqb_ℤ m.account_id account_id && (is_open m.status && is_time now m.next_attempt_at)

-- In the order of creation, which is that of the table.
unfoldable pub list_due_pending_mutations : ℤ → ℕ → Db → List PendingMutation
unfolding is_due
list_due_pending_mutations account_id now db = retain (is_due account_id now) db.mutations

abbrev pub set_status : MutationStatus → ℕ → Option ℕ → PendingMutation → PendingMutation
set_status status attempts next_attempt_at m = record m {
  status = status;
  attempts = attempts;
  next_attempt_at = next_attempt_at;
}

unfoldable pub row_or_error : Db → List PendingMutation → Result (PendingMutation × Db)
row_or_error db [] = err row_not_found
row_or_error db (row ∷ rows) = ok (row, db)

-- `UPDATE … WHERE id = $1 RETURNING …`, which fails without a row.
unfoldable pub update_pending_mutation :
    ℤ → MutationStatus → ℕ → Option ℕ → Transaction PendingMutation
unfolding row_or_error
update_pending_mutation id status attempts next_attempt_at db =
    let change = set_status status attempts next_attempt_at in
    row_or_error
      (record db { mutations = map (λ m. if eqb_ℤ m.id id then change m else m) db.mutations })
      (map change (retain (λ m. eqb_ℤ m.id id) db.mutations))
