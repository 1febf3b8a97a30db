-- ===== src/Sync/Flush/Settled.antt =====
-- A flush leaves no change in flight, whatever happens.
use imapped_lightmode.Base.{
  ℕ, suc, ◌+◌, ◌≡◌, refl, sym, subst, Bool, true, false, not, ◌⊎◌, Option, none, some, List, [],
  ◌∷◌, any, retain, Error, Result, ok, err, arith, inl, inr,
}
use imapped_lightmode.Base.Int.{ℤ}
use imapped_lightmode.Text.{Text}
use imapped_lightmode.Domain.{MutationStatus, in_flight, succeeded, failed}
use imapped_lightmode.Domain.Records.{PendingMutation}
use imapped_lightmode.Db.{Db, Done, done}
use imapped_lightmode.Db.Mutations.{is_due, list_due_pending_mutations}
use imapped_lightmode.Sync.Retry.{retry_delay}
use imapped_lightmode.Sync.Job.{Upstream, Job}
use imapped_lightmode.Sync.Apply.{apply_mutation}
use imapped_lightmode.Sync.Apply.Laws.{apply-KeepsTable}
use imapped_lightmode.Sync.Flush.{settle, flush_each, flush_pending_mutations}
use imapped_lightmode.Sync.Flush.Rows.{
  with_id, set_rows, IsUpdated, update-IsUpdated, AllThere, retain-AllThere, AllThere-set_rows,
}
use imapped_lightmode.Sync.Flush.Laws.{first_step, second_step}

abbrev pub is_in_flight : MutationStatus → Bool
is_in_flight MutationStatus.pending = false
is_in_flight in_flight = true
is_in_flight succeeded = false
is_in_flight failed = false
is_in_flight MutationStatus.dead_letter = false

-- No change of the table is in flight.
abbrev pub is_calm : List PendingMutation → Bool
is_calm ms = not (any (λ m. is_in_flight m.status) ms)

-- A change that was tried is settled.
set_rows-is_calm :
    (id : ℤ) (status : MutationStatus) (first second : ℕ) (next : Option ℕ)
    (ms : List PendingMutation)
    → is_in_flight status ≡ false
    → is_calm ms ≡ true
    → is_calm (set_rows id status second next (set_rows id in_flight first none ms)) ≡ true
set_rows-is_calm id status first second next [] settled h = refl
set_rows-is_calm id status first second next (m ∷ ms) settled h =
    ground (arith, set_rows-is_calm id status first second next ms settled, settled, h)

Result-cases : (r : Result Done) → (r ≡ ok done) ⊎ ((e : Error) × (r ≡ err e))
Result-cases (ok done) = inl refl
Result-cases (err e) = inr (e, refl)

module _ {U : Type 0} (apply : PendingMutation → Job U Done) (now : ℕ) where
  -- Sending a change does not touch the table of changes.
  abbrev Keeps : Type 0
  Keeps = (m : PendingMutation) (s : Db × U) → (apply m s).1.0.mutations ≡ s.0.mutations

  failed_step :
      (row : PendingMutation) (rest : Job U ℕ) (r : Result Done) (e : Error) (s : Db × U)
      → r ≡ err e
      → IsUpdated row.id failed row.attempts (some (now + retry_delay row.attempts)) s.0
      → settle apply now row rest r s ≡ (
        err e,
        (
          record s.0 {
            mutations =
                set_rows row.id failed row.attempts
                  (some (now + retry_delay row.attempts))
                  s.0.mutations;
          },
          s.1,
        ),
      )
  unfolding settle
  failed_step row rest r e (db, u) h second = rw (h, second.result) refl

  flush_each-is_calm :
      Keeps
      → (ps : List PendingMutation) (n : ℕ) (s : Db × U) → AllThere s.0.mutations ps
      → is_calm s.0.mutations ≡ true
      → is_calm (flush_each apply now ps n s).1.0.mutations ≡ true
  unfolding flush_each
  flush_each-is_calm keeps [] n s h calm = calm
  flush_each-is_calm keeps (m ∷ ps) n (db, u) h calm =
      let attempts = m.attempts + 1 in
      let first = update-IsUpdated m.id in_flight attempts none db h.0 in
      let row = first.row in
      let tried = set_rows m.id in_flight attempts none db.mutations in
      let s1 : Db × U = (record db { mutations = tried }, u) in
      let kept = keeps m s1 in
      let s2 = (apply m s1).1 in
      let there = AllThere-set_rows m.id in_flight attempts none db.mutations (m ∷ ps) h in
      let there2 = subst (λ ms. AllThere ms (m ∷ ps)) (sym kept) there in
      let has_row =
        subst (λ id. any (with_id id) s2.0.mutations ≡ true) (sym first.same_id) there2.0 in
      let begun = first_step apply now m ps n db u first in
      let settled_calm : (status : MutationStatus) (next : Option ℕ)
          → is_in_flight status ≡ false
          → is_calm (set_rows row.id status row.attempts next s2.0.mutations) ≡ true =
        λ status next settled.
          subst (λ ms. is_calm (set_rows row.id status row.attempts next ms) ≡ true) (sym kept)
            (subst (λ id. is_calm (set_rows id status row.attempts next tried) ≡ true)
              (sym first.same_id)
              (set_rows-is_calm m.id status attempts row.attempts next db.mutations settled
                calm)) in
      subst (λ r. is_calm r.1.0.mutations ≡ true) (sym begun)
        (elim (Result-cases (apply m s1).0) [
          | inl sent ↦
              let second = update-IsUpdated row.id succeeded row.attempts none s2.0 has_row in
              subst (λ r. is_calm r.1.0.mutations ≡ true)
                (sym (
                  second_step apply now row (flush_each apply now ps (suc n)) (apply m s1).0 s2 sent
                    second))
                (flush_each-is_calm keeps ps (suc n)
                  (
                    record s2.0 {
                      mutations = set_rows row.id succeeded row.attempts none s2.0.mutations;
                    },
                    s2.1,
                  )
                  (AllThere-set_rows row.id succeeded row.attempts none s2.0.mutations ps there2.1)
                  (settled_calm succeeded none refl))
          | inr (e, wrong) ↦
              let again = some (now + retry_delay row.attempts) in
              let second = update-IsUpdated row.id failed row.attempts again s2.0 has_row in
              subst (λ r. is_calm r.1.0.mutations ≡ true)
                (sym (
                  failed_step row (flush_each apply now ps (suc n)) (apply m s1).0 e s2 wrong
                    second))
                (settled_calm failed again refl)
        ])

  flush_pending_mutations-Keeps :
      Keeps
      → (account_id : ℤ) (db : Db) (u : U) → is_calm db.mutations ≡ true
      → is_calm (flush_pending_mutations apply now account_id (db, u)).1.0.mutations ≡ true
  unfolding flush_pending_mutations list_due_pending_mutations
  flush_pending_mutations-Keeps keeps account_id db u calm =
      flush_each-is_calm keeps (retain (is_due account_id now) db.mutations) 0 (db, u)
        (retain-AllThere (is_due account_id now) db.mutations) calm

module _ (get : Text → Result (Option Text)) (parse_from_rfc3339 : Text → Result ℕ) {U : Type 0}
    (upstream : Upstream U) (now : ℕ) where
  -- Whether all changes can be sent or one fails, and whatever the server answers, a flush leaves no
  -- change in flight, if none was before it: those that were tried are settled or wait for their retry.
  pub flush_pending_mutations-is_calm :
      (account_id : ℤ) (db : Db) (u : U)
      → is_calm db.mutations ≡ true
      → is_calm
          (flush_pending_mutations
            (apply_mutation get parse_from_rfc3339 upstream)
            now
            account_id
            (db, u)).1.0.mutations
        ≡ true
  flush_pending_mutations-is_calm account_id db u calm =
      flush_pending_mutations-Keeps (apply_mutation get parse_from_rfc3339 upstream) now
        (λ m s.
          (apply-KeepsTable get parse_from_rfc3339 upstream m.mutation_type m.payload_json).same s)
        account_id db u calm
