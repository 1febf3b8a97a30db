-- ===== src/Sync/Flush/Laws.antt =====
-- What a flush comes to when every change can be sent.
use imapped_lightmode.Base.{
  ℕ, suc, ◌+◌, ◌≡◌, refl, ap, sym, subst, ◌∙◌, true, Option, none, List, [], ◌∷◌, any, retain,
  length, All, Result, ok, arith,
}
use imapped_lightmode.Base.Int.{ℤ}
use imapped_lightmode.Text.{Text}
use imapped_lightmode.Domain.{in_flight, succeeded}
use imapped_lightmode.Domain.Records.{PendingMutation}
use imapped_lightmode.Db.{Db, Done, done}
use imapped_lightmode.Db.Mutations.{is_due, list_due_pending_mutations}
use imapped_lightmode.Sync.Job.{Upstream, Job}
use imapped_lightmode.Sync.Apply.{apply_mutation}
use imapped_lightmode.Sync.Apply.Laws.{apply-KeepsTable}
use imapped_lightmode.Sync.Flush.{settle, attempt, flush_each, flush_pending_mutations}
use imapped_lightmode.Sync.Flush.Rows.{
  with_id, set_rows, IsUpdated, update-IsUpdated, due-succeeded, drop_ids, drop_ids-all,
  AllNamed-self, AllThere, retain-AllThere, AllThere-set_rows,
}

module _ {U : Type 0} (apply : PendingMutation → Job U Done) (now : ℕ) where
  -- Sending a change does not touch the table of changes.
  abbrev Keeps : Type 0
  Keeps = (m : PendingMutation) (s : Db × U) → (apply m s).1.0.mutations ≡ s.0.mutations

  -- The change can be sent, whatever the database and the server are at.
  abbrev Sends : PendingMutation → Type 0
  Sends m = (s : Db × U) → (apply m s).0 ≡ ok done

  record IsFlushed (account_id : ℤ) (ps : List PendingMutation) (n : ℕ) (s : Db × U) : Type 0 where
    next : Db × U
    result : flush_each apply now ps n s ≡ (ok (n + length ps), next)
    due :
        list_due_pending_mutations account_id now next.0
        ≡ drop_ids ps (list_due_pending_mutations account_id now s.0)

  pub first_step :
      (m : PendingMutation) (ps : List PendingMutation) (n : ℕ) (db : Db) (u : U)
      (first : IsUpdated m.id in_flight (m.attempts + 1) none db)
      → flush_each apply now (m ∷ ps) n (db, u)
        ≡ attempt apply now m (flush_each apply now ps (suc n)) first.row (
          record db { mutations = set_rows m.id in_flight (m.attempts + 1) none db.mutations },
          u,
        )
  unfolding flush_each
  first_step m ps n db u first = rw (first.result) refl

  pub second_step :
      (row : PendingMutation) (rest : Job U ℕ) (r : Result Done) (s : Db × U)
      → r ≡ ok done
      → IsUpdated row.id succeeded row.attempts none s.0
      → settle apply now row rest r s
        ≡ rest (
          record s.0 { mutations = set_rows row.id succeeded row.attempts none s.0.mutations },
          s.1,
        )
  unfolding settle
  second_step row rest r (db, u) h second = rw (h, second.result) refl

  count : (n : ℕ) (ps : List PendingMutation) → suc n + length ps ≡ n + suc (length ps)
  count n ps = omega arith

  no_more : (n : ℕ) → n ≡ n + 0
  no_more n = omega arith

  from_zero : (n : ℕ) → 0 + n ≡ n
  from_zero n = omega arith

  flush_each-IsFlushed :
      Keeps
      → (account_id : ℤ) (ps : List PendingMutation) (n : ℕ) (s : Db × U) → All Sends ps
      → AllThere s.0.mutations ps
      → IsFlushed account_id ps n s
  unfolding flush_each drop_ids list_due_pending_mutations
  flush_each-IsFlushed keeps account_id [] n s sends h = record {
    next = s;
    result = ap (λ k. (ok k, s)) (no_more n);
    due = refl;
  }
  flush_each-IsFlushed keeps account_id (m ∷ ps) n (db, u) sends h =
      let attempts = m.attempts + 1 in
      let first = update-IsUpdated m.id in_flight attempts none db h.0 in
      let row = first.row in
      let tried = set_rows m.id in_flight attempts none db.mutations in
      let s1 : Db × U = (record db { mutations = tried }, u) in
      let kept = keeps m s1 in
      let s2 = (apply m s1).1 in
      let there = AllThere-set_rows m.id in_flight attempts none db.mutations (m ∷ ps) h in
      let there2 = subst (λ ms. AllThere ms (m ∷ ps)) (sym kept) there in
      let second =
        update-IsUpdated row.id succeeded row.attempts none s2.0
          (subst (λ id. any (with_id id) s2.0.mutations ≡ true) (sym first.same_id) there2.0) in
      let done_rows = set_rows row.id succeeded row.attempts none s2.0.mutations in
      let s3 : Db × U = (record s2.0 { mutations = done_rows }, s2.1) in
      let rest =
        flush_each-IsFlushed keeps account_id ps (suc n) s3 sends.1
          (AllThere-set_rows row.id succeeded row.attempts none s2.0.mutations ps there2.1) in
      let chosen =
        ap (λ ms. retain (is_due account_id now) (set_rows row.id succeeded row.attempts none ms))
          kept
        ∙ (ap (λ id. retain (is_due account_id now) (set_rows id succeeded row.attempts none tried))
              first.same_id
            ∙ due-succeeded account_id m.id now attempts row.attempts db.mutations) in
      record {
        next = rest.next;
        result =
            first_step m ps n db u first
            ∙ (second_step row (flush_each apply now ps (suc n)) (apply m s1).0 s2 (sends.0 s1)
                  second
                ∙ (rest.result ∙ ap (λ k. (ok k, rest.next)) (count n ps)));
        due = rest.due ∙ ap (drop_ids ps) chosen;
      }

  flush_pending_mutations-Sends :
      Keeps
      → (account_id : ℤ) (db : Db) (u : U)
      → All Sends (list_due_pending_mutations account_id now db)
      → (next : Db × U) × (flush_pending_mutations apply now account_id (db, u)
          ≡ (ok (length (list_due_pending_mutations account_id now db)), next))
        × (list_due_pending_mutations account_id now next.0 ≡ [])
  unfolding flush_pending_mutations list_due_pending_mutations
  flush_pending_mutations-Sends keeps account_id db u sends =
      let pending = retain (is_due account_id now) db.mutations in
      let all =
        flush_each-IsFlushed keeps account_id pending 0 (db, u) sends
          (retain-AllThere (is_due account_id now) db.mutations) in
      (
        all.next,
        all.result ∙ ap (λ k. (ok k, all.next)) (from_zero (length pending)),
        all.due ∙ drop_ids-all pending pending (AllNamed-self pending),
      )

module _ (get : Text → Result (Option Text)) (parse_from_rfc3339 : Text → Result ℕ) {U : Type 0}
    (upstream : Upstream U) (now : ℕ) where
  -- When every change of the account that is due can be sent, whatever the database and the server are
  -- at, then a flush sends all of them, counts them, and leaves none due.
  pub flush_pending_mutations-list_due :
      (account_id : ℤ) (db : Db) (u : U)
      → All
          (λ m. (s : Db × U) → (apply_mutation get parse_from_rfc3339 upstream m s).0 ≡ ok done)
          (list_due_pending_mutations account_id now db)
      → (next : Db × U) × (flush_pending_mutations
            (apply_mutation get parse_from_rfc3339 upstream)
            now
            account_id
            (db, u)
          ≡ (ok (length (list_due_pending_mutations account_id now db)), next))
        × (list_due_pending_mutations account_id now next.0 ≡ [])
  flush_pending_mutations-list_due account_id db u sends =
      flush_pending_mutations-Sends (apply_mutation get parse_from_rfc3339 upstream) now
        (λ m s.
          (apply-KeepsTable get parse_from_rfc3339 upstream m.mutation_type m.payload_json).same s)
        account_id db u sends
