-- ===== src/Sync/Engine/Runs.antt =====
-- Jobs that succeed while the row of the mailbox is there.
use imapped_lightmode.Base.{
  ℕ, ◌≡◌, refl, ap, ◌∙◌, Bool, true, false, Option, none, List, [], ◌∷◌, length, any, map, retain,
  leb, if◌then◌else◌, Result, ok, ◌>>=◌, arith,
}
use imapped_lightmode.Base.Int.{ℤ, pos, leb_ℤ}
use imapped_lightmode.Text.{Text}
use imapped_lightmode.Domain.Records.{Mailbox, MailboxMessage, SyncState}
use imapped_lightmode.Db as D
use imapped_lightmode.Db.{Db, Done, done}
use imapped_lightmode.Db.Mailboxes.{with_id, update_mailboxes}
use imapped_lightmode.Db.Messages.{
  list_mailbox_messages, write_flags, update_mailbox_message_flags, refresh_mailbox_counts,
  set_counts, head_message, set_flags, is_at, is_in, unseen,
}
use imapped_lightmode.Db.Messages.Delete.{is_there, assign_mailbox_modseq-IsAssigned}
use imapped_lightmode.Db.Messages.Purge.{delete_messages-IsPurged}
use imapped_lightmode.Db.SyncStates.{put_sync_state}
use imapped_lightmode.Sync.Job as J
use imapped_lightmode.Sync.Job.{Job, and_then, ◌>>◌, on_db, on_upstream, lift, pure}
use imapped_lightmode.Sync.Mirror.{SelectedMailboxInfo}
use imapped_lightmode.Sync.Ingest.{i64_max}
use imapped_lightmode.Sync.Engine.{
  i64_of, uid_or_error, delete_where, set_metadata, update_mailbox_sync_metadata,
  validate_checkpoint,
}

-- A job that succeeds while the mailbox is there, with a value of which `V` holds, and the mailbox stays.
pub record Runs {U A : Type 0} (mailbox_id : ℤ) (V : A → Type 0) (job : Job U A) : Type 0 where
  pub runs :
      (s : Db × U)
      → is_there mailbox_id s.0 ≡ true
      → (a : A) × (next : Db × U) × (job s ≡ (ok a, next))
        × (is_there mailbox_id next.0 ≡ true)
        × V a

module _ {U : Type 0} (mailbox_id : ℤ) where
  pub bind-Runs :
      {A B : Type 0} {m : Job U A} {f : A → Job U B} (V : A → Type 0) (W : B → Type 0)
      → Runs mailbox_id V m
      → ((a : A) → V a → Runs mailbox_id W (f a))
      → Runs mailbox_id W (J.◌>>=◌ m f)
  bind-Runs {f = f} V W h k = record {
    runs = λ s there.
        let (a, mid, e, t, v) = h.runs s there in
        let (b, next, e2, t2, w) = (k a v).runs mid t in
        (b, next, ap (λ r. and_then r.0 f r.1) e ∙ e2, t2, w);
  }

  pub lift-Runs :
      {A : Type 0} (V : A → Type 0) (a : A) → V a → Runs {U = U} mailbox_id V (lift (ok a))
  lift-Runs V a v = record { runs = λ s there. (a, s, refl, there, v) }

  pub upstream-Runs :
      {A : Type 0} (V : A → Type 0) (g : U → Result A × U)
      → ((u : U) → (a : A) × ((g u).0 ≡ ok a) × V a)
      → Runs mailbox_id V (on_upstream g)
  upstream-Runs V g h = record {
    runs = λ s there.
        let (a, e, v) = h s.1 in (a, (s.0, (g s.1).1), ap (λ r. (r, (s.0, (g s.1).1))) e, there, v);
  }

  pub db-Runs :
      {A : Type 0} (V : A → Type 0) (f : Db → Result A × Db)
      → ((db : Db)
          → is_there mailbox_id db ≡ true
          → (a : A) × (next : Db) × (f db ≡ (ok a, next)) × (is_there mailbox_id next ≡ true) × V a)
      → Runs {U = U} mailbox_id V (on_db f)
  db-Runs {A = A} V f h = record {
    runs = λ s there.
        let (a, next, e, t, v) = h s.0 there in
        (a, (next, s.1), ap (λ (r : Result A × Db). (r.0, (r.1, s.1))) e, t, v);
  }

pub in_range-Runs :
    {U : Type 0} (mailbox_id : ℤ) (V : ℤ → Type 0) (uid : ℕ)
    → leb uid i64_max ≡ true
    → V (pos uid)
    → Runs {U = U} mailbox_id V (lift (uid_or_error uid (i64_of uid)))
unfolding uid_or_error i64_of
in_range-Runs mailbox_id V uid fits v = rw fits (lift-Runs mailbox_id V (pos uid) v)

pub checkpoint-Runs :
    {U : Type 0} (mailbox_id account_id : ℤ)
    → leb_ℤ account_id (pos 0) ≡ false
    → Runs {U = U} mailbox_id (λ a. Unit {0}) (lift (validate_checkpoint account_id))
unfolding validate_checkpoint
checkpoint-Runs mailbox_id account_id positive =
    rw positive (lift-Runs mailbox_id (λ a. Unit {0}) done tt)

any-with_id :
    (mailbox_id : ℤ) (test : Mailbox → Bool) (change : Mailbox → Mailbox) (rows : List Mailbox)
    → ((row : Mailbox) → (change row).id ≡ row.id)
    → any (with_id mailbox_id) (map (λ row. if test row then change row else row) rows)
      ≡ any (with_id mailbox_id) rows
unfolding with_id
any-with_id mailbox_id test change [] same = refl
any-with_id mailbox_id test change (row ∷ rows) same =
    ground (arith, same row, any-with_id mailbox_id test change rows same)

pub metadata_stays :
    (mailbox_id other : ℤ) (selection : SelectedMailboxInfo) (state : SyncState) (db : Db)
    → is_there mailbox_id (update_mailbox_sync_metadata other selection (put_sync_state state db))
      ≡ is_there mailbox_id db
unfolding update_mailbox_sync_metadata update_mailboxes put_sync_state set_metadata
metadata_stays mailbox_id other selection state db =
    any-with_id mailbox_id (with_id other) (set_metadata selection) db.mailboxes (λ row. refl)

pub counts_stay :
    (mailbox_id other : ℤ) (db : Db)
    → is_there mailbox_id (refresh_mailbox_counts other db) ≡ is_there mailbox_id db
unfolding refresh_mailbox_counts update_mailboxes
counts_stay mailbox_id other db =
    any-with_id mailbox_id (with_id other)
      (set_counts (length (retain (is_in other) db.messages))
        (length (retain unseen (retain (is_in other) db.messages))))
      db.mailboxes (λ row. refl)

pub update_flags_runs :
    (mailbox_id local_uid : ℤ) (flags : List Text) (db : Db)
    → is_there mailbox_id db ≡ true
    → (a : Option MailboxMessage) × (next : Db) × (D.commit
          (update_mailbox_message_flags mailbox_id local_uid flags)
          db
        ≡ (ok a, next))
      × (is_there mailbox_id next ≡ true)
      × Unit {0}
unfolding update_mailbox_message_flags write_flags
update_flags_runs mailbox_id local_uid flags db there =
    let (n, next, e, assigned) = assign_mailbox_modseq-IsAssigned mailbox_id none db there in
    (
      head_message (map (set_flags flags n) (retain (is_at mailbox_id local_uid) next.messages)),
      record next {
        messages =
            map (λ m. if is_at mailbox_id local_uid m then set_flags flags n m else m)
              next.messages;
      },
      ap (λ r. D.committed (r >>= write_flags mailbox_id local_uid flags) db) e,
      assigned.same_rows ∙ there,
      tt,
    )

pub delete_where_runs :
    (test : MailboxMessage → Bool) (mailbox_id : ℤ) (db : Db)
    → is_there mailbox_id db ≡ true
    → (a : Done) × (next : Db) × (delete_where test mailbox_id db ≡ (ok a, next))
      × (is_there mailbox_id next ≡ true)
      × Unit {0}
unfolding delete_where
delete_where_runs test mailbox_id db there =
    let purged =
      delete_messages-IsPurged mailbox_id (retain test (list_mailbox_messages mailbox_id db)) db
        there in
    (done, purged.next, purged.result, purged.there, tt)
