-- ===== src/Sync/Engine/Finish.antt =====
-- The end of a synchronisation of a mailbox, which deletes what is missing upstream and spares the rest.
use imapped_lightmode.Base.{
  ℕ, ◌≡◌, refl, Bool, true, false, not, ◌&&◌, Option, none, some, List, [], ◌∷◌, any, All, leb,
  ◌==◌, Result, ok, err, arith,
}
use imapped_lightmode.Base.Int.{ℤ, pos, leb_ℤ, eqb_ℤ, eqb_ℤ_iff}
use imapped_lightmode.Text.{Text}
use imapped_lightmode.Domain.Records.{Mailbox, MailboxMessage}
use imapped_lightmode.Db.{Db, Done, done}
use imapped_lightmode.Db.Mailboxes.{update_mailboxes}
use imapped_lightmode.Db.Messages.{is_in, refresh_mailbox_counts}
use imapped_lightmode.Db.SyncStates.{put_sync_state}
use imapped_lightmode.Sync.Job.{Job, ◌>>=◌, ◌>>◌, on_db, lift}
use imapped_lightmode.Sync.Mirror.{Mirror, SelectedMailboxInfo}
use imapped_lightmode.Sync.Ingest.{i64_max}
use imapped_lightmode.Sync.Engine.{
  i64_of, upstream_uid_set, is_from, is_missing, delete_where,
  reconcile_missing_upstream_messages_with_set, update_mailbox_sync_metadata, sync_state_row,
  validate_checkpoint, sync_uids, newest_or, finish_mailbox,
}
use imapped_lightmode.Sync.Engine.Deletes.{HoldsRows, delete_where-absent}
use imapped_lightmode.Sync.Engine.Writes.{Holds, Settles, delete_where_keeps}
use imapped_lightmode.Sync.Engine.Jobs.{
  Tables, Keeps, Sets, bind-Keeps, lift-Keeps, db-Keeps, first-Sets, then-Sets, db-Sets,
}
use imapped_lightmode.Sync.Engine.Loop.{both-Sets, sync_uids-Sets}

-- Nothing is missing upstream that the mailbox has from there.
abbrev pub Reconciled : ℤ → List ℕ → Tables
Reconciled mailbox_id uids db =
    any (λ m. is_in mailbox_id m && is_missing (upstream_uid_set uids) m) db.messages ≡ false

reconcile-Settles :
    (mailbox_id : ℤ) (uids : List ℕ) (db : Db)
    → Settles
        (Reconciled mailbox_id uids)
        (reconcile_missing_upstream_messages_with_set (upstream_uid_set uids) mailbox_id db)
unfolding reconcile_missing_upstream_messages_with_set
reconcile-Settles mailbox_id uids db =
    go (delete_where (is_missing (upstream_uid_set uids)) mailbox_id db)
      (delete_where-absent (is_missing (upstream_uid_set uids)) mailbox_id db)
  where
    go :
        (r : Result Done × Db)
        → ((next : Db) → r ≡ (ok done, next) → Reconciled mailbox_id uids next)
        → Settles (Reconciled mailbox_id uids) r
    go (err e, next) h = tt
    go (ok done, next) h = h next refl

-- A UID in range is in the set.
in_uid_set :
    (uid : ℕ) (uids : List ℕ)
    → leb uid i64_max ≡ true
    → any (λ other. other == uid) uids ≡ true
    → any (λ n. eqb_ℤ n (pos uid)) (upstream_uid_set uids) ≡ true
unfolding upstream_uid_set i64_of
in_uid_set uid [] fits h = cc
in_uid_set uid (other ∷ uids) fits h = ground (arith, in_uid_set uid uids fits)

spared :
    (uid : ℕ) (uids : List ℕ)
    → any (λ n. eqb_ℤ n (pos uid)) (upstream_uid_set uids) ≡ true
    → (m : MailboxMessage) → is_from (pos uid) m ≡ true
    → is_missing (upstream_uid_set uids) m ≡ false
unfolding is_from is_missing
spared uid uids h m t = go m.upstream_uid t
  where
    go :
        (o : Option ℤ)
        → (elim o [ none ↦ false | some n ↦ eqb_ℤ n (pos uid) ]) ≡ true
        → (elim o [ none ↦ false | some n ↦ not (any (λ k. eqb_ℤ k n) (upstream_uid_set uids)) ])
          ≡ false
    go none e = refl
    go (some n) e = rw ((eqb_ℤ_iff n (pos uid)).0 e, h) refl

All-self :
    (xs whole : List ℕ)
    → ((p : ℕ → Bool) → any p xs ≡ true → any p whole ≡ true)
    → All (λ uid. any (λ other. other == uid) whole ≡ true) xs
All-self [] whole sub = tt
All-self (x ∷ xs) whole sub =
    (sub (λ other. other == x) (ground arith), All-self xs whole (λ p h. sub p (ground (arith, h))))

module _ {U : Type 0} (now : ℕ) (account_id : ℤ) (mailbox : Mailbox) (name : Text)
    (selection : SelectedMailboxInfo) (last : ℤ) (uids : List ℕ) (sha256_hex : Text → Text)
    (mirror : Mirror U) where
  abbrev finish : ℕ × Option ℤ → Job U ℕ
  finish = finish_mailbox sha256_hex mirror now account_id mailbox name selection last uids

  -- The parts of the end that write no row.
  metadata-Keeps :
      (P : List MailboxMessage → Type 0) (newest : Option ℤ)
      → Keeps {U = U}
          (λ db. P db.messages)
          (on_db (λ db. (
            ok done,
            update_mailbox_sync_metadata mailbox.id selection (
                put_sync_state
                  (sync_state_row now account_id mailbox name selection (newest_or last newest))
                  db),
          )))
  unfolding update_mailbox_sync_metadata update_mailboxes put_sync_state
  metadata-Keeps P newest =
      db-Keeps (λ db. P db.messages)
        (λ db. (
          ok done,
          update_mailbox_sync_metadata mailbox.id selection (
              put_sync_state
                (sync_state_row now account_id mailbox name selection (newest_or last newest)) db),
        ))
        (λ db p. p)

  counts-Keeps :
      (P : List MailboxMessage → Type 0)
      → Keeps {U = U}
          (λ db. P db.messages)
          (on_db (λ db. (ok done, refresh_mailbox_counts mailbox.id db)))
  unfolding refresh_mailbox_counts update_mailboxes
  counts-Keeps P =
      db-Keeps (λ db. P db.messages) (λ db. (ok done, refresh_mailbox_counts mailbox.id db))
        (λ db p. p)

  reconcile-Keeps :
      (uid : ℕ)
      → any (λ n. eqb_ℤ n (pos uid)) (upstream_uid_set uids) ≡ true
      → Keeps {U = U}
          (Holds mailbox.id (pos uid))
          (on_db (reconcile_missing_upstream_messages_with_set (upstream_uid_set uids) mailbox.id))
  unfolding reconcile_missing_upstream_messages_with_set
  reconcile-Keeps uid h =
      db-Keeps (Holds mailbox.id (pos uid))
        (delete_where (is_missing (upstream_uid_set uids)) mailbox.id)
        (λ db.
          delete_where_keeps (is_missing (upstream_uid_set uids)) mailbox.id (pos uid) db
            (spared uid uids h))

  finish-Keeps :
      (uid : ℕ) (synced : ℕ × Option ℤ)
      → any (λ n. eqb_ℤ n (pos uid)) (upstream_uid_set uids) ≡ true
      → Keeps (Holds mailbox.id (pos uid)) (finish synced)
  unfolding finish_mailbox
  finish-Keeps uid synced h =
      let P = Holds mailbox.id (pos uid) in
      bind-Keeps P
        (bind-Keeps P
          (bind-Keeps P
            (bind-Keeps P (lift-Keeps P (validate_checkpoint account_id))
              (λ valid. metadata-Keeps (HoldsRows mailbox.id (pos uid)) synced.1))
            (λ saved. reconcile-Keeps uid h))
          (λ reconciled. counts-Keeps (HoldsRows mailbox.id (pos uid))))
        (λ counted. lift-Keeps P (ok synced.0))

  finish-Sets : (synced : ℕ × Option ℤ) → Sets (Reconciled mailbox.id uids) (finish synced)
  unfolding finish_mailbox
  finish-Sets synced =
      let P = Reconciled mailbox.id uids in
      first-Sets P
        (first-Sets P
          (then-Sets P
            (lift (validate_checkpoint account_id)
              >> on_db (λ db. (
                ok done,
                update_mailbox_sync_metadata mailbox.id selection (
                    put_sync_state
                      (sync_state_row now account_id mailbox name selection
                        (newest_or last synced.1))
                      db),
              )))
            (λ saved.
              db-Sets P
                (reconcile_missing_upstream_messages_with_set (upstream_uid_set uids) mailbox.id)
                (reconcile-Settles mailbox.id uids)))
          (λ reconciled. counts-Keeps (λ rows.
            any (λ m. is_in mailbox.id m && is_missing (upstream_uid_set uids) m) rows ≡ false)))
        (λ counted. lift-Keeps P (ok synced.0))

  abbrev pub AllBrought : List ℕ → Tables
  AllBrought xs db =
      All
        (λ uid.
          (leb uid i64_max ≡ true) × (leb_ℤ (pos uid) last ≡ false → Holds mailbox.id (pos uid) db))
        xs

  finish_keeps_all :
      (xs : List ℕ) (synced : ℕ × Option ℤ) (s : Db × U)
      → All (λ uid. any (λ other. other == uid) uids ≡ true) xs
      → AllBrought xs s.0
      → AllBrought xs (finish synced s).1.0
  finish_keeps_all [] synced s known h = tt
  finish_keeps_all (uid ∷ xs) synced s known h = (
    (
      h.0.0,
      λ above. (finish-Keeps uid synced (in_uid_set uid uids h.0.0 known.0)).kept s (h.0.1 above),
    ),
    finish_keeps_all xs synced s known.1 h.1,
  )

  -- What there is behind a synchronisation.
  abbrev pub Mirrors : Tables
  Mirrors db = AllBrought uids db × Reconciled mailbox.id uids db

  module _ (counts : leb_ℤ (pos 0) last ≡ true) where
    pub uids_then_finish-Sets :
        (locals : List MailboxMessage)
        → Sets Mirrors (
            sync_uids sha256_hex mirror now account_id mailbox.id name last locals uids 0 none
            >>= finish)
    uids_then_finish-Sets locals =
        both-Sets (AllBrought uids) (Reconciled mailbox.id uids)
          (sync_uids sha256_hex mirror now account_id mailbox.id name last locals uids 0 none
            >>= finish)
          (first-Sets (AllBrought uids)
            (sync_uids-Sets sha256_hex mirror now account_id mailbox.id name last counts locals uids
              0 none)
            (λ synced. record {
              kept = λ s h. finish_keeps_all uids synced s (All-self uids uids (λ p t. t)) h;
            }))
          (then-Sets (Reconciled mailbox.id uids)
            (sync_uids sha256_hex mirror now account_id mailbox.id name last locals uids 0 none)
            finish-Sets)
