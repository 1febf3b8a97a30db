-- ===== src/Sync/Engine/Steady.antt =====
-- A synchronisation of a mailbox without a new message succeeds.
use imapped_lightmode.Base.{
  ℕ, ◌≡◌, refl, ap, sym, subst, ◌∙◌, true, false, Option, none, some, List, [], ◌∷◌, All, leb,
  if◌then◌else◌, Bool-cases, inl, inr, Result, ok,
}
use imapped_lightmode.Base.Int.{ℤ, pos, leb_ℤ}
use imapped_lightmode.Text.{Text}
use imapped_lightmode.Domain.Records.{Mailbox, MailboxMessage, SyncState}
use imapped_lightmode.Db as D
use imapped_lightmode.Db.{Db, Done, done}
use imapped_lightmode.Db.Messages.{
  list_mailbox_messages, update_mailbox_message_flags, refresh_mailbox_counts,
}
use imapped_lightmode.Db.Messages.Delete.{is_there}
use imapped_lightmode.Db.SyncStates.{load_sync_state, put_sync_state}
use imapped_lightmode.Sync.Job as J
use imapped_lightmode.Sync.Job.{Job, and_then, ◌>>◌, on_db, on_upstream, lift, pure}
use imapped_lightmode.Sync.Mirror.{Mirror, SelectedMailboxInfo}
use imapped_lightmode.Sync.Ingest.{i64_max}
use imapped_lightmode.Sync.Engine.{
  normalize_flags, same_flags, upstream_uid_set, is_missing, is_from_upstream,
  clear_synced_mailbox_messages, reconcile_missing_upstream_messages_with_set, local_from,
  update_mailbox_sync_metadata, uidvalidity_changed, last_uid, sync_state_row, newest_or,
  refresh_flags, sync_uids, finish_mailbox, sync_selected, sync_mailbox_inner,
}
use imapped_lightmode.Sync.Engine.Runs.{
  Runs, bind-Runs, lift-Runs, upstream-Runs, db-Runs, in_range-Runs, checkpoint-Runs,
  metadata_stays, counts_stay, update_flags_runs, delete_where_runs,
}

module _ {U : Type 0} (sha256_hex : Text → Text) (mirror : Mirror U) (now : ℕ) (account_id : ℤ)
    (name : Text) (mailbox : Mailbox) where
  refresh_flags-Runs :
      (flags : List Text) (local : Option MailboxMessage)
      → Runs mailbox.id (λ a. Unit {0}) (refresh_flags sha256_hex mirror now mailbox.id flags local)
  unfolding refresh_flags
  refresh_flags-Runs flags none = lift-Runs mailbox.id (λ a. Unit {0}) done tt
  refresh_flags-Runs flags (some local) =
      elim (Bool-cases (same_flags (normalize_flags local.flags) flags)) [
        | inl t ↦ rw t (lift-Runs mailbox.id (λ a. Unit {0}) done tt)
        | inr f ↦ rw f (
            bind-Runs mailbox.id (λ a. Unit {0}) (λ a. Unit {0})
              (db-Runs mailbox.id (λ a. Unit {0})
                (D.commit (update_mailbox_message_flags mailbox.id local.local_uid flags))
                (update_flags_runs mailbox.id local.local_uid flags))
              (λ a v. lift-Runs mailbox.id (λ a. Unit {0}) done tt))
      ]

  module _ (last : ℤ) (flags_of : ℕ → List Text)
      (fetches : (uid : ℕ) (u : U) → (mirror.uid_fetch_flags uid u).0 ≡ ok (flags_of uid)) where
    -- No UID is above the checkpoint: nothing is stored.
    sync_uids-Runs :
        (locals : List MailboxMessage) (uids : List ℕ)
        → All (λ uid. (leb uid i64_max ≡ true) × (leb_ℤ (pos uid) last ≡ true)) uids
        → Runs mailbox.id
            (λ synced. synced ≡ (0, none))
            (sync_uids sha256_hex mirror now account_id mailbox.id name last locals uids 0 none)
    unfolding sync_uids
    sync_uids-Runs locals [] known =
        lift-Runs mailbox.id (λ synced. synced ≡ (0, none)) (0, none) refl
    sync_uids-Runs locals (uid ∷ uids) known =
        bind-Runs mailbox.id (λ k. leb_ℤ k last ≡ true) (λ synced. synced ≡ (0, none))
          (in_range-Runs mailbox.id (λ k. leb_ℤ k last ≡ true) uid known.0.0 known.0.1)
          (λ k below.
            bind-Runs mailbox.id (λ a. Unit {0}) (λ synced. synced ≡ (0, none))
              (upstream-Runs mailbox.id (λ a. Unit {0}) (mirror.uid_fetch_flags uid)
                (λ u. (flags_of uid, fetches uid u, tt)))
              (λ fetched v.
                bind-Runs mailbox.id (λ a. Unit {0}) (λ synced. synced ≡ (0, none))
                  (refresh_flags-Runs (normalize_flags fetched) (local_from k locals))
                  (λ refreshed w. rw below (sync_uids-Runs locals uids known.1))))

  finish_mailbox-Runs :
      (selection : SelectedMailboxInfo) (last : ℤ) (uids : List ℕ) (synced : ℕ × Option ℤ)
      → leb_ℤ account_id (pos 0) ≡ false
      → Runs mailbox.id
          (λ count. count ≡ synced.0)
          (finish_mailbox sha256_hex mirror now account_id mailbox name selection last uids synced)
  unfolding finish_mailbox reconcile_missing_upstream_messages_with_set
  finish_mailbox-Runs selection last uids synced positive =
      let V : Done → Type 0 = λ a. Unit {0} in
      bind-Runs mailbox.id V (λ count. count ≡ synced.0)
        (bind-Runs mailbox.id V V
          (bind-Runs mailbox.id V V
            (bind-Runs mailbox.id V V (checkpoint-Runs mailbox.id account_id positive) (λ valid v.
              db-Runs mailbox.id V
                (λ db. (
                  ok done,
                  update_mailbox_sync_metadata mailbox.id selection (
                      put_sync_state
                        (sync_state_row now account_id mailbox name selection
                          (newest_or last synced.1))
                        db),
                ))
                (λ db there. (
                  done,
                  update_mailbox_sync_metadata mailbox.id selection (
                      put_sync_state
                        (sync_state_row now account_id mailbox name selection
                          (newest_or last synced.1))
                        db),
                  refl,
                  metadata_stays mailbox.id mailbox.id selection
                        (sync_state_row now account_id mailbox name selection
                          (newest_or last synced.1))
                        db
                      ∙ there,
                  tt,
                ))))
            (λ saved v.
              db-Runs mailbox.id V
                (reconcile_missing_upstream_messages_with_set (upstream_uid_set uids) mailbox.id)
                (delete_where_runs (is_missing (upstream_uid_set uids)) mailbox.id)))
          (λ reconciled v.
            db-Runs mailbox.id V (λ db. (ok done, refresh_mailbox_counts mailbox.id db))
              (λ db there. (
                done,
                refresh_mailbox_counts mailbox.id db,
                refl,
                counts_stay mailbox.id mailbox.id db ∙ there,
                tt,
              ))))
        (λ counted v. lift-Runs mailbox.id (λ count. count ≡ synced.0) synced.0 refl)

  cleared-Runs :
      (selection : SelectedMailboxInfo) (checkpoint : Option SyncState)
      → Runs {U = U} mailbox.id
          (λ a. Unit {0})
          (if uidvalidity_changed checkpoint selection
            then on_db (clear_synced_mailbox_messages mailbox.id)
            else pure done)
  unfolding clear_synced_mailbox_messages
  cleared-Runs selection checkpoint = elim (Bool-cases (uidvalidity_changed checkpoint selection)) [
    | inl t ↦ rw t (
        db-Runs mailbox.id (λ a. Unit {0}) (clear_synced_mailbox_messages mailbox.id)
          (delete_where_runs is_from_upstream mailbox.id))
    | inr f ↦ rw f (lift-Runs mailbox.id (λ a. Unit {0}) done tt)
  ]

  sync_selected-Runs :
      (selection : SelectedMailboxInfo) (checkpoint : Option SyncState) (uids : List ℕ)
      (flags_of : ℕ → List Text)
      → leb_ℤ account_id (pos 0) ≡ false
      → ((u : U) → (mirror.uid_search_all u).0 ≡ ok uids)
      → ((uid : ℕ) (u : U) → (mirror.uid_fetch_flags uid u).0 ≡ ok (flags_of uid))
      → All
          (λ uid.
            (leb uid i64_max ≡ true) × (leb_ℤ (pos uid) (last_uid checkpoint selection) ≡ true))
          uids
      → Runs mailbox.id
          (λ count. count ≡ 0)
          (sync_selected sha256_hex mirror now account_id mailbox name selection checkpoint)
  unfolding sync_selected
  sync_selected-Runs selection checkpoint uids flags_of positive finds fetches known =
      let last = last_uid checkpoint selection in
      bind-Runs mailbox.id (λ found. uids ≡ found) (λ count. count ≡ 0)
        (bind-Runs mailbox.id (λ a. Unit {0}) (λ found. uids ≡ found)
          (cleared-Runs selection checkpoint)
          (λ cleared v.
            upstream-Runs mailbox.id (λ found. uids ≡ found) mirror.uid_search_all
              (λ u. (uids, finds u, refl))))
        (λ found same.
          bind-Runs mailbox.id (λ a. Unit {0}) (λ count. count ≡ 0)
            (db-Runs mailbox.id (λ a. Unit {0})
              (λ db. (ok (list_mailbox_messages mailbox.id db), db))
              (λ db there. (list_mailbox_messages mailbox.id db, db, refl, there, tt)))
            (λ locals v.
              bind-Runs mailbox.id (λ synced. synced ≡ (0, none)) (λ count. count ≡ 0)
                (sync_uids-Runs last flags_of fetches locals found (
                  subst (All (λ uid. (leb uid i64_max ≡ true) × (leb_ℤ (pos uid) last ≡ true))) same
                    known))
                (λ synced none_new.
                  subst
                    (λ synced.
                      Runs mailbox.id (λ count. count ≡ 0)
                        (finish_mailbox sha256_hex mirror now account_id mailbox name selection last
                          found synced))
                    (sym none_new) (finish_mailbox-Runs selection last found (0, none) positive))))

selected_run :
    {U A B : Type 0} (r : Result A) (a : A) (f : A → Job U B) (s : Db × U)
    → r ≡ ok a
    → and_then r f s ≡ f a s
selected_run r a f s e = ap (λ r. and_then r f s) e

-- A synchronisation of a mailbox that is there succeeds and stores no message, if the account has a
-- positive number, the server answers the selection, the search and the requests of flags, and no UID
-- that it lists is above the checkpoint or out of range; the flags of the messages may differ, and
-- messages may be missing upstream.
pub sync_mailbox_inner_succeeds :
    {U : Type 0} (sha256_hex : Text → Text) (mirror : Mirror U) (now : ℕ) (account_id : ℤ)
    (name : Text) (mailbox : Mailbox) (selection : SelectedMailboxInfo) (uids : List ℕ)
    (flags_of : ℕ → List Text) (s : Db × U)
    → leb_ℤ account_id (pos 0) ≡ false
    → is_there mailbox.id s.0 ≡ true
    → ((u : U) → (mirror.select_mailbox name u).0 ≡ ok selection)
    → ((u : U) → (mirror.uid_search_all u).0 ≡ ok uids)
    → ((uid : ℕ) (u : U) → (mirror.uid_fetch_flags uid u).0 ≡ ok (flags_of uid))
    → All
        (λ uid.
          (leb uid i64_max ≡ true)
          × (leb_ℤ (pos uid) (last_uid (load_sync_state account_id (some mailbox.id) s.0) selection)
              ≡ true))
        uids
    → (next : Db × U) × (sync_mailbox_inner sha256_hex mirror now account_id name mailbox s
        ≡ (ok 0, next))
      × (is_there mailbox.id next.0 ≡ true)
unfolding sync_mailbox_inner
sync_mailbox_inner_succeeds sha256_hex mirror now account_id name mailbox selection uids flags_of
      (db, u) positive there selects finds fetches known =
    let checkpoint = load_sync_state account_id (some mailbox.id) db in
    let (count, next, e, stays, zero) =
      (sync_selected-Runs sha256_hex mirror now account_id name mailbox selection checkpoint uids
          flags_of positive finds fetches known).runs
        (db, (mirror.select_mailbox name u).1) there in
    (
      next,
      selected_run (mirror.select_mailbox name u).0 selection
            (λ selection.
              J.◌>>=◌ (on_db (λ db. (ok (load_sync_state account_id (some mailbox.id) db), db)))
                (sync_selected sha256_hex mirror now account_id mailbox name selection))
            (db, (mirror.select_mailbox name u).1) (selects u)
          ∙ (e ∙ ap (λ count. (ok count, next)) zero),
      stays,
    )
