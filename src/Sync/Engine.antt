-- ===== src/Sync/Engine.antt =====
-- crates/sync/src/lib.rs: `SyncEngine`, which brings mailboxes to what the upstream server has.
pub mod Rows
pub mod Deletes
pub mod Holds
pub mod Writes
pub mod Jobs
pub mod Ingests
pub mod Loop
pub mod Finish
pub mod Mirrors
pub mod Quotas
pub mod Charges
pub mod Stores
pub mod Within
pub mod Runs
pub mod Steady
mod Tests
use imapped_lightmode.Base.{
  ℕ, suc, ◌-◌, ◌^◌, Bool, true, false, not, ◌||◌, Option, none, some, List, [], ◌∷◌, ◌++◌, leb, any,
  retain, if◌then◌else◌, Result, ok, err, Error, storage,
}
use imapped_lightmode.Base.Int.{ℤ, pos, leb_ℤ, eqb_ℤ}
use imapped_lightmode.Base.Sort.{sort, dedup}
use imapped_lightmode.Text.{Text, lit, eq}
use imapped_lightmode.Text.Case.{to_ascii_lowercase}
use imapped_lightmode.Text.Decimal.{show}
use imapped_lightmode.Text.Map.{lookup}
use imapped_lightmode.Text.Order.{text_ord}
use imapped_lightmode.Domain.Records.{
  Mailbox, MailboxMessage, SyncState, Value, null, number, string, Payload,
}
use imapped_lightmode.Db.{Db, Action, Done, done, commit}
use imapped_lightmode.Db.Mailboxes.{with_id, update_mailboxes, list_mailboxes, delete_mailbox}
use imapped_lightmode.Db.Messages.{
  list_mailbox_messages, update_mailbox_message_flags, refresh_mailbox_counts,
}
use imapped_lightmode.Db.Messages.Purge.{delete_messages}
use imapped_lightmode.Db.SyncStates.{load_sync_state, put_sync_state}
use imapped_lightmode.Db.Upsert.{upsert_mailbox}
use imapped_lightmode.Sync.Apply.{as_i64, get_as}
use imapped_lightmode.Sync.Ingest.{ingest_raw_message, i64_max}
use imapped_lightmode.Sync.Job.{Job, pure, lift, on_db, on_upstream, ◌>>=◌, ◌>>◌}
use imapped_lightmode.Sync.Mirror.{Mirror, SelectedMailboxInfo}

unfoldable pub normalize_flags : List Text → List Text
unfolding text_ord
normalize_flags flags = dedup text_ord (sort text_ord flags)

unfoldable pub same_flags : List Text → List Text → Bool
same_flags [] [] = true
same_flags [] (g ∷ gs) = false
same_flags (f ∷ fs) [] = false
same_flags (f ∷ fs) (g ∷ gs) = if eq f g then same_flags fs gs else false

-- `i64::try_from(uid)`.
unfoldable pub i64_of : ℕ → Option ℤ
i64_of uid = if leb uid i64_max then some (pos uid) else none

unfoldable pub uid_or_error : ℕ → Option ℤ → Result ℤ
uid_or_error uid none = err (storage (lit "upstream UID out of range: " ++ show uid))
uid_or_error uid (some n) = ok n

unfoldable pub upstream_uid_set : List ℕ → List ℤ
unfolding i64_of
upstream_uid_set [] = []
upstream_uid_set (uid ∷ uids) = elim (i64_of uid) [
  | none ↦ upstream_uid_set uids
  | some n ↦ n ∷ upstream_uid_set uids
]

unfoldable pub is_from_upstream : MailboxMessage → Bool
is_from_upstream m = elim m.upstream_uid [ none ↦ false | some uid ↦ true ]

unfoldable pub is_from : ℤ → MailboxMessage → Bool
is_from uid m = elim m.upstream_uid [ none ↦ false | some n ↦ eqb_ℤ n uid ]

-- Whether the message came from upstream and is there no more.
unfoldable pub is_missing : List ℤ → MailboxMessage → Bool
is_missing uids m = elim m.upstream_uid [
  | none ↦ false
  | some n ↦ not (any (λ uid. eqb_ℤ uid n) uids)
]

-- The messages of a mailbox that `test` chooses are listed and then deleted one by one.
unfoldable pub delete_where : (MailboxMessage → Bool) → ℤ → Action Done
unfolding delete_messages
delete_where test mailbox_id db =
    delete_messages mailbox_id (retain test (list_mailbox_messages mailbox_id db)) db

unfoldable pub clear_synced_mailbox_messages : ℤ → Action Done
unfolding delete_where is_from_upstream
clear_synced_mailbox_messages = delete_where is_from_upstream

unfoldable pub reconcile_missing_upstream_messages_with_set : List ℤ → ℤ → Action Done
unfolding delete_where is_missing
reconcile_missing_upstream_messages_with_set uids = delete_where (is_missing uids)

-- `local_by_upstream_uid`: of two messages with one UID the map keeps the later.
unfoldable pub local_from : ℤ → List MailboxMessage → Option MailboxMessage
unfolding is_from
local_from uid [] = none
local_from uid (m ∷ ms) = elim (local_from uid ms) [
  | none ↦ if is_from uid m then some m else none
  | some later ↦ some later
]

unfoldable pub coalesce : {A : Type 0} → Option A → Option A → Option A
coalesce none old = old
coalesce (some new) old = some new

unfoldable pub count_or : Option ℤ → ℤ → ℤ
count_or none old = old
count_or (some new) old = new

unfoldable pub set_metadata : SelectedMailboxInfo → Mailbox → Mailbox
unfolding coalesce count_or
set_metadata selection row = record row {
  uidvalidity = coalesce selection.uidvalidity row.uidvalidity;
  uidnext = coalesce selection.uidnext row.uidnext;
  highestmodseq = coalesce selection.highestmodseq row.highestmodseq;
  exists_count = count_or selection.exists row.exists_count;
  recent_count = count_or selection.recent row.recent_count;
  unseen_count = count_or selection.unseen row.unseen_count;
}

unfoldable pub update_mailbox_sync_metadata : ℤ → SelectedMailboxInfo → Db → Db
unfolding set_metadata update_mailboxes with_id
update_mailbox_sync_metadata mailbox_id selection =
    update_mailboxes (with_id mailbox_id) (set_metadata selection)

unfoldable pub to_json : Option ℤ → Value
to_json none = null
to_json (some n) = number n

unfoldable pub state_number : Text → Option SyncState → Option ℤ
unfolding get_as as_i64
state_number key none = none
state_number key (some state) = get_as as_i64 (lookup key state.state_json)

unfoldable pub same_number : Option ℤ → Option ℤ → Bool
same_number none none = true
same_number none (some m) = false
same_number (some n) none = false
same_number (some n) (some m) = eqb_ℤ n m

-- `selection.uidvalidity.is_some() && checkpoint_uidvalidity != selection.uidvalidity`.
unfoldable pub uidvalidity_changed : Option SyncState → SelectedMailboxInfo → Bool
unfolding state_number same_number
uidvalidity_changed checkpoint selection = elim selection.uidvalidity [
  | none ↦ false
  | some n ↦ not (same_number (state_number (lit "uidvalidity") checkpoint) (some n))
]

unfoldable pub or_zero : Option ℤ → ℤ
or_zero none = pos 0
or_zero (some n) = n

unfoldable pub last_uid : Option SyncState → SelectedMailboxInfo → ℤ
unfolding uidvalidity_changed state_number or_zero
last_uid checkpoint selection =
    if uidvalidity_changed checkpoint selection
    then pos 0
    else or_zero (state_number (lit "last_uid") checkpoint)

unfoldable pub state_json : Text → SelectedMailboxInfo → ℤ → Payload
unfolding to_json
state_json mailbox_name selection last =
    (lit "mailbox_name", string mailbox_name)
    ∷ (lit "uidvalidity", to_json selection.uidvalidity)
    ∷ (lit "uidnext", to_json selection.uidnext)
    ∷ (lit "highestmodseq", to_json selection.highestmodseq)
    ∷ (lit "exists", to_json selection.exists)
    ∷ (lit "recent", to_json selection.recent)
    ∷ (lit "unseen", to_json selection.unseen)
    ∷ (lit "last_uid", number last)
    ∷ []

abbrev pub newest_or : ℤ → Option ℤ → ℤ
newest_or last none = last
newest_or last (some n) = n

unfoldable pub sync_state_row : ℕ → ℤ → Mailbox → Text → SelectedMailboxInfo → ℤ → SyncState
unfolding state_json
sync_state_row now account_id mailbox mailbox_name selection last = record {
  account_id = account_id;
  mailbox_id = some mailbox.id;
  state_json = state_json mailbox_name selection last;
  last_success_at = some now;
  last_attempt_at = some now;
  last_error = none;
}

unfoldable pub validate_checkpoint : ℤ → Result Done
validate_checkpoint account_id =
    if leb_ℤ account_id (pos 0) then err (storage (lit "account_id must be positive")) else ok done

module _ {U : Type 0} (sha256_hex : Text → Text) (mirror : Mirror U) (now : ℕ) where
  -- The flags of a message that is there already.
  unfoldable pub refresh_flags : ℤ → List Text → Option MailboxMessage → Job U Done
  unfolding normalize_flags same_flags update_mailbox_message_flags
  refresh_flags mailbox_id flags none = pure done
  refresh_flags mailbox_id flags (some local) =
      if same_flags (normalize_flags local.flags) flags
      then pure done
      else on_db (commit (update_mailbox_message_flags mailbox_id local.local_uid flags))
        >> pure done

  -- A message above the checkpoint is fetched and stored.
  unfoldable pub fetch_message : ℤ → ℤ → Text → ℕ → ℤ → List Text → Job U Done
  unfolding ingest_raw_message
  fetch_message account_id mailbox_id mailbox_name uid n flags =
      on_upstream (mirror.uid_fetch_rfc822 uid) >>= λ raw.
      ingest_raw_message sha256_hex mirror account_id mailbox_id mailbox_name n (some n) none raw
        flags
      >> pure done

  -- The loop over the UIDs, with the number of the stored messages and the last UID of them.
  unfoldable pub sync_uids :
      ℤ → ℤ → Text → ℤ → List MailboxMessage → List ℕ → ℕ → Option ℤ → Job U (ℕ × Option ℤ)
  unfolding uid_or_error i64_of refresh_flags local_from fetch_message normalize_flags
  sync_uids account_id mailbox_id mailbox_name last locals [] synced newest = pure (synced, newest)
  sync_uids account_id mailbox_id mailbox_name last locals (uid ∷ uids) synced newest =
      lift (uid_or_error uid (i64_of uid)) >>= λ n.
      on_upstream (mirror.uid_fetch_flags uid) >>= λ fetched.
      refresh_flags mailbox_id (normalize_flags fetched) (local_from n locals)
      >> (let skip = sync_uids account_id mailbox_id mailbox_name last locals uids synced newest in
          let store =
            fetch_message account_id mailbox_id mailbox_name uid n (normalize_flags fetched)
            >> sync_uids account_id mailbox_id mailbox_name last locals uids (suc synced)
                (some n) in
          if leb_ℤ n last then skip else store)

  -- Behind the loop: the checkpoint, the metadata, and the messages that are missing upstream.
  unfoldable pub finish_mailbox :
      ℤ → Mailbox → Text → SelectedMailboxInfo → ℤ → List ℕ → ℕ × Option ℤ → Job U ℕ
  unfolding validate_checkpoint sync_state_row put_sync_state update_mailbox_sync_metadata
      upstream_uid_set reconcile_missing_upstream_messages_with_set refresh_mailbox_counts
  finish_mailbox account_id mailbox mailbox_name selection last uids synced =
      lift (validate_checkpoint account_id)
      >> on_db (λ db. (
        ok done,
        update_mailbox_sync_metadata mailbox.id selection (
            put_sync_state
              (sync_state_row now account_id mailbox mailbox_name selection
                (newest_or last synced.1))
              db),
      ))
      >> on_db (reconcile_missing_upstream_messages_with_set (upstream_uid_set uids) mailbox.id)
      >> on_db (λ db. (ok done, refresh_mailbox_counts mailbox.id db))
      >> pure synced.0

  -- Behind the selection and the load of the checkpoint.
  unfoldable pub sync_selected :
      ℤ → Mailbox → Text → SelectedMailboxInfo → Option SyncState → Job U ℕ
  unfolding uidvalidity_changed clear_synced_mailbox_messages last_uid sync_uids finish_mailbox
  sync_selected account_id mailbox mailbox_name selection checkpoint =
      (if uidvalidity_changed checkpoint selection
        then on_db (clear_synced_mailbox_messages mailbox.id)
        else pure done)
      >> on_upstream mirror.uid_search_all
      >>= λ uids. on_db (λ db. (ok (list_mailbox_messages mailbox.id db), db)) >>= λ locals.
          sync_uids account_id mailbox.id mailbox_name (last_uid checkpoint selection) locals uids 0
            none
          >>= finish_mailbox account_id mailbox mailbox_name selection
              (last_uid checkpoint selection) uids

  unfoldable pub sync_mailbox_inner : ℤ → Text → Mailbox → Job U ℕ
  unfolding load_sync_state sync_selected
  sync_mailbox_inner account_id mailbox_name mailbox =
      on_upstream (mirror.select_mailbox mailbox_name) >>= λ selection.
      on_db (λ db. (ok (load_sync_state account_id (some mailbox.id) db), db))
      >>= sync_selected account_id mailbox mailbox_name selection
