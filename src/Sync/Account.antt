-- ===== src/Sync/Account.antt =====
-- crates/sync/src/lib.rs: `sync_account` and `sync_mailbox`. The limit of concurrent runs and the metrics are
-- left out.
pub mod Names
pub mod Unlisted
pub mod Listed
pub mod Skips
use imapped_lightmode.Base.{
  ℕ, suc, ◌+◌, Bool, true, false, Option, none, some, List, [], ◌∷◌, any, map, if◌then◌else◌,
  Result, ok, err, ◌++◌, Error, config, authentication_failed, imap_command, parse_error, storage,
  external,
}
use imapped_lightmode.Base.Int.{ℤ, pos}
use imapped_lightmode.Text.{Text, lit, eq}
use imapped_lightmode.Text.Case.{to_ascii_lowercase}
use imapped_lightmode.Domain.Records.{Mailbox, MailAccount}
use imapped_lightmode.Db as D
use imapped_lightmode.Db.{Db, Action, Done, done}
use imapped_lightmode.Protocol.Status.{show_ℤ}
use imapped_lightmode.Db.Accounts.{find_account_by_id_any_state, set_mail_account_sync_status}
use imapped_lightmode.Db.Mailboxes.{list_mailboxes, delete_mailbox}
use imapped_lightmode.Db.Messages.{list_mailbox_messages}
use imapped_lightmode.Db.Messages.Purge.{delete_messages}
use imapped_lightmode.Db.Upsert.{upsert_mailbox}
use imapped_lightmode.Sync.Job.{Job, pure, on_db, on_upstream, ◌>>=◌, ◌>>◌}
use imapped_lightmode.Sync.Mirror.{Mirror}
use imapped_lightmode.Sync.Engine.{sync_mailbox_inner}

pub record SyncRunReport : Type 0 where
  pub mailboxes_synced : ℕ
  pub messages_synced : ℕ

-- `SyncRunReport::default()`.
abbrev pub no_report : SyncRunReport
no_report = record { mailboxes_synced = 0; messages_synced = 0 }

-- `SyncLockManager` of crates/coordination/src/lib.rs: `acquire` gets a key and the seconds that the lock may
-- last, and gives the token of a guard, or none if the lock is busy; `drop` drops the guard.
pub record Locks (U : Type 0) : Type 0 where
  pub acquire : Text → ℕ → U → Result (Option Text) × U
  pub drop : Text → Text → U → U

unfoldable pub lock_key : ℤ → Text
unfolding show_ℤ
lock_key account_id = lit "imap-cache-rs:sync:account:" ++ show_ℤ account_id

unfoldable pub is_disabled : MailAccount → Bool
is_disabled account = elim account.disabled_at [ none ↦ false | some time ↦ true ]

-- `to_string` of an error; the message of another library's error is its own.
unfoldable pub to_string : Error → Text
to_string (config message) = lit "configuration error: " ++ message
to_string authentication_failed = lit "authentication failed"
to_string (imap_command message) = lit "invalid IMAP command: " ++ message
to_string (parse_error message) = lit "parse error: " ++ message
to_string (storage message) = lit "storage error: " ++ message
to_string (external message) = message

unfoldable pub error_text : Result SyncRunReport → Option Text
unfolding to_string
error_text (ok report) = none
error_text (err e) = some (to_string e)

unfoldable pub special_use_of : Text → Option Text
special_use_of canonical_name =
    if eq canonical_name (lit "inbox") then some (lit "\\Inbox") else none

-- `upsert_mailbox` does not read the id.
unfoldable pub upstream_mailbox : ℤ → Text → Mailbox
unfolding special_use_of
upstream_mailbox account_id name = record {
  id = pos 0;
  account_id = account_id;
  name = name;
  canonical_name = to_ascii_lowercase name;
  delimiter = some (lit "/");
  attributes = [];
  subscribed = true;
  special_use = special_use_of (to_ascii_lowercase name);
  uidvalidity = none;
  uidnext = none;
  highestmodseq = none;
  exists_count = pos 0;
  recent_count = pos 0;
  unseen_count = pos 0;
}

abbrev pub is_listed : List Text → Mailbox → Bool
is_listed names row = any (λ name. eq name row.canonical_name) names

-- The messages of a mailbox go one by one, then the mailbox.
unfoldable pub remove_mailbox : ℤ → Mailbox → Action Done
unfolding delete_messages list_mailbox_messages delete_mailbox
remove_mailbox account_id mailbox = D.◌>>=◌ (D.query (list_mailbox_messages mailbox.id)) λ messages.
    D.◌>>=◌ (delete_messages mailbox.id messages)
      λ deleted db. (ok done, (delete_mailbox account_id mailbox.name db).1)

-- The loop over the mailboxes.
unfoldable pub remove_unlisted : ℤ → List Text → List Mailbox → Action Done
unfolding remove_mailbox
remove_unlisted account_id names [] = D.pure done
remove_unlisted account_id names (mailbox ∷ mailboxes) =
    let rest = remove_unlisted account_id names mailboxes in
    if is_listed names mailbox then rest else D.◌>>◌ (remove_mailbox account_id mailbox) rest

unfoldable pub remove_missing_mailboxes : (Text → Text → Bool) → ℤ → List Text → Action Done
unfolding remove_unlisted list_mailboxes
remove_missing_mailboxes collates account_id names db =
    remove_unlisted account_id names (list_mailboxes collates account_id none db) db

module _ {U : Type 0} (collates : Text → Text → Bool) (sha256_hex : Text → Text) (mirror : Mirror U)
    (now : ℕ) where
  unfoldable pub sync_mailbox : ℤ → Text → Job U ℕ
  unfolding upstream_mailbox upsert_mailbox sync_mailbox_inner
  sync_mailbox account_id name =
      on_db (λ db.
        let stored = upsert_mailbox (upstream_mailbox account_id name) db in
        (ok stored.0, stored.1))
      >>= sync_mailbox_inner sha256_hex mirror now account_id name

  -- The loop over the mailboxes of the server, with the report.
  unfoldable pub sync_listed : ℤ → List Text → SyncRunReport → Job U SyncRunReport
  unfolding sync_mailbox
  sync_listed account_id [] report = pure report
  sync_listed account_id (name ∷ names) report = sync_mailbox account_id name >>= λ synced.
      sync_listed account_id names (record {
        mailboxes_synced = suc report.mailboxes_synced;
        messages_synced = report.messages_synced + synced;
      })

  -- All mailboxes, where the account is enabled and locked.
  unfoldable pub sync_mailboxes : ℤ → Job U SyncRunReport
  unfolding sync_listed remove_missing_mailboxes
  sync_mailboxes account_id = on_upstream mirror.list_mailboxes >>= λ names.
      sync_listed account_id names no_report >>= λ report.
      on_db (remove_missing_mailboxes collates account_id (map to_ascii_lowercase names))
      >> pure report

  -- The guard is dropped whatever the run comes to.
  unfoldable pub sync_locked : Locks U → ℤ → Option Text → Job U SyncRunReport
  unfolding sync_mailboxes lock_key
  sync_locked locks account_id none = pure no_report
  sync_locked locks account_id (some token) = λ s.
      let run = sync_mailboxes account_id s in
      (run.0, (run.1.0, locks.drop (lock_key account_id) token run.1.1))

  unfoldable pub sync_with_lock : Option (Locks U) → ℤ → Job U SyncRunReport
  unfolding sync_locked
  sync_with_lock none account_id = sync_mailboxes account_id
  sync_with_lock (some locks) account_id =
      on_upstream (locks.acquire (lock_key account_id) 600) >>= sync_locked locks account_id

  -- An error of the record itself is ignored.
  unfoldable pub record_outcome :
      ℤ → Result SyncRunReport × (Db × U) → Result SyncRunReport × (Db × U)
  unfolding set_mail_account_sync_status error_text
  record_outcome account_id (outcome, (db, u)) =
      (outcome, ((set_mail_account_sync_status account_id (some now) (error_text outcome) db).1, u))

  unfoldable pub sync_found : Option (Locks U) → ℤ → Option MailAccount → Job U SyncRunReport
  unfolding sync_with_lock record_outcome is_disabled
  sync_found locks account_id none = pure no_report
  sync_found locks account_id (some account) = λ s.
      record_outcome account_id
        (if is_disabled account then (ok no_report, s) else sync_with_lock locks account_id s)

  unfoldable pub sync_account : Option (Locks U) → ℤ → Job U SyncRunReport
  unfolding sync_found find_account_by_id_any_state
  sync_account locks account_id =
      λ s. sync_found locks account_id (find_account_by_id_any_state account_id s.0) s
