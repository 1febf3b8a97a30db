-- ===== src/Sync/Account/Skips.antt =====
-- The runs of `sync_account` that end before the server is asked.
use imapped_lightmode.Base.{
  ℕ, ◌≡◌, refl, ap, sym, ◌∙◌, Bool-cases, inl, inr, Bool, true, false, Option, none, some, Result,
  ok, err, arith,
}
use imapped_lightmode.Base.Int.{ℤ}
use imapped_lightmode.Text.{Text}
use imapped_lightmode.Domain.Records.{MailAccount}
use imapped_lightmode.Db.{Db}
use imapped_lightmode.Db.Accounts.{find_account_by_id_any_state, set_mail_account_sync_status}
use imapped_lightmode.Sync.Job as J
use imapped_lightmode.Sync.Mirror.{Mirror}
use imapped_lightmode.Sync.Account.{
  no_report, SyncRunReport, Locks, lock_key, is_disabled, error_text, sync_locked, sync_with_lock,
  record_outcome, sync_found, sync_account,
}

-- The account is not there, or it is disabled, or its lock is busy.
pub data Skips {U : Type 0} (account_id : ℤ) (u : U)
    : Option (Locks U) → Option MailAccount → Type 0 where
  gone : {locks : Option (Locks U)} → Skips account_id u locks none
  disabled :
      {locks : Option (Locks U)} {account : MailAccount}
      → is_disabled account ≡ true
      → Skips account_id u locks (some account)
  busy :
      {locks : Locks U} {account : MailAccount}
      → (locks.acquire (lock_key account_id) 600 u).0 ≡ ok none
      → Skips account_id u (some locks) (some account)

-- The database with the record of a run without an error.
abbrev noted : ℕ → ℤ → Db → Db
noted now account_id db = (set_mail_account_sync_status account_id (some now) none db).1

module _ {U : Type 0} (collates : Text → Text → Bool) (sha256_hex : Text → Text) (now : ℕ)
    (account_id : ℤ) where
  busy_result :
      (mirror : Mirror U) (manager : Locks U) (db : Db) (r : Result (Option Text) × U)
      → r.0 ≡ ok none
      → J.and_then r.0 (sync_locked collates sha256_hex mirror now manager account_id) (db, r.1)
        ≡ (ok no_report, (db, r.1))
  unfolding sync_locked
  busy_result mirror manager db (err e, u) h = absurd cc
  busy_result mirror manager db (ok none, u) h = refl
  busy_result mirror manager db (ok (some token), u) h = ground (arith, h)

  busy_run :
      (mirror : Mirror U) (manager : Locks U) (db : Db) (u : U)
      → (manager.acquire (lock_key account_id) 600 u).0 ≡ ok none
      → sync_with_lock collates sha256_hex mirror now (some manager) account_id (db, u)
        ≡ (ok no_report, (db, (manager.acquire (lock_key account_id) 600 u).1))
  unfolding sync_with_lock
  busy_run mirror manager db u h =
      busy_result mirror manager db (manager.acquire (lock_key account_id) 600 u) h

  -- The result of such a run, which is the same on every server.
  record Skipped (locks : Option (Locks U)) (found : Option MailAccount) (s : Db × U) : Type 0 where
    result : Result SyncRunReport × (Db × U)
    same :
        (mirror : Mirror U)
        → sync_found collates sha256_hex mirror now locks account_id found s ≡ result
    outcome : result.0 ≡ ok no_report
    kept : record result.1.0 { mail_accounts = s.0.mail_accounts } ≡ s.0

  disabled-Skipped :
      (locks : Option (Locks U)) (account : MailAccount) (s : Db × U)
      → is_disabled account ≡ true
      → Skipped locks (some account) s
  unfolding sync_found record_outcome set_mail_account_sync_status error_text
  disabled-Skipped locks account (db, u) h = record {
    result = (ok no_report, (noted now account_id db, u));
    same = λ mirror. rw h refl;
    outcome = refl;
    kept = refl;
  }

  busy-Skipped :
      (locks : Locks U) (account : MailAccount) (s : Db × U)
      → is_disabled account ≡ false
      → (locks.acquire (lock_key account_id) 600 s.1).0 ≡ ok none
      → Skipped (some locks) (some account) s
  unfolding sync_found record_outcome set_mail_account_sync_status error_text
  busy-Skipped locks account (db, u) enabled h = record {
    result =
        (ok no_report, (noted now account_id db, (locks.acquire (lock_key account_id) 600 u).1));
    same = λ mirror. rw (enabled, busy_run mirror locks db u h) refl;
    outcome = refl;
    kept = refl;
  }

  Skips-Skipped :
      (locks : Option (Locks U)) (found : Option MailAccount) (s : Db × U)
      → Skips account_id s.1 locks found
      → Skipped locks found s
  unfolding sync_found
  Skips-Skipped locks none s gone = record {
    result = (ok no_report, s);
    same = λ mirror. refl;
    outcome = refl;
    kept = refl;
  }
  Skips-Skipped locks (some account) s (disabled h) = disabled-Skipped locks account s h
  Skips-Skipped (some locks) (some account) s (busy h) = elim (Bool-cases (is_disabled account)) [
    | inl disabled_account ↦ disabled-Skipped (some locks) account s disabled_account
    | inr enabled ↦ busy-Skipped locks account s enabled h
  ]

-- A synchronisation of an account that is not there, that is disabled or whose lock is busy succeeds with
-- an empty report, writes no table of the database but that of the accounts, and does the same whatever
-- the server is.
pub sync_account-skips :
    {U : Type 0} (collates : Text → Text → Bool) (sha256_hex : Text → Text)
    (mirror other : Mirror U) (now : ℕ) (locks : Option (Locks U)) (account_id : ℤ) (s : Db × U)
    → Skips account_id s.1 locks (find_account_by_id_any_state account_id s.0)
    → ((sync_account collates sha256_hex mirror now locks account_id s).0 ≡ ok no_report)
      × (record (sync_account collates sha256_hex mirror now locks account_id s).1.0 {
        mail_accounts = s.0.mail_accounts;
      }
          ≡ s.0)
      × (sync_account collates sha256_hex mirror now locks account_id s
          ≡ sync_account collates sha256_hex other now locks account_id s)
unfolding sync_account
sync_account-skips {U} collates sha256_hex mirror other now locks account_id s skips =
    let found = find_account_by_id_any_state account_id s.0 in
    let r = Skips-Skipped collates sha256_hex now account_id locks found s skips in
    (
      ap (λ (x : Result SyncRunReport × (Db × U)). x.0) (r.same mirror) ∙ r.outcome,
      ap
            (λ (x : Result SyncRunReport × (Db × U)). record x.1.0 {
              mail_accounts = s.0.mail_accounts;
            })
            (r.same mirror)
          ∙ r.kept,
      r.same mirror ∙ sym (r.same other),
    )
