-- ===== src/Sync/Account/Listed.antt =====
-- What a synchronisation of an account leaves: the mailboxes that the server lists.
use imapped_lightmode.Base.{
  Option, none, some, ℕ, suc, ◌+◌, length, ◌≡◌, refl, ap, sym, subst, ◌∙◌, Bool, false, not, ◌&&◌,
  List, [], ◌∷◌, any, map, Result, ok, err, arith,
}
use imapped_lightmode.Base.Int.{ℤ, eqb_ℤ}
use imapped_lightmode.Text.{Text}
use imapped_lightmode.Text.Case.{to_ascii_lowercase}
use imapped_lightmode.Domain.Records.{Mailbox, MailAccount}
use imapped_lightmode.Db.{Db, Done, done}
use imapped_lightmode.Db.Accounts.{find_account_by_id_any_state, set_mail_account_sync_status}
use imapped_lightmode.Sync.Job as J
use imapped_lightmode.Sync.Mirror.{Mirror}
use imapped_lightmode.Sync.Account.{
  is_listed, SyncRunReport, Locks, lock_key, is_disabled, remove_missing_mailboxes, sync_mailbox,
  sync_listed, sync_mailboxes, sync_locked, sync_with_lock, record_outcome, sync_found,
  sync_account,
}
use imapped_lightmode.Sync.Account.Unlisted.{unlisted, remove_missing_mailboxes_none}

module _ {U : Type 0} (collates : Text → Text → Bool) (account_id : ℤ) (names : List Text)
    (report : SyncRunReport) (next : Db × U) where
  close_removal :
      (r : Result Done × Db) (u : U) (given : SyncRunReport)
      → ((after : Db)
          → r ≡ (ok done, after)
          → any (unlisted account_id names) after.mailboxes ≡ false)
      → J.and_then r.0 (λ removed. J.pure given) (r.1, u) ≡ (ok report, next)
      → (any (unlisted account_id names) next.0.mailboxes ≡ false) × (given ≡ report)
  close_removal (err e, after) u given h run = absurd cc
  close_removal (ok done, after) u given h run = (
    ap (λ (s : Result SyncRunReport × (Db × U)). any (unlisted account_id names) s.1.0.mailboxes)
          (sym run)
        ∙ h after refl,
    ground (arith, run),
  )

  close_account :
      (r : Result SyncRunReport × (Db × U))
      → J.and_then r.0
          (λ given.
            J.◌>>◌ (J.on_db (remove_missing_mailboxes collates account_id names)) (J.pure given))
          r.1
        ≡ (ok report, next)
      → (any (unlisted account_id names) next.0.mailboxes ≡ false) × (r.0 ≡ ok report)
  close_account (err e, s) run = absurd cc
  close_account (ok given, (db, u)) run =
      let closed =
        close_removal (remove_missing_mailboxes collates account_id names db) u given
          (remove_missing_mailboxes_none account_id names collates db) run in
      (closed.0, ap ok closed.1)

module _ {U : Type 0} (collates : Text → Text → Bool) (sha256_hex : Text → Text) (mirror : Mirror U)
    (now : ℕ) (account_id : ℤ) where
  synced_next :
      (r : Result ℕ × (Db × U)) (names : List Text) (before report : SyncRunReport)
      → ((synced : ℕ) (s : Db × U)
          → (sync_listed collates sha256_hex mirror now account_id names
              (record {
                mailboxes_synced = suc before.mailboxes_synced;
                messages_synced = before.messages_synced + synced;
              })
              s).0
            ≡ ok report
          → report.mailboxes_synced ≡ suc before.mailboxes_synced + length names)
      → (J.and_then r.0
          (λ synced. sync_listed collates sha256_hex mirror now account_id names (record {
            mailboxes_synced = suc before.mailboxes_synced;
            messages_synced = before.messages_synced + synced;
          }))
          r.1).0
        ≡ ok report
      → report.mailboxes_synced ≡ suc before.mailboxes_synced + length names
  synced_next (err e, s) names before report k run = absurd cc
  synced_next (ok synced, s) names before report k run = k synced s run

  sync_listed-length :
      (names : List Text) (before report : SyncRunReport) (s : Db × U)
      → (sync_listed collates sha256_hex mirror now account_id names before s).0 ≡ ok report
      → report.mailboxes_synced ≡ before.mailboxes_synced + length names
  unfolding sync_listed
  sync_listed-length [] before report s run = ground (arith, run)
  sync_listed-length (name ∷ names) before report s run = ground (
    arith,
    synced_next (sync_mailbox collates sha256_hex mirror now account_id name s) names before report
        (λ synced.
          sync_listed-length names
            (record {
              mailboxes_synced = suc before.mailboxes_synced;
              messages_synced = before.messages_synced + synced;
            })
            report)
        run,
  )

  listed_account :
      (r : Result (List Text) × U) (db : Db) (names : List Text) (report : SyncRunReport)
      (next : Db × U)
      → r.0 ≡ ok names
      → J.and_then r.0
          (λ names.
            J.◌>>=◌
              (sync_listed collates sha256_hex mirror now account_id names
                (record { mailboxes_synced = 0; messages_synced = 0 }))
              (λ report.
                J.◌>>◌
                  (J.on_db
                    (remove_missing_mailboxes collates account_id (map to_ascii_lowercase names)))
                  (J.pure report)))
          (db, r.1)
        ≡ (ok report, next)
      → (any (unlisted account_id (map to_ascii_lowercase names)) next.0.mailboxes ≡ false)
        × (report.mailboxes_synced ≡ length names)
  listed_account (err e, u) db names report next answer run = absurd cc
  listed_account (ok found, u) db names report next answer run =
      let closed =
        close_account collates account_id (map to_ascii_lowercase found) report next
          (sync_listed collates sha256_hex mirror now account_id found
            (record { mailboxes_synced = 0; messages_synced = 0 }) (db, u))
          run in
      subst
        (λ names.
          (any (unlisted account_id (map to_ascii_lowercase names)) next.0.mailboxes ≡ false)
          × (report.mailboxes_synced ≡ length names))
        (ground (arith, answer))
        (
          closed.0,
          ground (
            arith,
            sync_listed-length found (record { mailboxes_synced = 0; messages_synced = 0 }) report
                (db, u) closed.1,
          ),
        )

-- What the lock manager answers when the lock is to be had; without a manager it always is.
abbrev pub IsFree : {U : Type 0} → Option (Locks U) → ℤ → U → Type 0
IsFree none account_id u = Unit
IsFree (some locks) account_id u =
    (token : Text) × ((locks.acquire (lock_key account_id) 600 u).0 ≡ ok (some token))

abbrev IsListed : ℤ → List Text → List Mailbox → SyncRunReport → Type 0
IsListed account_id names mailboxes report =
    (any (unlisted account_id (map to_ascii_lowercase names)) mailboxes ≡ false)
    × (report.mailboxes_synced ≡ length names)

module _ {U : Type 0} (collates : Text → Text → Bool) (sha256_hex : Text → Text) (mirror : Mirror U)
    (now : ℕ) (account_id : ℤ) (names : List Text) (report : SyncRunReport)
    (answers : (u : U) → (mirror.list_mailboxes u).0 ≡ ok names) where
  sync_mailboxes-IsListed :
      (s : Db × U)
      → (sync_mailboxes collates sha256_hex mirror now account_id s).0 ≡ ok report
      → IsListed account_id names
          (sync_mailboxes collates sha256_hex mirror now account_id s).1.0.mailboxes
          report
  unfolding sync_mailboxes
  sync_mailboxes-IsListed (db, u) run =
      listed_account collates sha256_hex mirror now account_id (mirror.list_mailboxes u) db names
        report (sync_mailboxes collates sha256_hex mirror now account_id (db, u)).1 (answers u)
        (ap (λ r. (r, (sync_mailboxes collates sha256_hex mirror now account_id (db, u)).1)) run)

  sync_locked-IsListed :
      (locks : Locks U) (db : Db) (token : Text) (r : Result (Option Text) × U)
      → r.0 ≡ ok (some token)
      → (J.and_then r.0 (sync_locked collates sha256_hex mirror now locks account_id) (db, r.1)).0
        ≡ ok report
      → IsListed account_id names
          (J.and_then r.0
            (sync_locked collates sha256_hex mirror now locks account_id)
            (db, r.1)).1.0.mailboxes
          report
  unfolding sync_locked
  sync_locked-IsListed locks db token (err e, u) granted run = absurd cc
  sync_locked-IsListed locks db token (ok none, u) granted run = ground (arith, granted)
  sync_locked-IsListed locks db token (ok (some given), u) granted run =
      sync_mailboxes-IsListed (db, u) run

  sync_with_lock-IsListed :
      (locks : Option (Locks U)) (s : Db × U)
      → IsFree locks account_id s.1
      → (sync_with_lock collates sha256_hex mirror now locks account_id s).0 ≡ ok report
      → IsListed account_id names
          (sync_with_lock collates sha256_hex mirror now locks account_id s).1.0.mailboxes
          report
  unfolding sync_with_lock
  sync_with_lock-IsListed none s free run = sync_mailboxes-IsListed s run
  sync_with_lock-IsListed (some locks) (db, u) (token, granted) run =
      sync_locked-IsListed locks db token (locks.acquire (lock_key account_id) 600 u) granted run

-- A run of an account that is there and enabled.
sync_account_enabled :
    {U : Type 0} (collates : Text → Text → Bool) (sha256_hex : Text → Text) (mirror : Mirror U)
    (now : ℕ) (locks : Option (Locks U)) (account_id : ℤ) (account : MailAccount) (s : Db × U)
    → find_account_by_id_any_state account_id s.0 ≡ some account
    → is_disabled account ≡ false
    → sync_account collates sha256_hex mirror now locks account_id s
      ≡ record_outcome collates sha256_hex mirror now account_id
          (sync_with_lock collates sha256_hex mirror now locks account_id s)
unfolding sync_account sync_found
sync_account_enabled collates sha256_hex mirror now locks account_id account s there enabled =
    rw (there, enabled) refl

-- A synchronisation that succeeds, of an account that is there and enabled and whose lock is free, on a
-- server that lists the same names whenever it is asked, leaves the account no mailbox that the server
-- did not list, up to the case of ASCII letters, and reports as many mailboxes as the server listed.
pub sync_account-is_listed :
    {U : Type 0} (collates : Text → Text → Bool) (sha256_hex : Text → Text) (mirror : Mirror U)
    (now : ℕ) (locks : Option (Locks U)) (account_id : ℤ) (account : MailAccount)
    (names : List Text) (report : SyncRunReport) (s next : Db × U)
    → find_account_by_id_any_state account_id s.0 ≡ some account
    → is_disabled account ≡ false
    → IsFree locks account_id s.1
    → ((u : U) → (mirror.list_mailboxes u).0 ≡ ok names)
    → sync_account collates sha256_hex mirror now locks account_id s ≡ (ok report, next)
    → (any
          (λ row.
            eqb_ℤ row.account_id account_id && not (is_listed (map to_ascii_lowercase names) row))
          next.0.mailboxes
        ≡ false)
      × (report.mailboxes_synced ≡ length names)
unfolding record_outcome set_mail_account_sync_status
sync_account-is_listed {U} collates sha256_hex mirror now locks account_id account names report s
      next there enabled free answers run =
    let recorded =
      sym (
        sync_account_enabled collates sha256_hex mirror now locks account_id account s there
          enabled)
      ∙ run in
    subst (λ mailboxes. IsListed account_id names mailboxes report)
      (ap (λ (r : Result SyncRunReport × (Db × U)). r.1.0.mailboxes) recorded)
      (sync_with_lock-IsListed collates sha256_hex mirror now account_id names report answers locks
        s free (ap (λ (r : Result SyncRunReport × (Db × U)). r.0) recorded))
