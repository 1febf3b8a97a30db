-- ===== src/Db/Accounts.antt =====
-- crates/db/src/repository.rs: the account of a synchronisation, and the record of its outcome. The columns
-- that `MailAccount` leaves out are taken to convert.
use imapped_lightmode.Base.{
  ℕ, Option, none, some, List, [], ◌∷◌, map, retain, length, if◌then◌else◌,
}
use imapped_lightmode.Base.Int.{ℤ, eqb_ℤ}
use imapped_lightmode.Text.{Text}
use imapped_lightmode.Domain.Records.{MailAccount}
use imapped_lightmode.Db.{Db}

unfoldable pub first_account : List MailAccount → Option MailAccount
first_account [] = none
first_account (account ∷ accounts) = some account

unfoldable pub find_account_by_id_any_state : ℤ → Db → Option MailAccount
unfolding first_account
find_account_by_id_any_state account_id db =
    first_account (retain (λ account. eqb_ℤ account.id account_id) db.mail_accounts)

-- The number of rows, and the database.
unfoldable pub set_mail_account_sync_status : ℤ → Option ℕ → Option Text → Db → ℕ × Db
set_mail_account_sync_status account_id last_sync_at last_sync_error db = (
  length (retain (λ account. eqb_ℤ account.id account_id) db.mail_accounts),
  record db {
    mail_accounts =
        map
          (λ account.
            if eqb_ℤ account.id account_id
            then record account { last_sync_at = last_sync_at; last_sync_error = last_sync_error }
            else account)
          db.mail_accounts;
  },
)
