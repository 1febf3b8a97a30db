-- ===== src/Db.antt =====
-- crates/db/src/repository.rs: the tables of the database that the modelled queries read and write,
-- and how a handler runs a query. A row that is inserted goes to the end of its table with the next
-- number of the table's `BIGSERIAL`.
pub mod Mailboxes
pub mod Messages
pub mod Mutations
pub mod Sessions
pub mod Contents
pub mod SyncStates
pub mod Upsert
pub mod UidMappings
pub mod Accounts
use imapped_lightmode.Base.{ℕ, Option, none, some, List, Result, ok, err, Error, external}
use imapped_lightmode.Text.{lit}
use imapped_lightmode.Domain.Records.{
  Mailbox, MailboxMessage, PendingMutation, SessionRecord, UidMapping, Message, MimePart, Quota,
  SyncState, MailAccount,
}

pub record Db : Type 0 where
  pub mail_accounts : List MailAccount
  pub mailboxes : List Mailbox
  pub messages : List MailboxMessage
  pub mutations : List PendingMutation
  pub sessions : List SessionRecord
  pub uid_mappings : List UidMapping
  pub contents : List Message
  pub mime_parts : List MimePart
  pub quotas : List Quota
  pub sync_states : List SyncState
  pub next_mailbox_id : ℕ
  pub next_message_row_id : ℕ
  pub next_mutation_id : ℕ
  pub next_content_id : ℕ

-- `()`.
pub data Done : Type 0 where
  done : Done

-- What an `INSERT` that breaks a unique index, and a `fetch_one` without a row, are turned into.
abbrev pub unique_violation : Error
unique_violation = external (lit "duplicate key value violates unique constraint")

abbrev pub row_not_found : Error
row_not_found =
    external (lit "no rows returned by a query that expected to return at least one row")

-- A function that talks to the database: what was written before an error stays written.
abbrev pub Action {ℓ} : Type ℓ → Type ℓ
Action A = Db → Result A × Db

-- A transaction, which an error rolls back.
abbrev pub Transaction {ℓ} : Type ℓ → Type ℓ
Transaction A = Db → Result (A × Db)

module _ {ℓ} {A : Type ℓ} where
  abbrev pub pure : A → Action A
  pure a db = (ok a, db)

  abbrev pub raise : Error → Action A
  raise e db = (err e, db)

  abbrev pub query : (Db → A) → Action A
  query f db = (ok (f db), db)

  abbrev pub committed : Result (A × Db) → Db → Result A × Db
  committed (err e) db = (err e, db)
  committed (ok (a, next)) db = (ok a, next)

  abbrev pub commit : Transaction A → Action A
  commit f db = committed (f db) db

  abbrev pub lift : Result A → Action A
  lift r db = (r, db)

infixl 5 ◌>>=◌ ◌>>◌
-- `?` behind a call.
abbrev pub and_then {ℓ κ} : {A : Type ℓ} {B : Type κ} → Result A → (A → Action B) → Action B
and_then (err e) f db = (err e, db)
and_then (ok a) f db = f a db

abbrev pub ◌>>=◌ {ℓ κ} : {A : Type ℓ} {B : Type κ} → Action A → (A → Action B) → Action B
◌>>=◌ m f db = and_then (m db).0 f (m db).1

abbrev pub ◌>>◌ {ℓ κ} : {A : Type ℓ} {B : Type κ} → Action A → Action B → Action B
m >> k = m >>= λ _. k
