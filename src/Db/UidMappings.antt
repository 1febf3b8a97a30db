-- ===== src/Db/UidMappings.antt =====
-- crates/db/src/repository.rs: which UID a message has upstream, in the columns `upstream_uid` of
-- `mailbox_messages` and of `uid_mappings`. The indexes are of migrations/0001_initial.sql.
use imapped_lightmode.Base.{
  Bool, false, not, ◌&&◌, Option, none, some, List, [], ◌∷◌, ◌++◌, map, if◌then◌else◌, any, retain,
  Error, external, Result, ok, err,
}
use imapped_lightmode.Base.Int.{ℤ, pos, eqb_ℤ}
use imapped_lightmode.Text.{lit}
use imapped_lightmode.Domain.Records.{Mailbox, MailboxMessage, UidMapping}
use imapped_lightmode.Db.{Db, Done, done, Transaction, unique_violation}
use imapped_lightmode.Db.Mailboxes.{with_id, head}
use imapped_lightmode.Db.Messages.{is_at, head_message}

unfoldable pub uidvalidity_or_1 : Option Mailbox → ℤ
uidvalidity_or_1 none = pos 1
uidvalidity_or_1 (some row) = elim row.uidvalidity [ some n ↦ n | none ↦ pos 1 ]

unfoldable pub mailbox_uidvalidity : ℤ → Db → ℤ
unfolding uidvalidity_or_1 head with_id
mailbox_uidvalidity mailbox_id db =
    uidvalidity_or_1 (head (retain (with_id mailbox_id) db.mailboxes))

abbrev pub same_local : UidMapping → UidMapping → Bool
same_local row other = eqb_ℤ row.mailbox_id other.mailbox_id && eqb_ℤ row.local_uid other.local_uid

-- The row of the same message is overwritten; `upstream_uid` is unique in a mailbox.
unfoldable pub upsert_uid_mapping : UidMapping → Transaction Done
upsert_uid_mapping row db =
    let others = retain (λ other. not (same_local row other)) db.uid_mappings in
    if any
      (λ other. eqb_ℤ other.mailbox_id row.mailbox_id && eqb_ℤ other.upstream_uid row.upstream_uid)
      others
    then err unique_violation
    else ok (
      done,
      record db {
        uid_mappings =
            if any (same_local row) db.uid_mappings
            then map (λ other. if same_local row other then row else other) db.uid_mappings
            else db.uid_mappings ++ row ∷ [];
      },
    )

unfoldable pub has_upstream_uid : ℤ → Option ℤ → Bool
has_upstream_uid n none = false
has_upstream_uid n (some m) = eqb_ℤ m n

abbrev pub set_upstream_uid : ℤ → MailboxMessage → MailboxMessage
set_upstream_uid upstream_uid m = record m { upstream_uid = some upstream_uid }

-- The first statement, with the unique index on `mailbox_id` and `upstream_uid`.
unfoldable pub write_upstream_uid : ℤ → ℤ → ℤ → Transaction (Option MailboxMessage)
unfolding head_message is_at has_upstream_uid
write_upstream_uid mailbox_id local_uid upstream_uid db =
    let found = retain (is_at mailbox_id local_uid) db.messages in
    let others = retain (λ m. not (is_at mailbox_id local_uid m)) db.messages in
    if any (is_at mailbox_id local_uid) db.messages
      && any (λ m. eqb_ℤ m.mailbox_id mailbox_id && has_upstream_uid upstream_uid m.upstream_uid)
          others
    then err unique_violation
    else ok (
      head_message (map (set_upstream_uid upstream_uid) found),
      record db {
        messages =
            map (λ m. if is_at mailbox_id local_uid m then set_upstream_uid upstream_uid m else m)
              db.messages;
      },
    )

-- The second statement, which follows when there was a message.
unfoldable pub map_upstream_uid : ℤ → ℤ → ℤ → Option MailboxMessage × Db → Result (Done × Db)
unfolding upsert_uid_mapping mailbox_uidvalidity
map_upstream_uid mailbox_id local_uid upstream_uid (none, db) = ok (done, db)
map_upstream_uid mailbox_id local_uid upstream_uid (some m, db) =
    upsert_uid_mapping
      (record {
        mailbox_id = mailbox_id;
        local_uid = local_uid;
        upstream_uid = upstream_uid;
        upstream_uidvalidity = mailbox_uidvalidity mailbox_id db;
      })
      db

unfoldable pub keep_written : Db → Result (Done × Db) → Result Done × Db
keep_written db (err e) = (err e, db)
keep_written db (ok (result, next)) = (ok result, next)

unfoldable pub after_write : ℤ → ℤ → ℤ → Db → Result (Option MailboxMessage × Db) → Result Done × Db
unfolding map_upstream_uid keep_written
after_write mailbox_id local_uid upstream_uid db (err e) = (err e, db)
after_write mailbox_id local_uid upstream_uid db (ok (found, next)) =
    keep_written next (map_upstream_uid mailbox_id local_uid upstream_uid (found, next))

-- The two statements are no transaction: when the second fails the first stays. Its callers use no
-- value of it.
unfoldable pub set_mailbox_message_upstream_uid : ℤ → ℤ → ℤ → Db → Result Done × Db
unfolding after_write write_upstream_uid
set_mailbox_message_upstream_uid mailbox_id local_uid upstream_uid db =
    after_write mailbox_id local_uid upstream_uid db
      (write_upstream_uid mailbox_id local_uid upstream_uid db)

-- What reading a null into an `i64` is turned into.
abbrev pub unexpected_null : Error
unexpected_null = external (lit "unexpected null; try decoding as an `Option`")

unfoldable pub head_mapping : List UidMapping → Option ℤ
head_mapping [] = none
head_mapping (row ∷ rows) = some row.upstream_uid

-- A message without `upstream_uid` is an error; without a message the mapping is asked.
unfoldable pub upstream_uid_found : Option ℤ → Option MailboxMessage → Result (Option ℤ)
upstream_uid_found mapped none = ok mapped
upstream_uid_found mapped (some m) = elim m.upstream_uid [
  | some n ↦ ok (some n)
  | none ↦ err unexpected_null
]

unfoldable pub upstream_uid_for_mailbox_message : ℤ → ℤ → Db → Result (Option ℤ)
unfolding upstream_uid_found head_mapping head_message is_at mailbox_uidvalidity
upstream_uid_for_mailbox_message mailbox_id local_uid db =
    upstream_uid_found
      (head_mapping (
        retain
          (λ row.
            eqb_ℤ row.mailbox_id mailbox_id
            && (eqb_ℤ row.local_uid local_uid
                && eqb_ℤ row.upstream_uidvalidity (mailbox_uidvalidity mailbox_id db)))
          db.uid_mappings))
      (head_message (retain (is_at mailbox_id local_uid) db.messages))
