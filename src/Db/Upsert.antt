-- ===== src/Db/Upsert.antt =====
-- crates/db/src/repository.rs: `upsert_mailbox` and `upsert_mailbox_message`. The events that they
-- publish are left out. That the content of a message is there, which a foreign key asks for, is taken
-- for granted.
use imapped_lightmode.Base.{
  suc, Bool, false, not, ◌&&◌, Option, none, some, [], ◌∷◌, ◌++◌, map, if◌then◌else◌, any, retain,
  Result, ok, err, ◌>>=◌,
}
use imapped_lightmode.Base.Int.{ℤ, pos, eqb_ℤ}
use imapped_lightmode.Domain.Records.{Mailbox, MailboxMessage}
use imapped_lightmode.Db as D
use imapped_lightmode.Db.{Db, Transaction, Action, Done, done, commit, pure, unique_violation}
use imapped_lightmode.Db.Mailboxes.{same_key, head}
use imapped_lightmode.Db.Messages.{assign_mailbox_local_uid, assign_mailbox_modseq, head_message}
use imapped_lightmode.Db.UidMappings.{mailbox_uidvalidity, upsert_uid_mapping, has_upstream_uid}

-- `ON CONFLICT (account_id, canonical_name) DO UPDATE`.
abbrev pub overwrite_mailbox : Mailbox → Mailbox → Mailbox
overwrite_mailbox input row = record input {
  id = row.id;
  account_id = row.account_id;
  canonical_name = row.canonical_name;
}

abbrev or_new : Mailbox → Option Mailbox → Mailbox
or_new row none = row
or_new row (some old) = old

unfoldable pub upsert_mailbox : Mailbox → Db → Mailbox × Db
unfolding same_key head
upsert_mailbox input db =
    let row = record input { id = pos db.next_mailbox_id } in
    let old = retain (same_key input) db.mailboxes in
    (
      or_new row (head (map (overwrite_mailbox input) old)),
      record db {
        mailboxes =
            if any (same_key input) db.mailboxes
            then map
                (λ other. if same_key input other then overwrite_mailbox input other else other)
                db.mailboxes
            else db.mailboxes ++ row ∷ [];
        next_mailbox_id = suc db.next_mailbox_id;
      },
    )

-- The unique index on `mailbox_id` and `local_uid`, which expunged rows are in too.
unfoldable pub same_place : MailboxMessage → MailboxMessage → Bool
same_place input other =
    eqb_ℤ other.mailbox_id input.mailbox_id && eqb_ℤ other.local_uid input.local_uid

-- The unique index on `mailbox_id` and `upstream_uid`, for a row that is not `input`'s.
unfoldable pub same_source : MailboxMessage → MailboxMessage → Bool
unfolding same_place has_upstream_uid
same_source input other = elim input.upstream_uid [
  | none ↦ false
  | some upstream_uid ↦
      not (same_place input other)
      && eqb_ℤ other.mailbox_id input.mailbox_id
      && has_upstream_uid upstream_uid other.upstream_uid
]

-- `ON CONFLICT (mailbox_id, local_uid) DO UPDATE`.
abbrev pub overwrite_message : MailboxMessage → MailboxMessage → MailboxMessage
overwrite_message input row = record input { id = row.id }

abbrev or_message : MailboxMessage → Option MailboxMessage → MailboxMessage
or_message row none = row
or_message row (some old) = old

unfoldable pub upsert_row : MailboxMessage → Transaction MailboxMessage
unfolding same_place same_source head_message
upsert_row input db =
    let row = record input { id = pos db.next_message_row_id } in
    let old = retain (same_place input) db.messages in
    if any (same_source input) db.messages
    then err unique_violation
    else ok (
      or_message row (head_message (map (overwrite_message input) old)),
      record db {
        messages =
            if any (same_place input) db.messages
            then map
                (λ other. if same_place input other then overwrite_message input other else other)
                db.messages
            else db.messages ++ row ∷ [];
        next_message_row_id = suc db.next_message_row_id;
      },
    )

unfoldable pub uid_for : MailboxMessage → Db → Result ℤ
unfolding assign_mailbox_local_uid
uid_for input db =
    if eqb_ℤ input.local_uid (pos 0)
    then assign_mailbox_local_uid input.mailbox_id db
    else ok input.local_uid

-- The transaction: the UID and the modification sequence, then the row.
unfoldable pub write_message : MailboxMessage → Transaction MailboxMessage
unfolding uid_for assign_mailbox_modseq upsert_row
write_message input db = uid_for input db >>= λ local_uid.
    assign_mailbox_modseq input.mailbox_id input.modseq db >>= λ assigned.
    upsert_row (record input { local_uid = local_uid; modseq = some assigned.0 }) assigned.1

-- Behind the transaction: the mapping of a message that has an upstream UID.
unfoldable pub map_message : Option ℤ → MailboxMessage → Action Done
unfolding upsert_uid_mapping mailbox_uidvalidity
map_message none row db = pure done db
map_message (some upstream_uid) row db =
    commit
      (upsert_uid_mapping (record {
        mailbox_id = row.mailbox_id;
        local_uid = row.local_uid;
        upstream_uid = upstream_uid;
        upstream_uidvalidity = mailbox_uidvalidity row.mailbox_id db;
      }))
      db

unfoldable pub upsert_mailbox_message : MailboxMessage → Action MailboxMessage
unfolding write_message map_message
upsert_mailbox_message input =
    D.◌>>=◌ (commit (write_message input))
      λ row. D.◌>>=◌ (map_message row.upstream_uid row) λ result. pure row
