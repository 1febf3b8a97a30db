-- ===== src/Db/Messages.antt =====
-- crates/db/src/repository.rs: the queries on the table `mailbox_messages`, with the counters of a
-- mailbox. The reference counts of cached objects and the events that are published are left out.
pub mod Order
pub mod Delete
pub mod Remove
pub mod Purge
use imapped_lightmode.Base.{
  ℕ, suc, Bool, true, false, not, ◌&&◌, ◌-◌, ◌^◌, Option, none, some, List, [], ◌∷◌, ◌++◌, map,
  if◌then◌else◌, any, retain, length, Result, ok, err, ◌>>=◌,
}
use imapped_lightmode.Base.Int.{ℤ, pos, negsuc, leb_ℤ, eqb_ℤ, suc_ℤ}
use imapped_lightmode.Text.{Text, lit, eq}
use imapped_lightmode.Domain.Records.{Mailbox, MailboxMessage}
use imapped_lightmode.Db.{Db, Transaction, unique_violation, row_not_found}
use imapped_lightmode.Db.Mailboxes.{with_id, update_mailboxes, head}

-- `mailbox_id = $1 AND is_expunged = FALSE`.
unfoldable pub is_in : ℤ → MailboxMessage → Bool
is_in mailbox_id m = eqb_ℤ m.mailbox_id mailbox_id && not m.is_expunged

-- The same with `local_uid = $2`.
unfoldable pub is_at : ℤ → ℤ → MailboxMessage → Bool
is_at mailbox_id local_uid m = is_in mailbox_id m && eqb_ℤ m.local_uid local_uid

-- `ORDER BY local_uid ASC`.
unfoldable pub insert_message : MailboxMessage → List MailboxMessage → List MailboxMessage
insert_message m [] = m ∷ []
insert_message m (other ∷ rows) =
    if leb_ℤ m.local_uid other.local_uid then m ∷ other ∷ rows else other ∷ insert_message m rows

unfoldable pub order_messages : List MailboxMessage → List MailboxMessage
unfolding insert_message
order_messages [] = []
order_messages (m ∷ rows) = insert_message m (order_messages rows)

unfoldable pub list_mailbox_messages : ℤ → Db → List MailboxMessage
unfolding order_messages is_in
list_mailbox_messages mailbox_id db = order_messages (retain (is_in mailbox_id) db.messages)

-- `MAX(…)`.
unfoldable pub max_uid : List MailboxMessage → Option ℤ
max_uid [] = none
max_uid (m ∷ rows) = elim (max_uid rows) [
  | none ↦ some m.local_uid
  | some best ↦ some (if leb_ℤ m.local_uid best then best else m.local_uid)
]

unfoldable pub next_uid : Option ℤ → ℤ
next_uid none = pos 1
next_uid (some greatest) = suc_ℤ greatest

-- The query fails without a row of the mailbox.
unfoldable pub assign_mailbox_local_uid : ℤ → Db → Result ℤ
unfolding with_id is_in max_uid next_uid
assign_mailbox_local_uid mailbox_id db =
    if any (with_id mailbox_id) db.mailboxes
    then ok (next_uid (max_uid (retain (is_in mailbox_id) db.messages)))
    else err row_not_found

-- `saturating_add(1)`.
unfoldable pub saturating_suc : ℤ → ℤ
saturating_suc n = if eqb_ℤ n (pos (2 ^ 63 - 1)) then n else suc_ℤ n

unfoldable pub unwrap_or_0 : Option ℤ → ℤ
unwrap_or_0 none = pos 0
unwrap_or_0 (some n) = n

unfoldable pub next_modseq : ℤ → Option ℤ → ℤ
unfolding saturating_suc
next_modseq current none =
    let next = saturating_suc current in if leb_ℤ current next then next else current
next_modseq current (some requested) = if leb_ℤ current requested then requested else current

abbrev pub set_modseq : ℤ → Mailbox → Mailbox
set_modseq next row = record row { highestmodseq = some next }

unfoldable pub assign_in_row : ℤ → Option ℤ → Db → Option Mailbox → Result (ℤ × Db)
unfolding next_modseq unwrap_or_0 update_mailboxes with_id
assign_in_row mailbox_id requested db none = err row_not_found
assign_in_row mailbox_id requested db (some row) =
    let current = unwrap_or_0 row.highestmodseq in
    let next = next_modseq current requested in
    ok (
      next,
      if eqb_ℤ next current then db else update_mailboxes (with_id mailbox_id) (set_modseq next) db,
    )

unfoldable pub assign_mailbox_modseq : ℤ → Option ℤ → Transaction ℤ
unfolding assign_in_row head with_id
assign_mailbox_modseq mailbox_id requested db =
    assign_in_row mailbox_id requested db (head (retain (with_id mailbox_id) db.mailboxes))

unfoldable pub head_message : List MailboxMessage → Option MailboxMessage
head_message [] = none
head_message (m ∷ rows) = some m

abbrev pub set_flags : List Text → ℤ → MailboxMessage → MailboxMessage
set_flags flags modseq m = record m { flags = flags; modseq = some modseq }

unfoldable pub write_flags : ℤ → ℤ → List Text → ℤ × Db → Result (Option MailboxMessage × Db)
unfolding is_at head_message
write_flags mailbox_id local_uid flags (modseq, db) = ok (
  head_message (map (set_flags flags modseq) (retain (is_at mailbox_id local_uid) db.messages)),
  record db {
    messages =
        map (λ m. if is_at mailbox_id local_uid m then set_flags flags modseq m else m) db.messages;
  },
)

unfoldable pub update_mailbox_message_flags :
    ℤ → ℤ → List Text → Transaction (Option MailboxMessage)
unfolding assign_mailbox_modseq write_flags
update_mailbox_message_flags mailbox_id local_uid flags db =
    assign_mailbox_modseq mailbox_id none db >>= write_flags mailbox_id local_uid flags

-- The unique index on `mailbox_id` and `local_uid`, which expunged rows are in too.
unfoldable pub insert_row : MailboxMessage → Transaction MailboxMessage
insert_row m db =
    let row = record m { id = pos db.next_message_row_id } in
    if any (λ other. eqb_ℤ other.mailbox_id m.mailbox_id && eqb_ℤ other.local_uid m.local_uid)
      db.messages
    then err unique_violation
    else ok (
      row,
      record db {
        messages = db.messages ++ row ∷ [];
        next_message_row_id = suc db.next_message_row_id;
      },
    )

abbrev pub copied_row : ℤ → MailboxMessage → ℤ → ℤ → MailboxMessage
copied_row destination_mailbox_id source local_uid modseq = record source {
  mailbox_id = destination_mailbox_id;
  local_uid = local_uid;
  upstream_uid = none;
  modseq = some modseq;
  is_expunged = false;
}

abbrev pub found : MailboxMessage × Db → Result (Option MailboxMessage × Db)
found (row, db) = ok (some row, db)

unfoldable pub copy_found : ℤ → Db → Option MailboxMessage → Result (Option MailboxMessage × Db)
unfolding assign_mailbox_local_uid assign_mailbox_modseq insert_row
copy_found destination_mailbox_id db none = ok (none, db)
copy_found destination_mailbox_id db (some source) =
    assign_mailbox_local_uid destination_mailbox_id db >>= λ uid.
    assign_mailbox_modseq destination_mailbox_id none db >>= λ assigned.
    insert_row (copied_row destination_mailbox_id source uid assigned.0) assigned.1 >>= found

-- Behind the transaction the account of the destination is looked up, which `assign_mailbox_modseq` has
-- shown to be there.
unfoldable pub copy_mailbox_message : ℤ → ℤ → ℤ → Transaction (Option MailboxMessage)
unfolding copy_found head_message is_at
copy_mailbox_message source_mailbox_id destination_mailbox_id source_local_uid db =
    copy_found destination_mailbox_id db
      (head_message (retain (is_at source_mailbox_id source_local_uid) db.messages))

-- The rows that a `DELETE … WHERE mailbox_id = $1 AND local_uid = $2 AND is_expunged = FALSE` leaves.
unfoldable pub remove_rows : ℤ → ℤ → ℤ × Db → Result (ℕ × Db)
unfolding is_at
remove_rows mailbox_id local_uid (modseq, db) = ok (
  length (retain (is_at mailbox_id local_uid) db.messages),
  record db { messages = retain (λ m. not (is_at mailbox_id local_uid m)) db.messages },
)

unfoldable pub delete_mailbox_message : ℤ → ℤ → Transaction ℕ
unfolding assign_mailbox_modseq remove_rows is_at
delete_mailbox_message mailbox_id local_uid db =
    if any (is_at mailbox_id local_uid) db.messages
    then assign_mailbox_modseq mailbox_id none db >>= remove_rows mailbox_id local_uid
    else ok (0, db)

-- `NOT ('\\Seen' = ANY(flags))`: in an SQL literal of a raw Rust string `'\\Seen'` has two
-- backslashes.
abbrev pub unseen : MailboxMessage → Bool
unseen m = not (any (λ flag. eq flag (lit "\\\\Seen")) m.flags)

abbrev pub set_counts : ℕ → ℕ → Mailbox → Mailbox
set_counts exists_count unseen_count row = record row {
  exists_count = pos exists_count;
  unseen_count = pos unseen_count;
}

unfoldable pub refresh_mailbox_counts : ℤ → Db → Db
unfolding is_in update_mailboxes with_id
refresh_mailbox_counts mailbox_id db =
    let rows = retain (is_in mailbox_id) db.messages in
    update_mailboxes (with_id mailbox_id) (set_counts (length rows) (length (retain unseen rows)))
      db
