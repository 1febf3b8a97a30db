-- ===== src/Db/Mailboxes.antt =====
-- crates/db/src/repository.rs: the queries on the table `mailboxes`. The index on `account_id` and
-- `canonical_name` is of migrations/0001_initial.sql.
use imapped_lightmode.Base.{
  ℕ, suc, Bool, true, false, not, ◌&&◌, ◌||◌, Option, none, some, List, [], ◌∷◌, ◌++◌, map,
  if◌then◌else◌, any, retain, length, ok, err,
}
use imapped_lightmode.Base.Int.{ℤ, pos, leb_ℤ, eqb_ℤ}
use imapped_lightmode.Text.{Text, eq}
use imapped_lightmode.Text.Case.{to_ascii_lowercase}
use imapped_lightmode.Domain.Records.{Mailbox}
use imapped_lightmode.Db.{Db, Transaction, unique_violation}

-- `account_id = $1 AND (name = $2 OR canonical_name = $3)`, with the lower case name for `$3`.
unfoldable pub is_named : ℤ → Text → Mailbox → Bool
is_named account_id name row =
    eqb_ℤ row.account_id account_id
    && (eq row.name name || eq row.canonical_name (to_ascii_lowercase name))

-- `ORDER BY id DESC LIMIT 1`.
unfoldable pub newest : List Mailbox → Option Mailbox
newest [] = none
newest (row ∷ rows) = elim (newest rows) [
  | none ↦ some row
  | some best ↦ some (if leb_ℤ row.id best.id then best else row)
]

unfoldable pub find_mailbox : ℤ → Text → Db → Option Mailbox
unfolding newest is_named
find_mailbox account_id name db = newest (retain (is_named account_id name) db.mailboxes)

-- `ORDER BY canonical_name ASC, id ASC`, where the collation of the database compares the names.
module _ (collates : Text → Text → Bool) where
  unfoldable pub insert_mailbox : Mailbox → List Mailbox → List Mailbox
  insert_mailbox row [] = row ∷ []
  insert_mailbox row (other ∷ rows) =
      if collates row.canonical_name other.canonical_name
        && (not (eq row.canonical_name other.canonical_name) || leb_ℤ row.id other.id)
      then row ∷ other ∷ rows
      else other ∷ insert_mailbox row rows

  unfoldable pub order_mailboxes : List Mailbox → List Mailbox
  unfolding insert_mailbox
  order_mailboxes [] = []
  order_mailboxes (row ∷ rows) = insert_mailbox row (order_mailboxes rows)

  -- `Some(false)` does as `None`.
  unfoldable pub list_mailboxes : ℤ → Option Bool → Db → List Mailbox
  unfolding order_mailboxes
  list_mailboxes account_id (some true) db =
      order_mailboxes
        (retain (λ row. eqb_ℤ row.account_id account_id && row.subscribed) db.mailboxes)
  list_mailboxes account_id (some false) db =
      order_mailboxes (retain (λ row. eqb_ℤ row.account_id account_id) db.mailboxes)
  list_mailboxes account_id none db =
      order_mailboxes (retain (λ row. eqb_ℤ row.account_id account_id) db.mailboxes)

unfoldable pub same_key : Mailbox → Mailbox → Bool
same_key row other =
    eqb_ℤ row.account_id other.account_id && eq row.canonical_name other.canonical_name

-- Whether the unique index holds.
unfoldable pub keys_unique : List Mailbox → Bool
unfolding same_key
keys_unique [] = true
keys_unique (row ∷ rows) = not (any (same_key row) rows) && keys_unique rows

-- The row gets the next id, whatever the id of `input` is. A conflict uses up a number too, which no
-- modelled query reads.
unfoldable pub create_mailbox : Mailbox → Db → Option Mailbox × Db
unfolding same_key
create_mailbox input db =
    let row = record input { id = pos db.next_mailbox_id } in
    if any (same_key input) db.mailboxes
    then (none, record db { next_mailbox_id = suc db.next_mailbox_id })
    else (
      some row,
      record db { mailboxes = db.mailboxes ++ row ∷ []; next_mailbox_id = suc db.next_mailbox_id },
    )

unfoldable pub is_state_of : Option ℤ → Mailbox → Bool
is_state_of none row = false
is_state_of (some mailbox_id) row = eqb_ℤ mailbox_id row.id

-- The number of rows, and without what the mailboxes have in other tables, which is deleted in cascade.
unfoldable pub delete_mailbox : ℤ → Text → Db → ℕ × Db
unfolding is_named is_state_of
delete_mailbox account_id name db =
    let gone = retain (is_named account_id name) db.mailboxes in
    (
      length gone,
      record db {
        mailboxes = retain (λ row. not (is_named account_id name row)) db.mailboxes;
        messages = retain (λ m. not (any (λ row. eqb_ℤ m.mailbox_id row.id) gone)) db.messages;
        mutations = retain (λ m. not (any (λ row. eqb_ℤ m.mailbox_id row.id) gone)) db.mutations;
        uid_mappings =
            retain (λ m. not (any (λ row. eqb_ℤ m.mailbox_id row.id) gone)) db.uid_mappings;
        sync_states = retain (λ s. not (any (is_state_of s.mailbox_id) gone)) db.sync_states;
      },
    )

unfoldable pub head : List Mailbox → Option Mailbox
head [] = none
head (row ∷ rows) = some row

-- `UPDATE mailboxes SET … WHERE …`, for the rows that `test` holds of.
unfoldable pub update_mailboxes : (Mailbox → Bool) → (Mailbox → Mailbox) → Db → Db
update_mailboxes test change db = record db {
  mailboxes = map (λ row. if test row then change row else row) db.mailboxes;
}

abbrev pub rename : Text → Mailbox → Mailbox
rename new_name row = record row { name = new_name; canonical_name = to_ascii_lowercase new_name }

unfoldable pub rename_mailbox : ℤ → Text → Text → Transaction (Option Mailbox)
unfolding find_mailbox is_named update_mailboxes keys_unique head
rename_mailbox account_id name new_name db =
    let next = update_mailboxes (is_named account_id name) (rename new_name) db in
    let row = head (map (rename new_name) (retain (is_named account_id name) db.mailboxes)) in
    elim (find_mailbox account_id new_name db) [
      | some taken ↦ ok (none, db)
      | none ↦ if keys_unique next.mailboxes then ok (row, next) else err unique_violation
    ]

abbrev pub subscribe : Bool → Mailbox → Mailbox
subscribe subscribed row = record row { subscribed = subscribed }

unfoldable pub set_mailbox_subscribed : ℤ → Text → Bool → Db → Option Mailbox × Db
unfolding is_named update_mailboxes head
set_mailbox_subscribed account_id name subscribed db = (
  head (map (subscribe subscribed) (retain (is_named account_id name) db.mailboxes)),
  update_mailboxes (is_named account_id name) (subscribe subscribed) db,
)

unfoldable pub with_id : ℤ → Mailbox → Bool
with_id mailbox_id row = eqb_ℤ row.id mailbox_id

-- `account_id_for_mailbox`.
unfoldable pub account_id_of : Option Mailbox → Option ℤ
account_id_of none = none
account_id_of (some row) = some row.account_id

unfoldable pub account_id_for_mailbox : ℤ → Db → Option ℤ
unfolding account_id_of head with_id
account_id_for_mailbox mailbox_id db =
    account_id_of (head (retain (with_id mailbox_id) db.mailboxes))
