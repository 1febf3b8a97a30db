-- ===== src/Db/Messages/Delete.antt =====
-- What `delete_mailbox_message` and `refresh_mailbox_counts` do to the list of a mailbox.
use imapped_lightmode.Base.{
  ℕ, ◌≡◌, refl, ap, sym, ◌∙◌, Bool, true, false, not, Option, none, some, List, [], ◌∷◌,
  if◌then◌else◌, any, retain, Bool-cases, inl, inr, ok, arith, map, length,
}
use imapped_lightmode.Base.Int.{ℤ, eqb_ℤ}
use imapped_lightmode.Domain.Records.{Mailbox, MailboxMessage}
use imapped_lightmode.Db.{Db}
use imapped_lightmode.Db.Mailboxes.{with_id, update_mailboxes, head}
use imapped_lightmode.Db.Messages.{
  is_in, is_at, order_messages, list_mailbox_messages, assign_mailbox_modseq, assign_in_row,
  set_modseq, remove_rows, delete_mailbox_message, next_modseq, unwrap_or_0,
}
use imapped_lightmode.Db.Messages.Order.{has_uid, without, retain-is_at, retain-order_messages}

abbrev pub is_there : ℤ → Db → Bool
is_there mailbox_id db = any (with_id mailbox_id) db.mailboxes

-- Setting the counter of a row leaves the rows' ids.
pub any-update_mailboxes :
    (id n : ℤ) (test : Mailbox → Bool) (rows : List Mailbox)
    → any (with_id id) (map (λ row. if test row then set_modseq n row else row) rows)
      ≡ any (with_id id) rows
unfolding with_id
any-update_mailboxes id n test [] = refl
any-update_mailboxes id n test (row ∷ rows) = ground (arith, any-update_mailboxes id n test rows)

head-any :
    (test : Mailbox → Bool) (rows : List Mailbox)
    → any test rows ≡ true
    → (row : Mailbox) × (head (retain test rows) ≡ some row)
unfolding head
head-any test [] h = ground arith
head-any test (row ∷ rows) h = elim (Bool-cases (test row)) [
  | inl t ↦ (row, rw t refl)
  | inr f ↦ let found = head-any test rows (ground (arith, h, f)) in (found.0, rw f found.1)
]

-- A counter is assigned, and nothing but the row's counter is changed.
pub record IsAssigned (mailbox_id : ℤ) (db next : Db) : Type 0 where
  pub same_messages : next.messages ≡ db.messages
  pub same_rows : is_there mailbox_id next ≡ is_there mailbox_id db

IsAssigned-db :
    (mailbox_id n : ℤ) (same : Bool) (db : Db)
    → IsAssigned mailbox_id db
        (if same then db else update_mailboxes (with_id mailbox_id) (set_modseq n) db)
unfolding update_mailboxes
IsAssigned-db mailbox_id n true db = record { same_messages = refl; same_rows = refl }
IsAssigned-db mailbox_id n false db = record {
  same_messages = refl;
  same_rows = any-update_mailboxes mailbox_id n (with_id mailbox_id) db.mailboxes;
}

assign_in_row-IsAssigned :
    (mailbox_id : ℤ) (requested : Option ℤ) (db : Db) (found : Option Mailbox) (row : Mailbox)
    → found ≡ some row
    → (n : ℤ) × (next : Db) × (assign_in_row mailbox_id requested db found ≡ ok (n, next))
      × IsAssigned mailbox_id db next
unfolding assign_in_row
assign_in_row-IsAssigned mailbox_id requested db none row h = ground arith
assign_in_row-IsAssigned mailbox_id requested db (some found) row h =
    let current = unwrap_or_0 found.highestmodseq in
    let n = next_modseq current requested in
    (
      n,
      (if eqb_ℤ n current then db else update_mailboxes (with_id mailbox_id) (set_modseq n) db),
      refl,
      IsAssigned-db mailbox_id n (eqb_ℤ n current) db,
    )

-- The counter of a mailbox that is there can be assigned.
pub assign_mailbox_modseq-IsAssigned :
    (mailbox_id : ℤ) (requested : Option ℤ) (db : Db)
    → is_there mailbox_id db ≡ true
    → (n : ℤ) × (next : Db) × (assign_mailbox_modseq mailbox_id requested db ≡ ok (n, next))
      × IsAssigned mailbox_id db next
unfolding assign_mailbox_modseq
assign_mailbox_modseq-IsAssigned mailbox_id requested db h =
    let (row, found) = head-any (with_id mailbox_id) db.mailboxes h in
    assign_in_row-IsAssigned mailbox_id requested db
      (head (retain (with_id mailbox_id) db.mailboxes)) row found

list-without :
    (mailbox_id n : ℤ) (ms : List MailboxMessage)
    → order_messages (retain (is_in mailbox_id) (retain (λ m. not (is_at mailbox_id n m)) ms))
      ≡ without n (order_messages (retain (is_in mailbox_id) ms))
list-without mailbox_id n ms =
    ap order_messages (retain-is_at mailbox_id n ms)
    ∙ sym (retain-order_messages (λ m. not (has_uid n m)) (retain (is_in mailbox_id) ms))

pub retain-none :
    (p : MailboxMessage → Bool) (ms : List MailboxMessage)
    → any p ms ≡ false
    → retain (λ m. not (p m)) ms ≡ ms
retain-none p [] h = refl
retain-none p (m ∷ ms) h = ground (arith, retain-none p ms)

-- The message of the UID is gone from the list, and the mailbox still there.
pub record IsDeleted (mailbox_id n : ℤ) (db next : Db) : Type 0 where
  pub listed :
      list_mailbox_messages mailbox_id next ≡ without n (list_mailbox_messages mailbox_id db)
  pub there : is_there mailbox_id next ≡ true

pub delete_mailbox_message-IsDeleted :
    (mailbox_id n : ℤ) (db : Db)
    → is_there mailbox_id db ≡ true
    → (rows : ℕ) × (next : Db) × (delete_mailbox_message mailbox_id n db ≡ ok (rows, next))
      × IsDeleted mailbox_id n db next
unfolding delete_mailbox_message remove_rows list_mailbox_messages
delete_mailbox_message-IsDeleted mailbox_id n db h =
    elim (Bool-cases (any (is_at mailbox_id n) db.messages)) [
      | inr f ↦ rw f (
        0,
        db,
        refl,
        record {
          listed =
              ap (λ ms. order_messages (retain (is_in mailbox_id) ms))
                (sym (retain-none (is_at mailbox_id n) db.messages f))
              ∙ list-without mailbox_id n db.messages;
          there = h;
        },
      )
      | inl t ↦
          let (assigned, next, done, same) =
            assign_mailbox_modseq-IsAssigned mailbox_id none db h in
          (
            length (retain (is_at mailbox_id n) next.messages),
            record next { messages = retain (λ m. not (is_at mailbox_id n m)) next.messages },
            rw (t, done) refl,
            record {
              listed =
                  ap
                    (λ ms.
                      order_messages
                        (retain (is_in mailbox_id) (retain (λ m. not (is_at mailbox_id n m)) ms)))
                    same.same_messages
                  ∙ list-without mailbox_id n db.messages;
              there = same.same_rows ∙ h;
            },
          )
    ]
