-- ===== src/Sync/Engine/Rows.antt =====
-- What the queries do to the rows of `mailbox_messages`, whether they fail or not.
use imapped_lightmode.Base.{
  ℕ, ◌≡◌, refl, ap, sym, subst, ◌∙◌, Bool, not, ◌&&◌, Option, none, some, List, [], ◌∷◌, any,
  any-retain, retain, Bool-cases, inl, inr, Result, ok, err, ◌>>=◌, arith,
}
use imapped_lightmode.Base.Int.{ℤ}
use imapped_lightmode.Domain.Records.{Mailbox, MailboxMessage}
use imapped_lightmode.Db as D
use imapped_lightmode.Db.{Db, Done, done, Transaction}
use imapped_lightmode.Db.Mailboxes.{with_id, head}
use imapped_lightmode.Db.Messages.{
  is_in, is_at, insert_message, order_messages, list_mailbox_messages, assign_mailbox_modseq,
  assign_in_row, remove_rows, delete_mailbox_message,
}
use imapped_lightmode.Db.Messages.Delete.{retain-none}
use imapped_lightmode.Db.Messages.Purge.{delete_messages}

-- The order does not change which messages there are.
any-insert_message :
    (p : MailboxMessage → Bool) (m : MailboxMessage) (ms : List MailboxMessage)
    → any p (insert_message m ms) ≡ any p (m ∷ ms)
unfolding insert_message
any-insert_message p m [] = refl
any-insert_message p m (o ∷ ms) = ground (arith, any-insert_message p m ms)

any-order_messages :
    (p : MailboxMessage → Bool) (ms : List MailboxMessage) → any p (order_messages ms) ≡ any p ms
unfolding order_messages
any-order_messages p [] = refl
any-order_messages p (m ∷ ms) =
    any-insert_message p m (order_messages ms) ∙ ground (arith, any-order_messages p ms)

pub any-list_mailbox_messages :
    (p : MailboxMessage → Bool) (mailbox_id : ℤ) (db : Db)
    → any p (list_mailbox_messages mailbox_id db) ≡ any (λ m. is_in mailbox_id m && p m) db.messages
unfolding list_mailbox_messages
any-list_mailbox_messages p mailbox_id db =
    any-order_messages p (retain (is_in mailbox_id) db.messages)
    ∙ any-retain p (is_in mailbox_id) db.messages

-- A transaction that gives the rows `f rows`, where it succeeds.
abbrev pub Gives : {A : Type 0} → List MailboxMessage → Result (A × Db) → Type 0
Gives rows (err e) = Unit
Gives rows (ok (a, next)) = next.messages ≡ rows

pub Gives-bind :
    {A B : Type 0} (rows between : List MailboxMessage) (r : Result (A × Db))
    (f : A × Db → Result (B × Db))
    → Gives between r
    → ((a : A) (next : Db) → next.messages ≡ between → Gives rows (f (a, next)))
    → Gives rows (r >>= f)
Gives-bind rows between (err e) f h k = tt
Gives-bind rows between (ok (a, next)) f h k = k a next h

assign_in_row-Gives :
    (mailbox_id : ℤ) (requested : Option ℤ) (db : Db) (found : Option Mailbox)
    → Gives db.messages (assign_in_row mailbox_id requested db found)
unfolding assign_in_row
assign_in_row-Gives mailbox_id requested db none = tt
assign_in_row-Gives mailbox_id requested db (some row) = ground arith

pub assign_mailbox_modseq-Gives :
    (mailbox_id : ℤ) (requested : Option ℤ) (db : Db)
    → Gives db.messages (assign_mailbox_modseq mailbox_id requested db)
unfolding assign_mailbox_modseq
assign_mailbox_modseq-Gives mailbox_id requested db =
    assign_in_row-Gives mailbox_id requested db (head (retain (with_id mailbox_id) db.mailboxes))

abbrev pub rows_without : ℤ → ℤ → List MailboxMessage → List MailboxMessage
rows_without mailbox_id n = retain (λ m. not (is_at mailbox_id n m))

pub delete_mailbox_message-Gives :
    (mailbox_id n : ℤ) (db : Db)
    → Gives (rows_without mailbox_id n db.messages) (delete_mailbox_message mailbox_id n db)
unfolding delete_mailbox_message remove_rows
delete_mailbox_message-Gives mailbox_id n db =
    elim (Bool-cases (any (is_at mailbox_id n) db.messages)) [
      | inr f ↦ rw f (sym (retain-none (is_at mailbox_id n) db.messages f))
      | inl t ↦ rw t (
          Gives-bind (rows_without mailbox_id n db.messages) db.messages
            (assign_mailbox_modseq mailbox_id none db) (remove_rows mailbox_id n)
            (assign_mailbox_modseq-Gives mailbox_id none db)
            (λ assigned next same. ap (rows_without mailbox_id n) same))
    ]

-- The loop that deletes: the rows behind it, where it succeeds.
abbrev pub rows_left : ℤ → List MailboxMessage → List MailboxMessage → List MailboxMessage
rows_left mailbox_id [] rows = rows
rows_left mailbox_id (m ∷ ms) rows =
    rows_left mailbox_id ms (rows_without mailbox_id m.local_uid rows)

abbrev pub Leaves : List MailboxMessage → Result Done × Db → Type 0
Leaves rows (err e, next) = Unit
Leaves rows (ok a, next) = next.messages ≡ rows

Leaves-then :
    (mailbox_id : ℤ) (ms rows : List MailboxMessage) (r : Result (ℕ × Db)) (db : Db)
    → Gives rows r
    → ((next : Db)
        → Leaves (rows_left mailbox_id ms next.messages) (delete_messages mailbox_id ms next))
    → Leaves
        (rows_left mailbox_id ms rows)
        (D.and_then (D.committed r db).0 (λ k. delete_messages mailbox_id ms) (D.committed r db).1)
Leaves-then mailbox_id ms rows (err e) db h k = tt
Leaves-then mailbox_id ms rows (ok (count, next)) db h k =
    subst (λ rows. Leaves (rows_left mailbox_id ms rows) (delete_messages mailbox_id ms next)) h
      (k next)

pub delete_messages-Leaves :
    (mailbox_id : ℤ) (ms : List MailboxMessage) (db : Db)
    → Leaves (rows_left mailbox_id ms db.messages) (delete_messages mailbox_id ms db)
unfolding delete_messages
delete_messages-Leaves mailbox_id [] db = refl
delete_messages-Leaves mailbox_id (m ∷ ms) db =
    Leaves-then mailbox_id ms (rows_without mailbox_id m.local_uid db.messages)
      (delete_mailbox_message mailbox_id m.local_uid db) db
      (delete_mailbox_message-Gives mailbox_id m.local_uid db)
      (delete_messages-Leaves mailbox_id ms)
