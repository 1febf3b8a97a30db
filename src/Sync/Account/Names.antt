-- ===== src/Sync/Account/Names.antt =====
-- A deletion of messages leaves the mailboxes and their names.
use imapped_lightmode.Base.{
  ℕ, ◌≡◌, refl, ◌∙◌, Bool, true, false, Option, none, some, List, [], ◌∷◌, any, map, retain,
  if◌then◌else◌, Bool-cases, inl, inr, Result, ok, err, ◌>>=◌, arith,
}
use imapped_lightmode.Base.Int.{ℤ, eqb_ℤ}
use imapped_lightmode.Text.{Text}
use imapped_lightmode.Domain.Records.{Mailbox, MailboxMessage}
use imapped_lightmode.Db as D
use imapped_lightmode.Db.{Db, Done, done}
use imapped_lightmode.Db.Mailboxes.{
  insert_mailbox, order_mailboxes, update_mailboxes, with_id, head,
}
use imapped_lightmode.Db.Messages.{
  set_modseq, assign_in_row, assign_mailbox_modseq, delete_mailbox_message, remove_rows, is_at,
  unwrap_or_0, next_modseq,
}
use imapped_lightmode.Db.Messages.Purge.{delete_messages}

module _ (q : Mailbox → Bool) where
  any-insert_mailbox :
      (collates : Text → Text → Bool) (row : Mailbox) (rows : List Mailbox)
      → any q (insert_mailbox collates row rows) ≡ any q (row ∷ rows)
  unfolding insert_mailbox
  any-insert_mailbox collates row [] = refl
  any-insert_mailbox collates row (other ∷ rows) =
      ground (arith, any-insert_mailbox collates row rows)

  pub any-order_mailboxes :
      (collates : Text → Text → Bool) (rows : List Mailbox)
      → any q (order_mailboxes collates rows) ≡ any q rows
  unfolding order_mailboxes
  any-order_mailboxes collates [] = refl
  any-order_mailboxes collates (row ∷ rows) =
      any-insert_mailbox collates row (order_mailboxes collates rows)
      ∙ ground (arith, any-order_mailboxes collates rows)

  -- A test that does not read the modification sequence.
  module _ (blind : (row : Mailbox) (n : ℤ) → q (set_modseq n row) ≡ q row) where
    any-set_modseq :
        (test : Mailbox → Bool) (n : ℤ) (rows : List Mailbox)
        → any q (map (λ row. if test row then set_modseq n row else row) rows) ≡ any q rows
    any-set_modseq test n [] = refl
    any-set_modseq test n (row ∷ rows) = ground (arith, blind row n, any-set_modseq test n rows)

    any-updated :
        (unchanged : Bool) (test : Mailbox → Bool) (n : ℤ) (db : Db)
        → any q (if unchanged then db else update_mailboxes test (set_modseq n) db).mailboxes
          ≡ any q db.mailboxes
    unfolding update_mailboxes
    any-updated true test n db = refl
    any-updated false test n db = any-set_modseq test n db.mailboxes

    -- The mailboxes that a transaction leaves.
    abbrev Same : {A : Type 0} → Db → Result (A × Db) → Type 0
    Same db (err e) = Unit
    Same db (ok (a, next)) = any q next.mailboxes ≡ any q db.mailboxes

    assign_in_row-Same :
        (mailbox_id : ℤ) (db : Db) (found : Option Mailbox)
        → Same db (assign_in_row mailbox_id none db found)
    unfolding assign_in_row
    assign_in_row-Same mailbox_id db none = tt
    assign_in_row-Same mailbox_id db (some row) =
        let current = unwrap_or_0 row.highestmodseq in
        let n = next_modseq current none in any-updated (eqb_ℤ n current) (with_id mailbox_id) n db

    remove_rows-Same :
        (mailbox_id local_uid : ℤ) (db : Db) (r : Result (ℤ × Db))
        → Same db r
        → Same db (r >>= remove_rows mailbox_id local_uid)
    unfolding remove_rows
    remove_rows-Same mailbox_id local_uid db (err e) h = tt
    remove_rows-Same mailbox_id local_uid db (ok (n, next)) h = h

    delete_mailbox_message-Same :
        (mailbox_id local_uid : ℤ) (db : Db)
        → Same db (delete_mailbox_message mailbox_id local_uid db)
    unfolding delete_mailbox_message assign_mailbox_modseq
    delete_mailbox_message-Same mailbox_id local_uid db =
        elim (Bool-cases (any (is_at mailbox_id local_uid) db.messages)) [
          | inr f ↦ rw f refl
          | inl t ↦ rw t (
              remove_rows-Same mailbox_id local_uid db
                (assign_in_row mailbox_id none db (head (retain (with_id mailbox_id) db.mailboxes)))
                (assign_in_row-Same mailbox_id db
                  (head (retain (with_id mailbox_id) db.mailboxes))))
        ]

    then-Same :
        (mailbox_id : ℤ) (ms : List MailboxMessage) (db : Db) (r : Result (ℕ × Db))
        → Same db r
        → ((next : Db)
            → any q (delete_messages mailbox_id ms next).1.mailboxes ≡ any q next.mailboxes)
        → any q
            (D.and_then
              (D.committed r db).0
              (λ k. delete_messages mailbox_id ms)
              (D.committed r db).1).1.mailboxes
          ≡ any q db.mailboxes
    then-Same mailbox_id ms db (err e) h k = refl
    then-Same mailbox_id ms db (ok (n, next)) h k = k next ∙ h

    pub any-delete_messages :
        (mailbox_id : ℤ) (ms : List MailboxMessage) (db : Db)
        → any q (delete_messages mailbox_id ms db).1.mailboxes ≡ any q db.mailboxes
    unfolding delete_messages
    any-delete_messages mailbox_id [] db = refl
    any-delete_messages mailbox_id (m ∷ ms) db =
        then-Same mailbox_id ms db (delete_mailbox_message mailbox_id m.local_uid db)
          (delete_mailbox_message-Same mailbox_id m.local_uid db)
          (any-delete_messages mailbox_id ms)
