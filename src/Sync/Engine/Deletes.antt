-- ===== src/Sync/Engine/Deletes.antt =====
-- The loop that deletes the messages that a test chooses: none of these is left, and a message that
-- the test does not choose stays.
use imapped_lightmode.Base.{
  ◌≡◌, refl, ap, sym, ◌∙◌, Bool, true, false, not, ◌&&◌, List, [], ◌∷◌, any, any-retain, retain,
  Result, ok, err, arith,
}
use imapped_lightmode.Base.Int.{ℤ, eqb_ℤ}
use imapped_lightmode.Domain.Records.{MailboxMessage}
use imapped_lightmode.Db.{Db, Done, done}
use imapped_lightmode.Db.Messages.{is_in, is_at, list_mailbox_messages}
use imapped_lightmode.Db.Messages.Purge.{delete_messages}
use imapped_lightmode.Sync.Engine.{delete_where, is_from}
use imapped_lightmode.Sync.Engine.Rows.{
  any-list_mailbox_messages, rows_without, rows_left, Leaves, delete_messages-Leaves,
}

module _ {A : Type 0} where
  pub any_same : (p q : A → Bool) (xs : List A) → ((x : A) → p x ≡ q x) → any p xs ≡ any q xs
  any_same p q [] h = refl
  any_same p q (x ∷ xs) h = ground (arith, h x, any_same p q xs h)

  pub any_below :
      (p q : A → Bool) (xs : List A)
      → ((x : A) → p x ≡ true → q x ≡ true)
      → any q xs ≡ false
      → any p xs ≡ false
  any_below p q [] h none = refl
  any_below p q (x ∷ xs) h none = ground (arith, h x, any_below p q xs h)

any-rows_left :
    (q : MailboxMessage → Bool) (mailbox_id : ℤ) (ms rows : List MailboxMessage)
    → any q (rows_left mailbox_id ms rows)
      ≡ any (λ m. q m && not (any (λ o. is_at mailbox_id o.local_uid m) ms)) rows
any-rows_left q mailbox_id [] rows = any_same q (λ m. q m && true) rows (λ m. ground arith)
any-rows_left q mailbox_id (o ∷ ms) rows =
    any-rows_left q mailbox_id ms (rows_without mailbox_id o.local_uid rows)
    ∙ (any-retain (λ m. q m && not (any (λ o. is_at mailbox_id o.local_uid m) ms))
          (λ m. not (is_at mailbox_id o.local_uid m)) rows
        ∙ any_same
            (λ m.
              not (is_at mailbox_id o.local_uid m)
              && (q m && not (any (λ o. is_at mailbox_id o.local_uid m) ms)))
            (λ m. q m && not (any (λ o. is_at mailbox_id o.local_uid m) (o ∷ ms))) rows
            (λ m. ground arith))

module _ (test : MailboxMessage → Bool) (mailbox_id : ℤ) where
  abbrev chosen : MailboxMessage → Bool
  chosen m = is_in mailbox_id m && test m

  abbrev named_by : MailboxMessage → MailboxMessage → Bool
  named_by m o = is_in mailbox_id o && (test o && is_at mailbox_id o.local_uid m)

  named_self : (m : MailboxMessage) → chosen m ≡ true → named_by m m ≡ true
  unfolding is_at
  named_self m h = ground arith

  -- A chosen row of the table is named by a chosen row, itself.
  no_unnamed :
      (xs whole : List MailboxMessage)
      → ((p : MailboxMessage → Bool) → any p xs ≡ true → any p whole ≡ true)
      → any (λ m. chosen m && not (any (named_by m) whole)) xs ≡ false
  no_unnamed [] whole sub = refl
  no_unnamed (m ∷ xs) whole sub = ground (
    arith,
    named_self m,
    sub (named_by m),
    no_unnamed xs whole (λ p h. sub p (ground (arith, h))),
  )

  names_list :
      (m : MailboxMessage) (db : Db)
      → any
          (λ o. is_at mailbox_id o.local_uid m)
          (retain test (list_mailbox_messages mailbox_id db))
        ≡ any (named_by m) db.messages
  names_list m db =
      any-retain (λ o. is_at mailbox_id o.local_uid m) test (list_mailbox_messages mailbox_id db)
      ∙ any-list_mailbox_messages (λ o. test o && is_at mailbox_id o.local_uid m) mailbox_id db

  left_absent :
      (db : Db)
      → any chosen
          (rows_left mailbox_id (retain test (list_mailbox_messages mailbox_id db)) db.messages)
        ≡ false
  left_absent db =
      any-rows_left chosen mailbox_id (retain test (list_mailbox_messages mailbox_id db))
        db.messages
      ∙ (any_same
            (λ m.
              chosen m
              && not (
                  any (λ o. is_at mailbox_id o.local_uid m)
                    (retain test (list_mailbox_messages mailbox_id db))))
            (λ m. chosen m && not (any (named_by m) db.messages)) db.messages
            (λ m. ap (λ b. chosen m && not b) (names_list m db))
          ∙ no_unnamed db.messages db.messages (λ p h. h))

  absent_after :
      (rows : List MailboxMessage) (r : Result Done × Db) (next : Db)
      → Leaves rows r
      → any chosen rows ≡ false
      → r ≡ (ok done, next)
      → any chosen next.messages ≡ false
  absent_after rows (err e, db) next left none h = cc
  absent_after rows (ok a, db) next left none h =
      ap (λ (s : Result Done × Db). any chosen s.1.messages) (sym h) ∙ (ap (any chosen) left ∙ none)

  pub delete_where-absent :
      (db next : Db)
      → delete_where test mailbox_id db ≡ (ok done, next)
      → any (λ m. is_in mailbox_id m && test m) next.messages ≡ false
  unfolding delete_where
  delete_where-absent db next h =
      absent_after
        (rows_left mailbox_id (retain test (list_mailbox_messages mailbox_id db)) db.messages)
        (delete_messages mailbox_id (retain test (list_mailbox_messages mailbox_id db)) db) next
        (delete_messages-Leaves mailbox_id (retain test (list_mailbox_messages mailbox_id db)) db)
        (left_absent db) h

-- The server's message `n` is in the mailbox, under that local UID, and no other row has it.
abbrev pub at_place : ℤ → ℤ → MailboxMessage → Bool
at_place mailbox_id n m = eqb_ℤ m.mailbox_id mailbox_id && eqb_ℤ m.local_uid n

pub record HoldsRows (mailbox_id n : ℤ) (rows : List MailboxMessage) : Type 0 where
  pub present : any (λ m. is_at mailbox_id n m && is_from n m) rows ≡ true
  pub alone : any (λ m. at_place mailbox_id n m && not (is_from n m)) rows ≡ false

any-without :
    (mailbox_id n k : ℤ) (rows : List MailboxMessage)
    → eqb_ℤ k n ≡ false
    → any (λ m. is_at mailbox_id n m && is_from n m) (rows_without mailbox_id k rows)
      ≡ any (λ m. is_at mailbox_id n m && is_from n m) rows
unfolding is_at
any-without mailbox_id n k [] h = refl
any-without mailbox_id n k (m ∷ rows) h = ground (arith, any-without mailbox_id n k rows h)

pub rows_without-HoldsRows :
    (mailbox_id n k : ℤ) (rows : List MailboxMessage)
    → eqb_ℤ k n ≡ false
    → HoldsRows mailbox_id n rows
    → HoldsRows mailbox_id n (rows_without mailbox_id k rows)
rows_without-HoldsRows mailbox_id n k rows apart h = record {
  present = any-without mailbox_id n k rows apart ∙ h.present;
  alone =
      any-retain (λ m. at_place mailbox_id n m && not (is_from n m))
        (λ m. not (is_at mailbox_id k m)) rows
      ∙ any_below
          (λ m. not (is_at mailbox_id k m) && (at_place mailbox_id n m && not (is_from n m)))
          (λ m. at_place mailbox_id n m && not (is_from n m)) rows (λ m t. ground arith) h.alone;
}
