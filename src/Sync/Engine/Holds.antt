-- ===== src/Sync/Engine/Holds.antt =====
-- That a message of the server is in the mailbox outlasts each query of a synchronisation, whether it fails
-- or not.
use imapped_lightmode.Base.{
  ◌≡◌, refl, ap, ◌∙◌, Bool, true, false, not, ◌&&◌, ◌||◌, List, [], ◌∷◌, ◌++◌, any, any-append, map,
  if◌then◌else◌, Bool-cases, inl, inr, Result, ok, err, ◌>>=◌, arith,
}
use imapped_lightmode.Base.Int.{ℤ, pos, eqb_ℤ}
use imapped_lightmode.Text.{Text}
use imapped_lightmode.Domain.Records.{MailboxMessage}
use imapped_lightmode.Db.{Db}
use imapped_lightmode.Db.Messages.{is_in, is_at, set_flags}
use imapped_lightmode.Db.Upsert.{same_place, same_source, overwrite_message, upsert_row}
use imapped_lightmode.Sync.Engine.{is_from}
use imapped_lightmode.Sync.Engine.Rows.{Gives}
use imapped_lightmode.Sync.Engine.Deletes.{any_below, at_place, HoldsRows}

-- Setting flags leaves where a message is and where it came from.
pub any-set_flags :
    (test p : MailboxMessage → Bool) (flags : List Text) (modseq : ℤ) (rows : List MailboxMessage)
    → ((m : MailboxMessage) → p (set_flags flags modseq m) ≡ p m)
    → any p (map (λ m. if test m then set_flags flags modseq m else m) rows) ≡ any p rows
any-set_flags test p flags modseq [] same = refl
any-set_flags test p flags modseq (m ∷ rows) same =
    ground (arith, same m, any-set_flags test p flags modseq rows same)

-- What a transaction makes of the rows, where it succeeds.
abbrev pub Post : {A : Type 0} → (List MailboxMessage → Type 0) → Result (A × Db) → Type 0
Post P (err e) = Unit
Post P (ok (a, next)) = P next.messages

pub Post-bind :
    {A B : Type 0} (P : List MailboxMessage → Type 0) (rows : List MailboxMessage)
    (r : Result (A × Db)) (f : A × Db → Result (B × Db))
    → Gives rows r
    → ((a : A) (next : Db) → next.messages ≡ rows → Post P (f (a, next)))
    → Post P (r >>= f)
Post-bind P rows (err e) f h k = tt
Post-bind P rows (ok (a, next)) f h k = k a next h

-- The row that is written, at its place and from its source.
module _ (input : MailboxMessage) where
  abbrev pub fits : ℤ → MailboxMessage → Bool
  fits n m = is_at input.mailbox_id n m && is_from n m

  abbrev foreign : ℤ → MailboxMessage → Bool
  foreign n m = at_place input.mailbox_id n m && not (is_from n m)

  abbrev overwritten : List MailboxMessage → List MailboxMessage
  overwritten =
      map (λ other. if same_place input other then overwrite_message input other else other)

  any-overwritten :
      (p : MailboxMessage → Bool) (rows : List MailboxMessage)
      → ((m : MailboxMessage) → same_place input m ≡ true → p m ≡ false)
      → ((id : ℤ) → p (record input { id = id }) ≡ false)
      → any p (overwritten rows) ≡ any p rows
  any-overwritten p [] old new = refl
  any-overwritten p (m ∷ rows) old new = elim (Bool-cases (same_place input m)) [
    | inl t ↦ rw (t, new m.id, old m t) (any-overwritten p rows old new)
    | inr f ↦ rw f (ap (λ b. p m || b) (any-overwritten p rows old new))
  ]

  any-overwritten_new :
      (p : MailboxMessage → Bool) (rows : List MailboxMessage)
      → ((id : ℤ) → p (record input { id = id }) ≡ true)
      → any (same_place input) rows ≡ true
      → any p (overwritten rows) ≡ true
  any-overwritten_new p [] new h = ground arith
  any-overwritten_new p (m ∷ rows) new h = elim (Bool-cases (same_place input m)) [
    | inl t ↦ rw (t, new m.id) refl
    | inr f ↦ rw f (ground (arith, f, h, any-overwritten_new p rows new))
  ]

  any-overwritten_none :
      (p : MailboxMessage → Bool) (rows : List MailboxMessage)
      → ((m : MailboxMessage) → same_place input m ≡ false → p m ≡ false)
      → ((id : ℤ) → p (record input { id = id }) ≡ false)
      → any p (overwritten rows) ≡ false
  any-overwritten_none p [] old new = refl
  any-overwritten_none p (m ∷ rows) old new = elim (Bool-cases (same_place input m)) [
    | inl t ↦ rw (t, new m.id) (any-overwritten_none p rows old new)
    | inr f ↦ rw (f, old m f) (any-overwritten_none p rows old new)
  ]

  -- A row at another UID changes nothing for `n`.
  module _ (n : ℤ) (apart : eqb_ℤ input.local_uid n ≡ false) where
    not_fits : (id : ℤ) → fits n (record input { id = id }) ≡ false
    unfolding is_at
    not_fits id = ground arith

    not_foreign : (id : ℤ) → foreign n (record input { id = id }) ≡ false
    not_foreign id = ground arith

    elsewhere :
        (m : MailboxMessage) → same_place input m ≡ true → at_place input.mailbox_id n m ≡ false
    unfolding same_place
    elsewhere m h = ground arith

    elsewhere_fits : (m : MailboxMessage) → same_place input m ≡ true → fits n m ≡ false
    unfolding is_at is_in
    elsewhere_fits m h = ground (arith, elsewhere m h)

    elsewhere_foreign : (m : MailboxMessage) → same_place input m ≡ true → foreign n m ≡ false
    elsewhere_foreign m h = ground (arith, elsewhere m h)

    overwritten-HoldsRows :
        (rows : List MailboxMessage)
        → HoldsRows input.mailbox_id n rows
        → HoldsRows input.mailbox_id n (overwritten rows)
    overwritten-HoldsRows rows h = record {
      present = any-overwritten (fits n) rows elsewhere_fits not_fits ∙ h.present;
      alone = any-overwritten (foreign n) rows elsewhere_foreign not_foreign ∙ h.alone;
    }

    added-HoldsRows :
        (id : ℤ) (rows : List MailboxMessage)
        → HoldsRows input.mailbox_id n rows
        → HoldsRows input.mailbox_id n (rows ++ record input { id = id } ∷ [])
    added-HoldsRows id rows h = record {
      present =
          any-append (fits n) rows (record input { id = id } ∷ []) ∙ ground (arith, h.present);
      alone =
          any-append (foreign n) rows (record input { id = id } ∷ [])
          ∙ ground (arith, h.alone, not_foreign id);
    }

    pub upsert_row_keeps :
        (db : Db)
        → HoldsRows input.mailbox_id n db.messages
        → Post (HoldsRows input.mailbox_id n) (upsert_row input db)
    unfolding upsert_row
    upsert_row_keeps db h = elim (Bool-cases (any (same_source input) db.messages)) [
      | inl t ↦ rw t tt
      | inr f ↦ rw f (elim (Bool-cases (any (same_place input) db.messages)) [
        | inl t ↦ rw t (overwritten-HoldsRows db.messages h)
        | inr g ↦ rw g (added-HoldsRows (pos db.next_message_row_id) db.messages h)
      ])
    ]

  -- The row itself, if it is one of the server's.
  module _ (fitting : (id : ℤ) → fits input.local_uid (record input { id = id }) ≡ true) where
    own_not_foreign : (id : ℤ) → foreign input.local_uid (record input { id = id }) ≡ false
    own_not_foreign id = ground (arith, fitting id)

    beside_foreign :
        (m : MailboxMessage) → same_place input m ≡ false → foreign input.local_uid m ≡ false
    unfolding same_place
    beside_foreign m h = ground arith

    own_place : (m : MailboxMessage) → foreign input.local_uid m ≡ true → same_place input m ≡ true
    unfolding same_place
    own_place m h = ground arith

    pub upsert_row_sets :
        (db : Db) → Post (HoldsRows input.mailbox_id input.local_uid) (upsert_row input db)
    unfolding upsert_row
    upsert_row_sets db = elim (Bool-cases (any (same_source input) db.messages)) [
      | inl t ↦ rw t tt
      | inr f ↦ rw f (elim (Bool-cases (any (same_place input) db.messages)) [
        | inl t ↦ rw t (record {
          present = any-overwritten_new (fits input.local_uid) db.messages fitting t;
          alone =
              any-overwritten_none (foreign input.local_uid) db.messages beside_foreign
                own_not_foreign;
        })
        | inr g ↦ rw g (record {
          present =
              any-append (fits input.local_uid) db.messages
                (record input { id = pos db.next_message_row_id } ∷ [])
              ∙ ground (arith, fitting (pos db.next_message_row_id));
          alone =
              any-append (foreign input.local_uid) db.messages
                (record input { id = pos db.next_message_row_id } ∷ [])
              ∙ ground (
                arith,
                own_not_foreign (pos db.next_message_row_id),
                any_below (foreign input.local_uid) (same_place input) db.messages
                    (λ m t. own_place m t) g,
              );
        })
      ])
    ]
