-- ===== src/Sync/Account/Unlisted.antt =====
-- No mailbox that the server does not list is left.
use imapped_lightmode.Base.{
  ◌≡◌, refl, ap, sym, ◌∙◌, Bool, true, false, not, ◌&&◌, none, List, [], ◌∷◌, any, any-retain,
  retain, Bool-cases, inl, inr, Result, ok, err, arith,
}
use imapped_lightmode.Base.Int.{ℤ, eqb_ℤ}
use imapped_lightmode.Text.{Text, eq_refl}
use imapped_lightmode.Domain.Records.{Mailbox}
use imapped_lightmode.Db as D
use imapped_lightmode.Db.{Db, Done, done}
use imapped_lightmode.Db.Mailboxes.{is_named, list_mailboxes, delete_mailbox}
use imapped_lightmode.Db.Messages.{set_modseq, list_mailbox_messages}
use imapped_lightmode.Db.Messages.Purge.{delete_messages}
use imapped_lightmode.Sync.Engine.Deletes.{any_same}
use imapped_lightmode.Sync.Account.{
  is_listed, remove_mailbox, remove_unlisted, remove_missing_mailboxes,
}
use imapped_lightmode.Sync.Account.Names.{any-order_mailboxes, any-delete_messages}

module _ (account_id : ℤ) (names : List Text) where
  -- A mailbox of the account that is not listed.
  abbrev pub unlisted : Mailbox → Bool
  unlisted row = eqb_ℤ row.account_id account_id && not (is_listed names row)

  -- A mailbox that the loop deletes with one of the mailboxes that it goes through.
  abbrev goes_with : List Mailbox → Mailbox → Bool
  goes_with mailboxes row =
      any (λ mailbox. not (is_listed names mailbox) && is_named account_id mailbox.name row)
        mailboxes

  goes_with_blind :
      (mailboxes : List Mailbox) (row : Mailbox) (n : ℤ)
      → (unlisted (set_modseq n row) && not (goes_with mailboxes (set_modseq n row)))
        ≡ (unlisted row && not (goes_with mailboxes row))
  unfolding is_named
  goes_with_blind mailboxes row n = refl

  removed_with :
      (mailbox : Mailbox) (mailboxes : List Mailbox) (r : Result Done × Db) (db : Db) (next : Db)
      → is_listed names mailbox ≡ false
      → any (λ row. unlisted row && not (goes_with (mailbox ∷ mailboxes) row)) r.1.mailboxes ≡ false
      → ((db : Db)
          → any (λ row. unlisted row && not (goes_with mailboxes row)) db.mailboxes ≡ false
          → remove_unlisted account_id names mailboxes db ≡ (ok done, next)
          → any unlisted next.mailboxes ≡ false)
      → D.and_then
          (D.and_then r.0
            (λ deleted db. (ok done, (delete_mailbox account_id mailbox.name db).1))
            r.1).0
          (λ removed. remove_unlisted account_id names mailboxes)
          (D.and_then r.0
            (λ deleted db. (ok done, (delete_mailbox account_id mailbox.name db).1))
            r.1).1
        ≡ (ok done, next)
      → any unlisted next.mailboxes ≡ false
  unfolding delete_mailbox
  removed_with mailbox mailboxes (err e, after) db next out clear k run = cc
  removed_with mailbox mailboxes (ok done, after) db next out clear k run =
      k (delete_mailbox account_id mailbox.name after).1
        (any-retain (λ row. unlisted row && not (goes_with mailboxes row))
            (λ row. not (is_named account_id mailbox.name row)) after.mailboxes
          ∙ (any_same
                (λ row.
                  not (is_named account_id mailbox.name row)
                  && (unlisted row && not (goes_with mailboxes row)))
                (λ row. unlisted row && not (goes_with (mailbox ∷ mailboxes) row)) after.mailboxes
                (λ row. ground (arith, out))
              ∙ clear))
        run

  listed_stays :
      (mailbox : Mailbox) (mailboxes : List Mailbox) (db : Db)
      → is_listed names mailbox ≡ true
      → remove_unlisted account_id names (mailbox ∷ mailboxes) db
        ≡ remove_unlisted account_id names mailboxes db
  unfolding remove_unlisted
  listed_stays mailbox mailboxes db h = rw h refl

  unlisted_goes :
      (mailbox : Mailbox) (mailboxes : List Mailbox) (db : Db)
      → is_listed names mailbox ≡ false
      → remove_unlisted account_id names (mailbox ∷ mailboxes) db
        ≡ D.◌>>◌ (remove_mailbox account_id mailbox) (remove_unlisted account_id names mailboxes) db
  unfolding remove_unlisted
  unlisted_goes mailbox mailboxes db h = rw h refl

  remove_unlisted_none :
      (mailboxes : List Mailbox) (db next : Db)
      → any (λ row. unlisted row && not (goes_with mailboxes row)) db.mailboxes ≡ false
      → remove_unlisted account_id names mailboxes db ≡ (ok done, next)
      → any unlisted next.mailboxes ≡ false
  unfolding remove_unlisted remove_mailbox
  remove_unlisted_none [] db next clear run =
      ap (λ (r : Result Done × Db). any unlisted r.1.mailboxes) (sym run)
      ∙ (any_same unlisted (λ row. unlisted row && not (goes_with [] row)) db.mailboxes
            (λ row. ground arith)
          ∙ clear)
  remove_unlisted_none (mailbox ∷ mailboxes) db next clear run =
      elim (Bool-cases (is_listed names mailbox)) [
        | inl t ↦
            remove_unlisted_none mailboxes db next
              (any_same (λ row. unlisted row && not (goes_with mailboxes row))
                  (λ row. unlisted row && not (goes_with (mailbox ∷ mailboxes) row)) db.mailboxes
                  (λ row. ground (arith, t))
                ∙ clear)
              (sym (listed_stays mailbox mailboxes db t) ∙ run)
        | inr f ↦
            removed_with mailbox mailboxes
              (delete_messages mailbox.id (list_mailbox_messages mailbox.id db) db) db next f
              (any-delete_messages
                  (λ row. unlisted row && not (goes_with (mailbox ∷ mailboxes) row))
                  (goes_with_blind (mailbox ∷ mailboxes)) mailbox.id
                  (list_mailbox_messages mailbox.id db) db
                ∙ clear)
              (λ db. remove_unlisted_none mailboxes db next)
              (sym (unlisted_goes mailbox mailboxes db f) ∙ run)
      ]

  self_named :
      (row : Mailbox)
      → unlisted row ≡ true
      → (not (is_listed names row) && is_named account_id row.name row) ≡ true
  unfolding is_named
  self_named row h = ground (arith, eq_refl row.name)

  no_other :
      (xs whole : List Mailbox)
      → ((p : Mailbox → Bool) → any p xs ≡ true → any p whole ≡ true)
      → any
          (λ row.
            unlisted row
            && not (
                any
                  (λ mailbox.
                    eqb_ℤ mailbox.account_id account_id
                    && (not (is_listed names mailbox) && is_named account_id mailbox.name row))
                  whole))
          xs
        ≡ false
  no_other [] whole sub = refl
  no_other (row ∷ xs) whole sub = ground (
    arith,
    self_named row,
    sub (λ mailbox.
        eqb_ℤ mailbox.account_id account_id
        && (not (is_listed names mailbox) && is_named account_id mailbox.name row)),
    no_other xs whole (λ p h. sub p (ground (arith, h))),
  )

  all_go :
      (collates : Text → Text → Bool) (db : Db) (row : Mailbox)
      → goes_with (list_mailboxes collates account_id none db) row
        ≡ any
            (λ mailbox.
              eqb_ℤ mailbox.account_id account_id
              && (not (is_listed names mailbox) && is_named account_id mailbox.name row))
            db.mailboxes
  unfolding list_mailboxes
  all_go collates db row =
      any-order_mailboxes
        (λ mailbox. not (is_listed names mailbox) && is_named account_id mailbox.name row) collates
        (retain (λ mailbox. eqb_ℤ mailbox.account_id account_id) db.mailboxes)
      ∙ any-retain
          (λ mailbox. not (is_listed names mailbox) && is_named account_id mailbox.name row)
          (λ mailbox. eqb_ℤ mailbox.account_id account_id) db.mailboxes

  pub remove_missing_mailboxes_none :
      (collates : Text → Text → Bool) (db next : Db)
      → remove_missing_mailboxes collates account_id names db ≡ (ok done, next)
      → any (λ row. eqb_ℤ row.account_id account_id && not (is_listed names row)) next.mailboxes
        ≡ false
  unfolding remove_missing_mailboxes
  remove_missing_mailboxes_none collates db next run =
      remove_unlisted_none (list_mailboxes collates account_id none db) db next
        (any_same
            (λ row.
              unlisted row && not (goes_with (list_mailboxes collates account_id none db) row))
            (λ row.
              unlisted row
              && not (
                  any
                    (λ mailbox.
                      eqb_ℤ mailbox.account_id account_id
                      && (not (is_listed names mailbox) && is_named account_id mailbox.name row))
                    db.mailboxes))
            db.mailboxes (λ row. ap (λ b. unlisted row && not b) (all_go collates db row))
          ∙ no_other db.mailboxes db.mailboxes (λ p h. h))
        run
