-- ===== src/Session/Checks.antt =====
-- What the tests that the handlers begin with make sure of.
use imapped_lightmode.Base.{
  ◌≡◌, Bool, true, Option, none, some, List, [], ◌∷◌, any, retain, Bool-cases, Option-cases, inl,
  inr, arith,
}
use imapped_lightmode.Base.Int.{ℤ, eqb_ℤ}
use imapped_lightmode.Text.{Text}
use imapped_lightmode.Domain.Records.{Mailbox}
use imapped_lightmode.Db.{Db}
use imapped_lightmode.Db.Mailboxes.{is_named, newest, find_mailbox, with_id}
use imapped_lightmode.Db.Messages.Delete.{is_there}
use imapped_lightmode.Session.{
  ImapSession, Services, passed, check_found, check_repository, check_account, check_selected,
  account_of, selected_mailbox_name,
}

eqb_ℤ_self : (n : ℤ) → eqb_ℤ n n ≡ true
eqb_ℤ_self n = ground arith

newest_self :
    (rows : List Mailbox) (row : Mailbox)
    → newest rows ≡ some row
    → any (with_id row.id) rows ≡ true
unfolding newest with_id
newest_self [] row h = ground arith
newest_self (r ∷ rows) row h = elim (Option-cases (newest rows)) [
  | inl none_later ↦ ground (arith, none_later, h, eqb_ℤ_self r.id)
  | inr (best, later) ↦ ground (arith, later, h, eqb_ℤ_self r.id, newest_self rows best later)
]

any-retain_then :
    (p test : Mailbox → Bool) (rows : List Mailbox)
    → any p (retain test rows) ≡ true
    → any p rows ≡ true
any-retain_then p test [] h = h
any-retain_then p test (r ∷ rows) h = ground (arith, any-retain_then p test rows)

-- A mailbox that is found is one of the table.
pub find_mailbox_there :
    (account_id : ℤ) (name : Text) (db : Db) (row : Mailbox)
    → find_mailbox account_id name db ≡ some row
    → is_there row.id db ≡ true
unfolding find_mailbox
find_mailbox_there account_id name db row h =
    any-retain_then (with_id row.id) (is_named account_id name) db.mailboxes
      (newest_self (retain (is_named account_id name) db.mailboxes) row h)

check_found_there :
    (tag : Text) (account_id : ℤ) (found : Option Mailbox) (other : ℤ) (row : Mailbox)
    → check_found tag account_id found ≡ passed (other, row)
    → found ≡ some row
unfolding check_found
check_found_there tag account_id none other row h = ground arith
check_found_there tag account_id (some found) other row h = ground arith

check_repository_there :
    (services : Services) (name tag : Text) (db : Db) (account_id : ℤ) (selected : Option Text)
    (other : ℤ) (row : Mailbox)
    → check_repository services name tag db account_id selected ≡ passed (other, row)
    → is_there row.id db ≡ true
unfolding check_repository
check_repository_there services name tag db account_id none other row h = ground arith
check_repository_there services name tag db account_id (some selected) other row h =
    let found = find_mailbox account_id selected db in
    elim (Bool-cases services.repository) [
      | inl r ↦
          find_mailbox_there account_id selected db row
            (check_found_there tag account_id found other row (ground (arith, r, h)))
      | inr r ↦ ground (arith, r, h)
    ]

check_account_there :
    (services : Services) (name tag : Text) (session : ImapSession) (db : Db)
    (account_id : Option ℤ) (other : ℤ) (row : Mailbox)
    → check_account services name tag session db account_id ≡ passed (other, row)
    → is_there row.id db ≡ true
unfolding check_account
check_account_there services name tag session db none other row h = ground arith
check_account_there services name tag session db (some account_id) other row h =
    check_repository_there services name tag db account_id (selected_mailbox_name session.state)
      other row h

-- The mailbox that a handler goes on with is in the table.
pub check_selected_there :
    (services : Services) (name tag : Text) (session : ImapSession) (db : Db) (account_id : ℤ)
    (row : Mailbox)
    → check_selected services name tag session db ≡ passed (account_id, row)
    → is_there row.id db ≡ true
unfolding check_selected
check_selected_there services name tag session db account_id row h =
    check_account_there services name tag session db (account_of session.authenticated) account_id
      row h
