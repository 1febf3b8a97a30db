-- ===== src/Session/ReadOnly.antt =====
-- What a mailbox that is opened with EXAMINE is safe from.
use imapped_lightmode.Base.{
  ◌≡◌, refl, ◌∙◌, Bool, true, false, Option, none, some, List, [], ◌∷◌, Result, ok, err, arith,
}
use imapped_lightmode.Base.Int.{ℤ}
use imapped_lightmode.Text.{Text, lit}
use imapped_lightmode.Text.Case.{to_ascii_uppercase}
use imapped_lightmode.Domain.Records.{Mailbox}
use imapped_lightmode.Db.{Db, Done}
use imapped_lightmode.Db.Mailboxes.{find_mailbox}
use imapped_lightmode.Session.{
  SelectedMailboxSnapshot, ImapSession, Services, World, Checked, refused, passed, is_read_only,
  check_selected, selected_mailbox_name,
}
use imapped_lightmode.Session.Select.{purge_snapshot, close_result, close}
use imapped_lightmode.Session.Flags.{store_checked, store, uid_store}
use imapped_lightmode.Session.Expunge.{expunge_checked, expunge, uid_expunge}
use imapped_lightmode.Session.Transfer.{
  transfer_found, transfer_checked, copy_or_move, uid_copy_or_move,
}
use imapped_lightmode.Session.Verb.{Verb}
use imapped_lightmode.Session.Verb.Uid
use imapped_lightmode.Session.Verb.Uid.{UidVerb, uid_verb_of}
use imapped_lightmode.Session.Commands.{Others, handle_uid, uid_checked, uid, handle}

-- The commands on messages that change the mailbox they stand in.
abbrev pub changes_uid : UidVerb → Bool
changes_uid Uid.store = true
changes_uid Uid.expunge = true
changes_uid Uid.move = true
changes_uid Uid.copy = false
changes_uid Uid.fetch = false
changes_uid Uid.search = false
changes_uid Uid.sort = false
changes_uid Uid.thread = false
changes_uid Uid.other = false

abbrev pub changes_uid_args : List Text → Bool
changes_uid_args [] = false
changes_uid_args (sub ∷ args) = changes_uid (uid_verb_of (to_ascii_uppercase sub))

-- STORE, EXPUNGE, MOVE, their UID forms, and CLOSE.
abbrev pub changes_mailbox : Verb → List Text → Bool
changes_mailbox Verb.capability args = false
changes_mailbox Verb.noop args = false
changes_mailbox Verb.logout args = false
changes_mailbox Verb.login args = false
changes_mailbox Verb.starttls args = false
changes_mailbox Verb.select args = false
changes_mailbox Verb.examine args = false
changes_mailbox Verb.list args = false
changes_mailbox Verb.lsub args = false
changes_mailbox Verb.status args = false
changes_mailbox Verb.search args = false
changes_mailbox Verb.sort args = false
changes_mailbox Verb.thread args = false
changes_mailbox Verb.fetch args = false
changes_mailbox Verb.store args = true
changes_mailbox Verb.uid args = changes_uid_args args
changes_mailbox Verb.append args = false
changes_mailbox Verb.idle args = false
changes_mailbox Verb.check args = false
changes_mailbox Verb.unselect args = false
changes_mailbox Verb.close args = true
changes_mailbox Verb.expunge args = true
changes_mailbox Verb.create args = false
changes_mailbox Verb.delete args = false
changes_mailbox Verb.rename args = false
changes_mailbox Verb.subscribe args = false
changes_mailbox Verb.unsubscribe args = false
changes_mailbox Verb.copy args = false
changes_mailbox Verb.move args = true
changes_mailbox Verb.namespace args = false
changes_mailbox Verb.id args = false
changes_mailbox Verb.enable args = false
changes_mailbox Verb.condstore args = false
changes_mailbox Verb.other args = false

store_checked_unchanged :
    (services : Services) (tag : Text) (args : List Text) (checked : Checked (ℤ × Mailbox))
    (db : Db)
    → (store_checked services tag args true checked db).1 ≡ db
unfolding store_checked
store_checked_unchanged services tag args (refused line) db = refl
store_checked_unchanged services tag args (passed (account_id, mailbox)) db = refl

expunge_checked_unchanged :
    (tag : Text) (args : List Text) (checked : Checked (ℤ × Mailbox)) (db : Db)
    → (expunge_checked tag args true checked db).1 ≡ db
unfolding expunge_checked
expunge_checked_unchanged tag args (refused line) db = refl
expunge_checked_unchanged tag args (passed (account_id, mailbox)) db = refl

transfer_found_unchanged :
    (services : Services) (tag name set : Text) (account_id : ℤ) (source : Mailbox)
    (found : Option Mailbox) (db : Db)
    → (transfer_found services tag name true true set account_id source found db).1 ≡ db
unfolding transfer_found
transfer_found_unchanged services tag name set account_id source none db = refl
transfer_found_unchanged services tag name set account_id source (some destination) db = refl

transfer_checked_unchanged :
    (services : Services) (tag name : Text) (args : List Text) (checked : Checked (ℤ × Mailbox))
    (db : Db)
    → (transfer_checked services tag name true args true checked db).1 ≡ db
unfolding transfer_checked
transfer_checked_unchanged services tag name args (refused line) db = refl
transfer_checked_unchanged services tag name [] (passed checked) db = refl
transfer_checked_unchanged services tag name (set ∷ []) (passed checked) db = refl
transfer_checked_unchanged services tag name (set ∷ destination ∷ args)
      (passed (account_id, source)) db =
    transfer_found_unchanged services tag name set account_id source
      (find_mailbox account_id destination db) db

purge_snapshot_unchanged :
    (kept : Option SelectedMailboxSnapshot) (db : Db) → (purge_snapshot false kept db).1 ≡ db
unfolding purge_snapshot
purge_snapshot_unchanged none db = refl
purge_snapshot_unchanged (some snapshot) db = refl

close_result-db :
    (tag : Text) (w : World) (r : Result Done × Db) → (close_result tag w r).1.db ≡ r.1
unfolding close_result
close_result-db tag w (err e, db) = refl
close_result-db tag w (ok result, db) = refl

close_unchanged :
    (services : Services) (tag : Text) (selected : Option Text) (w : World)
    → is_read_only w.session.state ≡ true
    → (close services tag selected w).1.db ≡ w.db
unfolding close
close_unchanged services tag none w h = refl
close_unchanged services tag (some mailbox) w h = rw (h) (
    close_result-db tag w (purge_snapshot false w.session.selected_mailbox_snapshot w.db)
    ∙ purge_snapshot_unchanged w.session.selected_mailbox_snapshot w.db)

module _ (services : Services) (others : Others) where
  handle_uid_unchanged :
      (verb : UidVerb) (tag sub : Text) (args : List Text) (session : ImapSession) (account_id : ℤ)
      (mailbox : Mailbox) (db : Db)
      → is_read_only session.state ≡ true
      → changes_uid verb ≡ true
      → (handle_uid services others verb tag sub args session account_id mailbox db).1 ≡ db
  unfolding handle_uid uid_store uid_expunge uid_copy_or_move
  handle_uid_unchanged Uid.store tag sub args session account_id mailbox db r h = rw (r) refl
  handle_uid_unchanged Uid.expunge tag sub args session account_id mailbox db r h = rw (r) refl
  handle_uid_unchanged Uid.move tag sub args session account_id mailbox db r h = rw (r) refl
  handle_uid_unchanged Uid.copy tag sub args session account_id mailbox db r h = ground arith
  handle_uid_unchanged Uid.fetch tag sub args session account_id mailbox db r h = ground arith
  handle_uid_unchanged Uid.search tag sub args session account_id mailbox db r h = ground arith
  handle_uid_unchanged Uid.sort tag sub args session account_id mailbox db r h = ground arith
  handle_uid_unchanged Uid.thread tag sub args session account_id mailbox db r h = ground arith
  handle_uid_unchanged Uid.other tag sub args session account_id mailbox db r h = ground arith

  uid_checked_unchanged :
      (tag sub : Text) (args : List Text) (session : ImapSession) (checked : Checked (ℤ × Mailbox))
      (db : Db)
      → is_read_only session.state ≡ true
      → changes_uid (uid_verb_of sub) ≡ true
      → (uid_checked services others tag sub args session checked db).1 ≡ db
  unfolding uid_checked
  uid_checked_unchanged tag sub args session (refused line) db r h = refl
  uid_checked_unchanged tag sub args session (passed (account_id, mailbox)) db r h =
      handle_uid_unchanged (uid_verb_of sub) tag sub args session account_id mailbox db r h

  uid_unchanged :
      (tag : Text) (args : List Text) (session : ImapSession) (db : Db)
      → is_read_only session.state ≡ true
      → changes_uid_args args ≡ true
      → (uid services others tag args session db).1 ≡ db
  unfolding uid
  uid_unchanged tag [] session db r h = refl
  uid_unchanged tag (sub ∷ args) session db r h =
      uid_checked_unchanged tag (to_ascii_uppercase sub) args session
        (check_selected services (lit "UID") tag session db) db r h

  -- In a mailbox that is opened with EXAMINE, none of STORE, EXPUNGE, MOVE, their UID forms and CLOSE
  -- changes anything in the database, whatever its arguments.
  pub handle-read_only :
      (verb : Verb) (tag name : Text) (args : List Text) (w : World)
      → is_read_only w.session.state ≡ true
      → changes_mailbox verb args ≡ true
      → (handle services others verb tag name args w).1.db ≡ w.db
  unfolding handle store expunge copy_or_move
  handle-read_only Verb.capability tag name args w r h = ground arith
  handle-read_only Verb.noop tag name args w r h = ground arith
  handle-read_only Verb.logout tag name args w r h = ground arith
  handle-read_only Verb.login tag name args w r h = ground arith
  handle-read_only Verb.starttls tag name args w r h = ground arith
  handle-read_only Verb.select tag name args w r h = ground arith
  handle-read_only Verb.examine tag name args w r h = ground arith
  handle-read_only Verb.list tag name args w r h = ground arith
  handle-read_only Verb.lsub tag name args w r h = ground arith
  handle-read_only Verb.status tag name args w r h = ground arith
  handle-read_only Verb.search tag name args w r h = ground arith
  handle-read_only Verb.sort tag name args w r h = ground arith
  handle-read_only Verb.thread tag name args w r h = ground arith
  handle-read_only Verb.fetch tag name args w r h = ground arith
  handle-read_only Verb.store tag name args w r h = rw (r) (
      store_checked_unchanged services tag args
        (check_selected services (lit "STORE") tag w.session w.db) w.db)
  handle-read_only Verb.uid tag name args w r h = uid_unchanged tag args w.session w.db r h
  handle-read_only Verb.append tag name args w r h = ground arith
  handle-read_only Verb.idle tag name args w r h = ground arith
  handle-read_only Verb.check tag name args w r h = ground arith
  handle-read_only Verb.unselect tag name args w r h = ground arith
  handle-read_only Verb.close tag name args w r h =
      close_unchanged services tag (selected_mailbox_name w.session.state) w r
  handle-read_only Verb.expunge tag name args w r h = rw (r) (
      expunge_checked_unchanged tag args
        (check_selected services (lit "EXPUNGE") tag w.session w.db) w.db)
  handle-read_only Verb.create tag name args w r h = ground arith
  handle-read_only Verb.delete tag name args w r h = ground arith
  handle-read_only Verb.rename tag name args w r h = ground arith
  handle-read_only Verb.subscribe tag name args w r h = ground arith
  handle-read_only Verb.unsubscribe tag name args w r h = ground arith
  handle-read_only Verb.copy tag name args w r h = ground arith
  handle-read_only Verb.move tag name args w r h = rw (r) (
      transfer_checked_unchanged services tag name args
        (check_selected services name tag w.session w.db) w.db)
  handle-read_only Verb.namespace tag name args w r h = ground arith
  handle-read_only Verb.id tag name args w r h = ground arith
  handle-read_only Verb.enable tag name args w r h = ground arith
  handle-read_only Verb.condstore tag name args w r h = ground arith
  handle-read_only Verb.other tag name args w r h = ground arith
