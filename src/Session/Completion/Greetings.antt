-- ===== src/Session/Completion/Greetings.antt =====
-- The replies of the commands that read or change the session itself.
use imapped_lightmode.Base.{
  refl, Bool-cases, inl, inr, Bool, not, ◌&&◌, Option, none, some, List, [], ◌∷◌, ◌++◌, map,
  is_empty, if◌then◌else◌, retain, Result, ok, err,
}
use imapped_lightmode.Base.Int.{ℤ}
use imapped_lightmode.Text.{Text, lit}
use imapped_lightmode.Text.Case.{to_ascii_uppercase, eq_ignore_ascii_case}
use imapped_lightmode.Text.Find.{starts_with}
use imapped_lightmode.Auth.{AuthContext}
use imapped_lightmode.Domain.Records.{Mailbox}
use imapped_lightmode.Db.{Db, Done}
use imapped_lightmode.Db.Mailboxes.{rename_mailbox}
use imapped_lightmode.Session.{
  ImapSession, Services, World, bad_state, selected_mailbox_name, account_of, is_read_only,
}
use imapped_lightmode.Session.Greeting.{
  capability, login_result, login, logout_handler, starttls, is_not_authenticated, is_logged_in,
  enabled_line, enable, condstore, when_selected, idle, check,
}
use imapped_lightmode.Session.Select.{
  highestmodseq_line, select_lines, select_found, mailbox_to_select, first_or_inbox, select,
  unselect, purge_snapshot, close_result, close,
}
use imapped_lightmode.Session.Mailboxes.{renamed, rename_for, rename, completed}
use imapped_lightmode.Session.Completion.{
  untagged, Complete, follows, CompleteReply, ends_ok, ends_no, ends_bad, if-Complete,
}

pub bad_state-Complete : (tag name needs : Text) → Complete tag (bad_state tag name needs ∷ [])
unfolding bad_state
bad_state-Complete tag name needs =
    ends_no tag (lit "BADSTATE") (name ++ (lit " requires " ++ needs))

pub capability-Complete :
    (tag : Text) (session : ImapSession) → Complete tag (capability tag session)
unfolding capability untagged starts_with lit
capability-Complete tag session = follows refl (ends_ok tag (lit "CAPABILITY completed"))

login_result-Complete :
    (services : Services) (tag : Text) (w : World) (r : Result (Option AuthContext))
    → CompleteReply tag (login_result services tag w r).0
unfolding login_result
login_result-Complete services tag w (err e) = tt
login_result-Complete services tag w (ok none) =
    ends_no tag (lit "AUTHENTICATIONFAILED") (lit "invalid credentials")
login_result-Complete services tag w (ok (some context)) = ends_ok tag (lit "LOGIN completed")

pub login-Complete :
    (services : Services) (tag : Text) (args : List Text) (w : World)
    → CompleteReply tag (login services tag args w).0
unfolding login
login-Complete services tag [] w = ends_bad tag (lit "LOGIN requires username and password")
login-Complete services tag (username ∷ []) w =
    ends_bad tag (lit "LOGIN requires username and password")
login-Complete services tag (username ∷ password ∷ args) w =
    login_result-Complete services tag w (services.authenticate username password)

pub logout_handler-Complete : (tag : Text) (w : World) → CompleteReply tag (logout_handler tag w).0
unfolding logout_handler untagged starts_with lit
logout_handler-Complete tag w = follows refl (ends_ok tag (lit "LOGOUT completed"))

pub starttls-Complete : (tag : Text) (session : ImapSession) → Complete tag (starttls tag session)
unfolding starttls
starttls-Complete tag session =
    if-Complete tag session.tls_active _ _
      (ends_no tag (lit "BADSTATE") (lit "STARTTLS is already active"))
      (if-Complete tag (not session.starttls_available) _ _
        (ends_no tag (lit "BADSTATE") (lit "STARTTLS is not available"))
        (if-Complete tag (not (is_not_authenticated session.state)) _ _
          (ends_no tag (lit "BADSTATE") (lit "STARTTLS requires a not-authenticated session"))
          (ends_ok tag (lit "Begin TLS negotiation now"))))

pub enable-Complete :
    (tag : Text) (args : List Text) (session : ImapSession) → Complete tag (enable tag args session)
unfolding enable enabled_line untagged starts_with lit
enable-Complete tag args session =
    let enabled =
      map to_ascii_uppercase (retain (λ arg. eq_ignore_ascii_case arg (lit "CONDSTORE")) args) in
    let last = ends_ok tag (lit "ENABLE completed") in
    if-Complete tag (is_logged_in session.state) _ _
      (if-Complete tag (is_empty enabled) _ _ last (follows refl last))
      (bad_state-Complete tag (lit "ENABLE") (lit "an authenticated session"))

pub condstore-Complete : (tag : Text) (session : ImapSession) → Complete tag (condstore tag session)
unfolding condstore
condstore-Complete tag session =
    if-Complete tag (is_logged_in session.state) _ _ (ends_ok tag (lit "CONDSTORE completed"))
      (bad_state-Complete tag (lit "CONDSTORE") (lit "an authenticated session"))

when_selected-Complete :
    (tag name : Text) (selected : Option Text) (lines : List Text)
    → Complete tag lines
    → Complete tag (when_selected tag name selected lines)
unfolding when_selected
when_selected-Complete tag name none lines h =
    bad_state-Complete tag name (lit "a selected mailbox")
when_selected-Complete tag name (some mailbox) lines h = h

pub idle-Complete : (tag : Text) (session : ImapSession) → Complete tag (idle tag session)
unfolding idle untagged starts_with lit
idle-Complete tag session =
    when_selected-Complete tag (lit "IDLE") (selected_mailbox_name session.state) _
      (follows refl (ends_ok tag (lit "IDLE terminated")))

pub check-Complete : (tag : Text) (session : ImapSession) → Complete tag (check tag session)
unfolding check
check-Complete tag session =
    when_selected-Complete tag (lit "CHECK") (selected_mailbox_name session.state) _
      (ends_ok tag (lit "CHECK completed"))

highestmodseq_line-Complete :
    (tag : Text) (n : Option ℤ) (lines : List Text)
    → Complete tag lines
    → Complete tag (highestmodseq_line n lines)
unfolding highestmodseq_line untagged starts_with lit
highestmodseq_line-Complete tag none lines h = h
highestmodseq_line-Complete tag (some n) lines h = follows refl h

select_lines-Complete :
    (tag : Text) (examine : Bool) (mailbox : Mailbox)
    → Complete tag (select_lines tag examine mailbox)
unfolding select_lines untagged starts_with lit
select_lines-Complete tag examine mailbox = follows refl (
    follows refl (
      follows refl (
        follows refl (
          follows refl (
            highestmodseq_line-Complete tag mailbox.highestmodseq _ (
              follows refl (
                ends_ok tag (
                  if examine
                  then lit "[READ-ONLY] EXAMINE completed"
                  else lit "[READ-WRITE] SELECT completed"))))))))

select_found-Complete :
    (tag : Text) (examine : Bool) (w : World) (found : Option Mailbox)
    → CompleteReply tag (select_found tag examine w found).0
unfolding select_found
select_found-Complete tag examine w none = ends_no tag (lit "NONEXISTENT") (lit "mailbox not found")
select_found-Complete tag examine w (some mailbox) = select_lines-Complete tag examine mailbox

pub select-Complete :
    (services : Services) (tag : Text) (examine : Bool) (args : List Text) (w : World)
    → CompleteReply tag (select services tag examine args w).0
unfolding select
select-Complete services tag examine args w =
    select_found-Complete tag examine w
      (mailbox_to_select services (account_of w.session.authenticated) (first_or_inbox args) w.db)

pub unselect-Complete :
    (tag : Text) (selected : Option Text) (w : World)
    → CompleteReply tag (unselect tag selected w).0
unfolding unselect
unselect-Complete tag none w = bad_state-Complete tag (lit "UNSELECT") (lit "a selected mailbox")
unselect-Complete tag (some mailbox) w = ends_ok tag (lit "UNSELECT completed")

close_result-Complete :
    (tag : Text) (w : World) (r : Result Done × Db) → CompleteReply tag (close_result tag w r).0
unfolding close_result
close_result-Complete tag w (err e, db) = tt
close_result-Complete tag w (ok result, db) = ends_ok tag (lit "CLOSE completed")

pub close-Complete :
    (services : Services) (tag : Text) (selected : Option Text) (w : World)
    → CompleteReply tag (close services tag selected w).0
unfolding close
close-Complete services tag none w = bad_state-Complete tag (lit "CLOSE") (lit "a selected mailbox")
close-Complete services tag (some mailbox) w = close_result-Complete tag w (
    purge_snapshot (not (is_read_only w.session.state) && services.repository)
      w.session.selected_mailbox_snapshot w.db)

pub completed-Complete : (tag name : Text) → Complete tag (completed tag name ∷ [])
completed-Complete tag name = ends_ok tag (name ++ lit " completed")

renamed-Complete :
    (tag source destination : Text) (w : World) (r : Result (Option Mailbox × Db))
    → CompleteReply tag (renamed tag source destination w r).0
unfolding renamed
renamed-Complete tag source destination w (err e) = tt
renamed-Complete tag source destination w (ok (none, db)) =
    ends_no tag (lit "NONEXISTENT") (lit "mailbox not found or destination already exists")
renamed-Complete tag source destination w (ok (some mailbox, db)) =
    completed-Complete tag (lit "RENAME")

rename_for-Complete :
    (tag : Text) (args : List Text) (w : World) (account_id : Option ℤ)
    → CompleteReply tag (rename_for tag args w account_id).0
unfolding rename_for
rename_for-Complete tag args w none =
    bad_state-Complete tag (lit "RENAME") (lit "an authenticated account")
rename_for-Complete tag [] w (some account_id) =
    ends_bad tag (lit "RENAME requires a source mailbox")
rename_for-Complete tag (source ∷ []) w (some account_id) =
    ends_bad tag (lit "RENAME requires a destination mailbox")
rename_for-Complete tag (source ∷ destination ∷ args) w (some account_id) =
    renamed-Complete tag source destination w (rename_mailbox account_id source destination w.db)

pub rename-Complete :
    (services : Services) (tag : Text) (args : List Text) (w : World)
    → CompleteReply tag (rename services tag args w).0
unfolding rename
rename-Complete services tag args w = elim (Bool-cases services.repository) [
  | inl h ↦ rw h (rename_for-Complete tag args w (account_of w.session.authenticated))
  | inr h ↦ rw h (completed-Complete tag (lit "RENAME"))
]
