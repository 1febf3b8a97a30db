-- ===== src/Session/Grants.antt =====
-- Whom the handlers of LOGIN, AUTHENTICATE and the other commands let a session act for: only whom the
-- authenticator has let in.
use imapped_lightmode.Base.{
  ◌≡◌, refl, ◌⊎◌, inl, inr, Bool, true, false, not, ◌&&◌, Option, none, some, List, [], ◌∷◌, Result,
  ok, err, arith,
}
use imapped_lightmode.Base.Int.{ℤ}
use imapped_lightmode.Text.{Text}
use imapped_lightmode.Protocol.{ParsedCommand}
use imapped_lightmode.Auth.{AuthContext}
use imapped_lightmode.Domain.Records.{Mailbox}
use imapped_lightmode.Db.{Db, Done}
use imapped_lightmode.Db.Mailboxes.{rename_mailbox}
use imapped_lightmode.Session.{Services, World, selected_mailbox_name, account_of, is_read_only}
use imapped_lightmode.Session.Greeting.{
  activate_authenticated_session, login_result, login, logout_handler,
}
use imapped_lightmode.Session.Select.{
  first_or_inbox, mailbox_to_select, select_found, select, leave_mailbox, unselect, purge_snapshot,
  close_result, close,
}
use imapped_lightmode.Session.Mailboxes.{renamed, rename_for, rename}
use imapped_lightmode.Session.Authenticate.{
  Sasl, authenticate_result, authenticate_as, handle_authenticate_command,
}
use imapped_lightmode.Session.Authenticate.Cases.{authenticate_cases}
use imapped_lightmode.Session.Verb.{Verb}
use imapped_lightmode.Session.Commands.{Others, handle}

-- The authenticator has granted this context for some name and password.
abbrev pub Granted : Services → AuthContext → Type 0
Granted services context =
    (username : Text) × (password : Text) × (services.authenticate username password
      ≡ ok (some context))

-- The context of `next` is that of `w`, or one that the authenticator has granted.
abbrev pub Kept : Services → World → World → Type 0
Kept services w next =
    (next.session.authenticated ≡ w.session.authenticated)
    ⊎ ((context : AuthContext) × (next.session.authenticated ≡ some context)
        × Granted services context)

login_result-Granted :
    (services : Services) (tag username password : Text) (w : World)
    (r : Result (Option AuthContext))
    → services.authenticate username password ≡ r
    → Kept services w (login_result services tag w r).1
unfolding login_result activate_authenticated_session
login_result-Granted services tag username password w (err e) h = inl refl
login_result-Granted services tag username password w (ok none) h = inl refl
login_result-Granted services tag username password w (ok (some context)) h =
    inr (context, refl, (username, password, h))

login-Granted :
    (services : Services) (tag : Text) (args : List Text) (w : World)
    → Kept services w (login services tag args w).1
unfolding login
login-Granted services tag [] w = inl refl
login-Granted services tag (username ∷ []) w = inl refl
login-Granted services tag (username ∷ password ∷ args) w =
    login_result-Granted services tag username password w (services.authenticate username password)
      refl

select_found-authenticated :
    (tag : Text) (examine : Bool) (w : World) (mailbox : Option Mailbox)
    → (select_found tag examine w mailbox).1.session.authenticated ≡ w.session.authenticated
unfolding select_found
select_found-authenticated tag examine w none = refl
select_found-authenticated tag examine w (some mailbox) = refl

select-authenticated :
    (services : Services) (tag : Text) (examine : Bool) (args : List Text) (w : World)
    → (select services tag examine args w).1.session.authenticated ≡ w.session.authenticated
unfolding select
select-authenticated services tag examine args w =
    select_found-authenticated tag examine w
      (mailbox_to_select services (account_of w.session.authenticated) (first_or_inbox args) w.db)

unselect-authenticated :
    (tag : Text) (selected : Option Text) (w : World)
    → (unselect tag selected w).1.session.authenticated ≡ w.session.authenticated
unfolding unselect leave_mailbox
unselect-authenticated tag none w = refl
unselect-authenticated tag (some mailbox) w = refl

close_result-authenticated :
    (tag : Text) (w : World) (r : Result Done × Db)
    → (close_result tag w r).1.session.authenticated ≡ w.session.authenticated
unfolding close_result leave_mailbox
close_result-authenticated tag w (err e, db) = refl
close_result-authenticated tag w (ok result, db) = refl

close-authenticated :
    (services : Services) (tag : Text) (selected : Option Text) (w : World)
    → (close services tag selected w).1.session.authenticated ≡ w.session.authenticated
unfolding close
close-authenticated services tag none w = refl
close-authenticated services tag (some mailbox) w = close_result-authenticated tag w (
    purge_snapshot (not (is_read_only w.session.state) && services.repository)
      w.session.selected_mailbox_snapshot w.db)

renamed-authenticated :
    (tag source destination : Text) (w : World) (r : Result (Option Mailbox × Db))
    → (renamed tag source destination w r).1.session.authenticated ≡ w.session.authenticated
unfolding renamed
renamed-authenticated tag source destination w (err e) = refl
renamed-authenticated tag source destination w (ok (none, db)) = refl
renamed-authenticated tag source destination w (ok (some mailbox, db)) = refl

rename_for-authenticated :
    (tag : Text) (args : List Text) (w : World) (account_id : Option ℤ)
    → (rename_for tag args w account_id).1.session.authenticated ≡ w.session.authenticated
unfolding rename_for
rename_for-authenticated tag args w none = refl
rename_for-authenticated tag [] w (some account_id) = refl
rename_for-authenticated tag (source ∷ []) w (some account_id) = refl
rename_for-authenticated tag (source ∷ destination ∷ args) w (some account_id) =
    renamed-authenticated tag source destination w
      (rename_mailbox account_id source destination w.db)

rename-authenticated :
    (services : Services) (tag : Text) (args : List Text) (w : World)
    → (rename services tag args w).1.session.authenticated ≡ w.session.authenticated
unfolding rename
rename-authenticated services tag args w =
    ground (arith, rename_for-authenticated tag args w (account_of w.session.authenticated))

pub handle-Kept :
    (services : Services) (others : Others) (verb : Verb) (tag name : Text) (args : List Text)
    (w : World)
    → Kept services w (handle services others verb tag name args w).1
unfolding handle logout_handler
handle-Kept services others Verb.capability tag name args w = inl refl
handle-Kept services others Verb.noop tag name args w = inl refl
handle-Kept services others Verb.logout tag name args w = inl refl
handle-Kept services others Verb.login tag name args w = login-Granted services tag args w
handle-Kept services others Verb.starttls tag name args w = inl refl
handle-Kept services others Verb.select tag name args w =
    inl (select-authenticated services tag false args w)
handle-Kept services others Verb.examine tag name args w =
    inl (select-authenticated services tag true args w)
handle-Kept services others Verb.list tag name args w = inl refl
handle-Kept services others Verb.lsub tag name args w = inl refl
handle-Kept services others Verb.status tag name args w = inl refl
handle-Kept services others Verb.search tag name args w = inl refl
handle-Kept services others Verb.sort tag name args w = inl refl
handle-Kept services others Verb.thread tag name args w = inl refl
handle-Kept services others Verb.fetch tag name args w = inl refl
handle-Kept services others Verb.store tag name args w = inl refl
handle-Kept services others Verb.uid tag name args w = inl refl
handle-Kept services others Verb.append tag name args w = inl refl
handle-Kept services others Verb.idle tag name args w = inl refl
handle-Kept services others Verb.check tag name args w = inl refl
handle-Kept services others Verb.unselect tag name args w =
    inl (unselect-authenticated tag (selected_mailbox_name w.session.state) w)
handle-Kept services others Verb.close tag name args w =
    inl (close-authenticated services tag (selected_mailbox_name w.session.state) w)
handle-Kept services others Verb.expunge tag name args w = inl refl
handle-Kept services others Verb.create tag name args w = inl refl
handle-Kept services others Verb.delete tag name args w = inl refl
handle-Kept services others Verb.rename tag name args w =
    inl (rename-authenticated services tag args w)
handle-Kept services others Verb.subscribe tag name args w = inl refl
handle-Kept services others Verb.unsubscribe tag name args w = inl refl
handle-Kept services others Verb.copy tag name args w = inl refl
handle-Kept services others Verb.move tag name args w = inl refl
handle-Kept services others Verb.namespace tag name args w = inl refl
handle-Kept services others Verb.id tag name args w = inl refl
handle-Kept services others Verb.enable tag name args w = inl refl
handle-Kept services others Verb.condstore tag name args w = inl refl
handle-Kept services others Verb.other tag name args w = inl refl

authenticate_result-Granted :
    (services : Services) (tag username password : Text) (sent : List Text) (w : World)
    (r : Result (Option AuthContext))
    → services.authenticate username password ≡ r
    → Kept services w (authenticate_result services tag sent w r).1
unfolding authenticate_result activate_authenticated_session
authenticate_result-Granted services tag username password sent w (err e) h = inl refl
authenticate_result-Granted services tag username password sent w (ok none) h = inl refl
authenticate_result-Granted services tag username password sent w (ok (some context)) h =
    inr (context, refl, (username, password, h))

authenticate_as-Granted :
    (services : Services) (tag : Text) (sent : List Text) (w : World) (r : Result (Text × Text))
    → Kept services w (authenticate_as services tag sent w r).1
unfolding authenticate_as
authenticate_as-Granted services tag sent w (err e) = inl refl
authenticate_as-Granted services tag sent w (ok (authcid, password)) =
    authenticate_result-Granted services tag authcid password sent w
      (services.authenticate authcid password) refl

pub authenticate-Kept :
    (services : Services) (sasl : Sasl) (command : ParsedCommand) (response : Option Text)
    (w : World)
    → Kept services w (handle_authenticate_command sasl services command response w).1
authenticate-Kept services sasl command response w =
    authenticate_cases sasl services (Kept services w) command.tag response w (inl refl)
      (λ sent r. authenticate_as-Granted services command.tag sent w r) command.name command.args
