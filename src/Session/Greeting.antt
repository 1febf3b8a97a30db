-- ===== src/Session/Greeting.antt =====
-- crates/imap-server/src/imap.rs: CAPABILITY, LOGIN, LOGOUT, STARTTLS, ENABLE, CONDSTORE, IDLE, CHECK
-- and UNSELECT, and `activate_authenticated_session`.
use imapped_lightmode.Base.{
  zero, suc, Bool, true, false, not, ◌&&◌, Option, none, some, List, [], ◌∷◌, ◌++◌, map,
  if◌then◌else◌, retain, is_empty, Result, ok, err,
}
use imapped_lightmode.Base.Int.{ℤ, pos, negsuc, suc_ℤ}
use imapped_lightmode.Text.{Text, lit, join}
use imapped_lightmode.Text.Case.{to_ascii_uppercase, eq_ignore_ascii_case}
use imapped_lightmode.Protocol
use imapped_lightmode.Protocol.{
  State, not_authenticated, authenticated, selected_mailbox, logout, bad, no,
}
use imapped_lightmode.Auth.{AuthContext}
use imapped_lightmode.Domain.Records.{SessionRecord}
use imapped_lightmode.Db.{Db}
use imapped_lightmode.Db.Sessions.{create_session}
use imapped_lightmode.Session.{
  ImapSession, Services, World, Reply, capabilities, selected_mailbox_name, bad_state,
}

unfoldable pub pred_ℤ : ℤ → ℤ
pred_ℤ (pos zero) = negsuc 0
pred_ℤ (pos (suc n)) = pos n
pred_ℤ (negsuc n) = negsuc (suc n)

unfoldable pub capability : Text → ImapSession → List Text
unfolding capabilities Protocol.ok
capability tag session =
    (lit "* CAPABILITY " ++ join (lit " ") (capabilities session session.state))
    ∷ Protocol.ok tag (lit "CAPABILITY completed")
    ∷ []

-- The first login of a connection is counted.
unfoldable pub count_login : World → World
count_login w = if w.session.auth_counted then w else record w {
  session = record w.session { auth_counted = true };
  authenticated_sessions = suc_ℤ w.authenticated_sessions;
}

abbrev pub session_record : AuthContext → ImapSession → SessionRecord
session_record context session = record {
  user_id = context.user_id;
  account_id = context.account_id;
  connection_id = session.connection_id;
  remote_addr = session.remote_addr;
}

unfoldable pub note_record : World → Result (SessionRecord × Db) → World
note_record w (err e) = w
note_record w (ok (row, db)) = record w {
  session = record w.session { session_record_created = true };
  db = db;
}

-- A record that cannot be written is no failure of the login.
unfoldable pub record_session : Services → AuthContext → World → World
unfolding note_record create_session
record_session services context w =
    if services.repository && not w.session.session_record_created
    then note_record w (create_session (session_record context w.session) w.db)
    else w

unfoldable pub activate_authenticated_session : Services → AuthContext → World → World
unfolding count_login record_session
activate_authenticated_session services context w =
    let recorded = record_session services context (count_login w) in
    record recorded {
      session = record recorded.session {
        authenticated = some context;
        state = authenticated;
        selected_mailbox_snapshot = none;
      };
    }

unfoldable pub login_result : Services → Text → World → Result (Option AuthContext) → Reply × World
unfolding activate_authenticated_session Protocol.ok no
login_result services tag w (err e) = (err e, w)
login_result services tag w (ok none) =
    (ok (no tag (lit "AUTHENTICATIONFAILED") (lit "invalid credentials") ∷ []), w)
login_result services tag w (ok (some context)) = (
  ok (Protocol.ok tag (lit "LOGIN completed") ∷ []),
  activate_authenticated_session services context w,
)

unfoldable pub login : Services → Text → List Text → World → Reply × World
unfolding login_result bad
login services tag (username ∷ password ∷ args) w =
    login_result services tag w (services.authenticate username password)
login services tag (username ∷ []) w =
    (ok (bad tag (lit "LOGIN requires username and password") ∷ []), w)
login services tag [] w = (ok (bad tag (lit "LOGIN requires username and password") ∷ []), w)

unfoldable pub logout_handler : Text → World → Reply × World
unfolding pred_ℤ Protocol.ok
logout_handler tag w = (
  ok (lit "* BYE IMAP cache proxy logging out" ∷ Protocol.ok tag (lit "LOGOUT completed") ∷ []),
  record w {
    session = record w.session {
      auth_counted = false;
      state = logout;
      selected_mailbox_snapshot = none;
    };
    authenticated_sessions =
        if w.session.auth_counted
        then pred_ℤ w.authenticated_sessions
        else w.authenticated_sessions;
  },
)

unfoldable pub is_not_authenticated : State → Bool
is_not_authenticated not_authenticated = true
is_not_authenticated authenticated = false
is_not_authenticated (selected_mailbox read_only mailbox) = false
is_not_authenticated logout = false

unfoldable pub starttls : Text → ImapSession → List Text
unfolding is_not_authenticated no Protocol.ok
starttls tag session =
    if session.tls_active
    then no tag (lit "BADSTATE") (lit "STARTTLS is already active") ∷ []
    else if not session.starttls_available
    then no tag (lit "BADSTATE") (lit "STARTTLS is not available") ∷ []
    else if not (is_not_authenticated session.state)
    then no tag (lit "BADSTATE") (lit "STARTTLS requires a not-authenticated session") ∷ []
    else Protocol.ok tag (lit "Begin TLS negotiation now") ∷ []

-- `State::Authenticated | State::SelectedMailbox { .. }`.
unfoldable pub is_logged_in : State → Bool
is_logged_in not_authenticated = false
is_logged_in authenticated = true
is_logged_in (selected_mailbox read_only mailbox) = true
is_logged_in logout = false

unfoldable pub enabled_line : List Text → List Text → List Text
enabled_line enabled rest =
    if is_empty enabled then rest else (lit "* ENABLED " ++ join (lit " ") enabled) ∷ rest

unfoldable pub enable : Text → List Text → ImapSession → List Text
unfolding is_logged_in enabled_line bad_state Protocol.ok
enable tag args session =
    if is_logged_in session.state
    then enabled_line
        (map to_ascii_uppercase (retain (λ arg. eq_ignore_ascii_case arg (lit "CONDSTORE")) args))
        (Protocol.ok tag (lit "ENABLE completed") ∷ [])
    else bad_state tag (lit "ENABLE") (lit "an authenticated session") ∷ []

unfoldable pub condstore : Text → ImapSession → List Text
unfolding is_logged_in bad_state Protocol.ok
condstore tag session =
    if is_logged_in session.state
    then Protocol.ok tag (lit "CONDSTORE completed") ∷ []
    else bad_state tag (lit "CONDSTORE") (lit "an authenticated session") ∷ []

-- The reply of a command that needs a selected mailbox.
unfoldable pub when_selected : Text → Text → Option Text → List Text → List Text
unfolding bad_state
when_selected tag name none lines = bad_state tag name (lit "a selected mailbox") ∷ []
when_selected tag name (some mailbox) lines = lines

unfoldable pub idle : Text → ImapSession → List Text
unfolding when_selected selected_mailbox_name Protocol.ok
idle tag session =
    when_selected tag (lit "IDLE") (selected_mailbox_name session.state)
      (lit "+ idling" ∷ Protocol.ok tag (lit "IDLE terminated") ∷ [])

unfoldable pub check : Text → ImapSession → List Text
unfolding when_selected selected_mailbox_name Protocol.ok
check tag session =
    when_selected tag (lit "CHECK") (selected_mailbox_name session.state)
      (Protocol.ok tag (lit "CHECK completed") ∷ [])
