-- ===== src/Session.antt =====
-- crates/imap-server/src/imap.rs: `ImapSession`, the state that it keeps between two commands, and the
-- tests that its handlers begin with.
mod Tests
pub mod Targets
pub mod Greeting
pub mod Select
pub mod Mailboxes
pub mod Listing
pub mod Flags
pub mod Expunge
pub mod Transfer
pub mod Verb
pub mod Commands
pub mod Authenticate
pub mod Connection
pub mod Checks
pub mod Invariant
pub mod Completion
pub mod ReadOnly
pub mod Grants
pub mod Reachable
use imapped_lightmode.Base.{
  Bool, true, false, not, ◌&&◌, Option, none, some, List, [], ◌∷◌, ◌++◌, if◌then◌else◌, Result, ok,
}
use imapped_lightmode.Base.Int.{ℤ}
use imapped_lightmode.Text.{Text, lit}
use imapped_lightmode.Protocol.{
  State, not_authenticated, authenticated, selected_mailbox, logout, no,
}
use imapped_lightmode.Auth.{AuthContext}
use imapped_lightmode.Domain.Records.{Mailbox}
use imapped_lightmode.Db.{Db, Action}
use imapped_lightmode.Db.Mailboxes.{find_mailbox}
use imapped_lightmode.Sync.Queue.{Digest}

pub record SelectedMailboxSnapshot : Type 0 where
  pub account_id : ℤ
  pub mailbox_id : ℤ
  pub exists_count : ℤ

pub record ImapSession : Type 0 where
  pub state : State
  pub authenticated : Option AuthContext
  pub auth_counted : Bool
  pub connection_id : Text
  pub remote_addr : Option Text
  pub session_record_created : Bool
  pub selected_mailbox_snapshot : Option SelectedMailboxSnapshot
  pub starttls_available : Bool
  pub tls_active : Bool

-- `ImapSession::new`, for a connection with the given id.
unfoldable pub new_session : Text → ImapSession
new_session connection_id = record {
  state = not_authenticated;
  authenticated = none;
  auth_counted = false;
  connection_id = connection_id;
  remote_addr = none;
  session_record_created = false;
  selected_mailbox_snapshot = none;
  starttls_available = true;
  tls_active = false;
}

-- What the handlers use of `AppServices`: whether there is a repository and a mutation engine, the
-- `Authenticator`, the digest of the engine, and the collation of the database.
pub record Services : Type 0 where
  pub repository : Bool
  pub mutation_engine : Bool
  pub authenticate : Text → Text → Result (Option AuthContext)
  pub digest : Digest
  pub collates : Text → Text → Bool

-- A session, the database, and the metric that counts the sessions that are logged in.
pub record World : Type 0 where
  pub session : ImapSession
  pub db : Db
  pub authenticated_sessions : ℤ

abbrev pub Reply : Type 0
Reply = Result (List Text)

-- A handler that leaves the session as it is.
abbrev pub on_db : (ImapSession → Action (List Text)) → World → Reply × World
on_db handler w = let result = handler w.session w.db in (result.0, record w { db = result.1 })

abbrev pub account_capabilities : List Text
account_capabilities =
    lit "IMAP4rev1"
    ∷ lit "UIDPLUS"
    ∷ lit "NAMESPACE"
    ∷ lit "SPECIAL-USE"
    ∷ lit "LIST-STATUS"
    ∷ lit "IDLE"
    ∷ lit "CONDSTORE"
    ∷ lit "ENABLE"
    ∷ lit "ID"
    ∷ lit "ESEARCH"
    ∷ lit "MOVE"
    ∷ lit "SORT"
    ∷ lit "THREAD=REFERENCES"
    ∷ lit "THREAD=ORDEREDSUBJECT"
    ∷ lit "UNSELECT"
    ∷ lit "AUTH=PLAIN"
    ∷ lit "AUTH=XOAUTH2"
    ∷ []

unfoldable pub capabilities : ImapSession → State → List Text
capabilities session not_authenticated =
    lit "IMAP4rev1"
    ∷ ((if session.starttls_available && not session.tls_active then lit "STARTTLS" ∷ [] else [])
        ++ lit "AUTH=PLAIN" ∷ lit "AUTH=XOAUTH2" ∷ [])
capabilities session authenticated = account_capabilities
capabilities session (selected_mailbox read_only mailbox) = account_capabilities
capabilities session logout = lit "IMAP4rev1" ∷ []

-- `selected_mailbox_name_ref`.
unfoldable pub selected_mailbox_name : State → Option Text
selected_mailbox_name not_authenticated = none
selected_mailbox_name authenticated = none
selected_mailbox_name (selected_mailbox read_only mailbox) = some mailbox
selected_mailbox_name logout = none

-- `selected_mailbox_is_read_only().unwrap_or(false)`.
unfoldable pub is_read_only : State → Bool
is_read_only not_authenticated = false
is_read_only authenticated = false
is_read_only (selected_mailbox read_only mailbox) = read_only
is_read_only logout = false

unfoldable pub account_of : Option AuthContext → Option ℤ
account_of none = none
account_of (some context) = context.account_id

-- A test that ends the handler with a line, or gives what the handler goes on with.
pub data Checked (A : Type 0) : Type 0 where
  refused : Text → Checked A
  passed : A → Checked A

unfoldable pub bad_state : Text → Text → Text → Text
unfolding no
bad_state tag name needs = no tag (lit "BADSTATE") (name ++ (lit " requires " ++ needs))

unfoldable pub check_found : Text → ℤ → Option Mailbox → Checked (ℤ × Mailbox)
unfolding no
check_found tag account_id none =
    refused (no tag (lit "NONEXISTENT") (lit "selected mailbox not found"))
check_found tag account_id (some mailbox) = passed (account_id, mailbox)

unfoldable pub check_repository :
    Services → Text → Text → Db → ℤ → Option Text → Checked (ℤ × Mailbox)
unfolding check_found bad_state
check_repository services name tag db account_id none =
    refused (bad_state tag name (lit "a selected mailbox"))
check_repository services name tag db account_id (some selected) =
    if services.repository
    then check_found tag account_id (find_mailbox account_id selected db)
    else refused (bad_state tag name (lit "a database-backed repository"))

unfoldable pub check_account :
    Services → Text → Text → ImapSession → Db → Option ℤ → Checked (ℤ × Mailbox)
unfolding check_repository bad_state selected_mailbox_name
check_account services name tag session db none =
    refused (bad_state tag name (lit "an authenticated account"))
check_account services name tag session db (some account_id) =
    check_repository services name tag db account_id (selected_mailbox_name session.state)

-- The tests that STORE, EXPUNGE, COPY, MOVE and UID begin with: an account, a selected mailbox, a
-- repository, and that the mailbox is still there.
unfoldable pub check_selected : Services → Text → Text → ImapSession → Db → Checked (ℤ × Mailbox)
unfolding check_account account_of
check_selected services name tag session db =
    check_account services name tag session db (account_of session.authenticated)
