-- ===== src/Session/Tests.antt =====
-- Sessions on a concrete database.
use imapped_lightmode.Base.{
  ℕ, ◌≡◌, refl, Bool, true, false, ◌&&◌, none, some, List, [], ◌∷◌, if◌then◌else◌, ok, inr,
}
use imapped_lightmode.Base.Int.{pos}
use imapped_lightmode.Text.{Text, lit, eq}
use imapped_lightmode.Text.Case.{to_ascii_uppercase}
use imapped_lightmode.Text.Split.{split}
use imapped_lightmode.Protocol
use imapped_lightmode.Protocol.{selected_mailbox, ParsedCommand, no}
use imapped_lightmode.Auth.{AuthContext}
use imapped_lightmode.Domain.Records.{Mailbox, MailboxMessage}
use imapped_lightmode.Db.{Db}
use imapped_lightmode.Db.Mailboxes.{find_mailbox, newest, is_named, with_id}
use imapped_lightmode.Db.Messages.{list_mailbox_messages, order_messages, insert_message, is_in}
use imapped_lightmode.Session.{
  ImapSession, Services, World, passed, check_selected, check_account, check_repository,
  check_found, account_of, selected_mailbox_name, is_read_only, SelectedMailboxSnapshot,
}
use imapped_lightmode.Session.Targets.{is_deleted, contains_number, uids_of}
use imapped_lightmode.Session.Select.{close}
use imapped_lightmode.Session.Expunge.{expunge, uid_expunge}
use imapped_lightmode.Session.Expunge.Laws.{Tells, expunge-Tells, uid_expunge-Tells}
use imapped_lightmode.Session.Select.Laws.{close-expunge}
use imapped_lightmode.Session.Verb
use imapped_lightmode.Session.Verb.{verb_of}
use imapped_lightmode.Session.Commands.{Others, handle, handle_parsed_command}
use imapped_lightmode.Session.ReadOnly.{handle-read_only}
use imapped_lightmode.Session.Invariant.{IsCoherent}
use imapped_lightmode.Session.Grants.{Granted}
use imapped_lightmode.Session.Connection.{connected}
use imapped_lightmode.Session.Authenticate.{Sasl, handle_authenticate_command}
use imapped_lightmode.Session.Reachable.{
  Reachable, connects, commands, authenticates, Reachable-IsCoherent, Reachable-Granted,
}
use imapped_lightmode.Session.Completion.{CompleteReply, ends_no}
use imapped_lightmode.Session.Completion.Replies.{handle-Complete}

abbrev context : AuthContext
context = record { user_id = pos 4; account_id = some (pos 1); username = b'u' ∷ [] }

abbrev services : Services
services = record {
  repository = true;
  mutation_engine = true;
  authenticate = λ username password.
      if eq username (b'u' ∷ []) && eq password (b'p' ∷ []) then ok (some context) else ok none;
  digest = record { json_text = λ payload. []; sha256_hex = λ bytes. bytes };
  collates = λ a b. true;
}

abbrev others : Others
others name tag args session db = (ok (no tag [] [] ∷ []), db)

abbrev box : Mailbox
box = record {
  id = pos 2;
  account_id = pos 1;
  name = b'b' ∷ [];
  canonical_name = b'b' ∷ [];
  delimiter = none;
  attributes = [];
  subscribed = true;
  special_use = none;
  uidvalidity = some (pos 1);
  uidnext = none;
  highestmodseq = some (pos 5);
  exists_count = pos 3;
  recent_count = pos 0;
  unseen_count = pos 0;
}

abbrev message : ℕ → List Text → MailboxMessage
message uid flags = record {
  id = pos uid;
  mailbox_id = pos 2;
  message_id = pos uid;
  local_uid = pos uid;
  upstream_uid = none;
  modseq = none;
  flags = flags;
  keywords = [];
  is_expunged = false;
}

abbrev deleted : List Text
deleted = lit "\\deleted" ∷ []

-- The messages 3, 5 and 8; the first and the last are marked.
abbrev db : Db
db = record {
  mailboxes = box ∷ [];
  messages = message 5 [] ∷ message 8 deleted ∷ message 3 deleted ∷ [];
  mutations = [];
  sessions = [];
  uid_mappings = [];
  contents = [];
  mime_parts = [];
  quotas = [];
  mail_accounts = [];
  sync_states = [];
  next_mailbox_id = 3;
  next_message_row_id = 9;
  next_mutation_id = 1;
  next_content_id = 1;
}

abbrev snapshot : SelectedMailboxSnapshot
snapshot = record { account_id = pos 1; mailbox_id = pos 2; exists_count = pos 3 }

abbrev session_in : Bool → ImapSession
session_in read_only = record {
  state = selected_mailbox read_only (b'b' ∷ []);
  authenticated = some context;
  auth_counted = true;
  connection_id = [];
  remote_addr = none;
  session_record_created = true;
  selected_mailbox_snapshot = some snapshot;
  starttls_available = true;
  tls_active = false;
}

abbrev world_in : Bool → World
world_in read_only = record {
  session = session_in read_only;
  db = db;
  authenticated_sessions = pos 1;
}

abbrev tag : Text
tag = b't' ∷ []

selects : check_selected services (lit "EXPUNGE") tag (session_in false) db ≡ passed (pos 1, box)
unfolding check_selected check_account check_repository check_found account_of selected_mailbox_name
    find_mailbox newest is_named eq
selects = refl

expunge-Tells_example :
    Tells
      (pos 2)
      (Protocol.ok tag (lit "EXPUNGE completed"))
      is_deleted
      db
      (expunge services tag [] (session_in false) db)
unfolding list_mailbox_messages order_messages insert_message is_in is_read_only
expunge-Tells_example =
    expunge-Tells services tag (session_in false) db (pos 1) box selects refl
      ((refl, (refl, tt)), ((refl, tt), (tt, tt)))

uid_expunge-Tells_example :
    Tells
      (pos 2)
      (Protocol.ok tag (lit "UID EXPUNGE completed"))
      (λ m.
        contains_number (uids_of (list_mailbox_messages (pos 2) db) (lit "4:9")) m.local_uid
        && is_deleted m)
      db
      (uid_expunge tag (lit "4:9" ∷ []) false box db)
unfolding list_mailbox_messages order_messages insert_message is_in with_id
uid_expunge-Tells_example =
    uid_expunge-Tells tag (lit "4:9") [] db box refl ((refl, (refl, tt)), ((refl, tt), (tt, tt)))

close-expunge_example :
    list_mailbox_messages (pos 2) (close services tag (some (b'b' ∷ [])) (world_in false)).1.db
    ≡ list_mailbox_messages (pos 2) (expunge services tag [] (session_in false) db).1
unfolding list_mailbox_messages order_messages insert_message is_in is_read_only
close-expunge_example =
    close-expunge services tag (b'b' ∷ []) (world_in false) (pos 1) box snapshot refl refl refl refl
      refl selects ((refl, (refl, tt)), ((refl, tt), (tt, tt)))

handle-read_only_example :
    (handle services others Verb.store tag
      (lit "STORE")
      (lit "1" ∷ lit "FLAGS" ∷ lit "()" ∷ [])
      (world_in true)).1.db
    ≡ db
unfolding is_read_only
handle-read_only_example =
    handle-read_only services others Verb.store tag (lit "STORE")
      (lit "1" ∷ lit "FLAGS" ∷ lit "()" ∷ []) (world_in true) refl refl

others_complete :
    (name tag : Text) (args : List Text) (session : ImapSession) (db : Db)
    → CompleteReply tag (others name tag args session db).0
others_complete name tag args session _ = ends_no tag [] []

handle-Complete_example :
    CompleteReply tag
      (handle services others Verb.expunge tag (lit "EXPUNGE") [] (world_in false)).0
handle-Complete_example =
    handle-Complete services others others_complete Verb.expunge tag (lit "EXPUNGE") []
      (world_in false)

abbrev start : World
start = record {
  session = connected (b'c' ∷ []) none true false;
  db = db;
  authenticated_sessions = pos 6;
}

-- A decoder that has nothing to do.
abbrev sasl : Sasl
sasl = record { decode = λ s. inr s; from_utf8 = λ s. ok s }

-- The user `u` with the password `p`, as an initial response.
abbrev authenticate_command : ParsedCommand
authenticate_command = record {
  tag = tag;
  name = lit "authenticate";
  args = lit "plain" ∷ (0 ∷ b'u' ∷ 0 ∷ b'p' ∷ []) ∷ [];
}

abbrev noop_command : ParsedCommand
noop_command = record { tag = tag; name = lit "noop"; args = [] }

abbrev idle_world : World
idle_world = (handle_parsed_command services (λ literal. others) noop_command none start).1

abbrev logged_in : World
logged_in = (handle_authenticate_command sasl services authenticate_command none idle_world).1

reaches : Reachable services (λ literal. others) sasl (pos 6) logged_in
reaches =
    authenticates authenticate_command none
      (commands noop_command none (connects (b'c' ∷ []) none true false db))

Reachable-IsCoherent_example : IsCoherent (pos 6) logged_in
Reachable-IsCoherent_example =
    Reachable-IsCoherent services (λ literal. others) sasl (pos 6) logged_in reaches

acts_for : logged_in.session.authenticated ≡ some context
unfolding handle_parsed_command handle verb_of handle_authenticate_command connected eq lit
    to_ascii_uppercase split
acts_for = refl

Reachable-Granted_example : Granted services context
Reachable-Granted_example =
    Reachable-Granted services (λ literal. others) sasl (pos 6) logged_in context reaches acts_for
