-- ===== src/Session/Commands.antt =====
-- crates/imap-server/src/imap.rs: `handle_parsed_command`. The branches of FETCH, SEARCH, SORT, THREAD
-- and APPEND, and of UID with the first four, are an argument, `others`; it gets the name of the
-- command and the literal. The metrics of the commands are left out.
use imapped_lightmode.Base.{true, false, Option, none, some, List, [], ◌∷◌, ◌++◌, Result, ok, err}
use imapped_lightmode.Base.Int.{ℤ}
use imapped_lightmode.Text.{Text, lit}
use imapped_lightmode.Text.Case.{to_ascii_uppercase}
use imapped_lightmode.Protocol.{ParsedCommand, bad, no}
use imapped_lightmode.Protocol.Command.{parse_command}
use imapped_lightmode.Domain.Records.{Mailbox}
use imapped_lightmode.Db.{Action, pure}
use imapped_lightmode.Session.{
  ImapSession, Services, World, Reply, on_db, Checked, refused, passed, selected_mailbox_name,
  is_read_only, check_selected,
}
use imapped_lightmode.Session.Greeting.{
  capability, login, logout_handler, starttls, enable, condstore, idle, check,
}
use imapped_lightmode.Session.Select.{select, unselect, close}
use imapped_lightmode.Session.Mailboxes.{create, delete, rename, subscribe, completed}
use imapped_lightmode.Session.Listing.{list, status}
use imapped_lightmode.Session.Flags.{store, uid_store}
use imapped_lightmode.Session.Expunge.{expunge, uid_expunge}
use imapped_lightmode.Session.Transfer.{copy_or_move, uid_copy_or_move}
use imapped_lightmode.Session.Verb.{Verb, verb_of}
use imapped_lightmode.Session.Verb.Uid
use imapped_lightmode.Session.Verb.Uid.{UidVerb, uid_verb_of}

abbrev pub namespace_lines : Text → List Text
namespace_lines tag =
    lit "* NAMESPACE ((\"\" \"/\")) NIL NIL" ∷ completed tag (lit "NAMESPACE") ∷ []

abbrev pub id_lines : Text → List Text
id_lines tag =
    lit
      "* ID (\"name\" \"imap-cache-rs\" \"vendor\" \"openai\" \"support-url\" \"https://openai.com\")"
    ∷ completed tag (lit "ID")
    ∷ []

unfoldable pub unimplemented : Text → Text → Text
unfolding no
unimplemented tag name = no tag (lit "UNIMPLEMENTED") (name ++ lit " is not yet implemented")

abbrev pub replies : List Text → World → Reply × World
replies lines w = (ok lines, w)

abbrev pub Others : Type 0
Others = Text → Text → List Text → ImapSession → Action (List Text)

module _ (services : Services) (others : Others) where
  -- The branches of UID, where the mailbox and its account are known.
  unfoldable pub handle_uid :
      UidVerb → Text → Text → List Text → ImapSession → ℤ → Mailbox → Action (List Text)
  unfolding uid_copy_or_move uid_expunge uid_store unimplemented is_read_only
  handle_uid Uid.fetch tag sub args session account_id mailbox =
      others (lit "UID FETCH") tag args session
  handle_uid Uid.search tag sub args session account_id mailbox =
      others (lit "UID SEARCH") tag args session
  handle_uid Uid.sort tag sub args session account_id mailbox =
      others (lit "UID SORT") tag args session
  handle_uid Uid.thread tag sub args session account_id mailbox =
      others (lit "UID THREAD") tag args session
  handle_uid Uid.copy tag sub args session account_id mailbox =
      uid_copy_or_move services tag (lit "UID COPY") false args (is_read_only session.state)
        account_id mailbox
  handle_uid Uid.move tag sub args session account_id mailbox =
      uid_copy_or_move services tag (lit "UID MOVE") true args (is_read_only session.state)
        account_id mailbox
  handle_uid Uid.expunge tag sub args session account_id mailbox =
      uid_expunge tag args (is_read_only session.state) mailbox
  handle_uid Uid.store tag sub args session account_id mailbox =
      uid_store services tag args (is_read_only session.state) account_id mailbox
  handle_uid Uid.other tag sub args session account_id mailbox =
      pure (unimplemented tag (lit "UID " ++ sub) ∷ [])

  unfoldable pub uid_checked :
      Text → Text → List Text → ImapSession → Checked (ℤ × Mailbox) → Action (List Text)
  unfolding handle_uid uid_verb_of
  uid_checked tag sub args session (refused line) = pure (line ∷ [])
  uid_checked tag sub args session (passed (account_id, mailbox)) =
      handle_uid (uid_verb_of sub) tag sub args session account_id mailbox

  unfoldable pub uid : Text → List Text → ImapSession → Action (List Text)
  unfolding uid_checked check_selected bad
  uid tag [] session = pure (bad tag (lit "UID requires a subcommand") ∷ [])
  uid tag (sub ∷ args) session = λ db.
      uid_checked tag (to_ascii_uppercase sub) args session
        (check_selected services (lit "UID") tag session db) db

  unfoldable pub handle : Verb → Text → Text → List Text → World → Reply × World
  unfolding capability login logout_handler starttls enable condstore idle check select unselect
      close create delete rename subscribe list status store expunge copy_or_move uid unimplemented
      selected_mailbox_name
  handle Verb.capability tag name args w = replies (capability tag w.session) w
  handle Verb.noop tag name args w = replies (completed tag (lit "NOOP") ∷ []) w
  handle Verb.logout tag name args w = logout_handler tag w
  handle Verb.login tag name args w = login services tag args w
  handle Verb.starttls tag name args w = replies (starttls tag w.session) w
  handle Verb.select tag name args w = select services tag false args w
  handle Verb.examine tag name args w = select services tag true args w
  handle Verb.list tag name args w = on_db (λ s db. (list services tag name args s db, db)) w
  handle Verb.lsub tag name args w = on_db (λ s db. (list services tag name args s db, db)) w
  handle Verb.status tag name args w = on_db (λ s db. (status services tag args s db, db)) w
  handle Verb.search tag name args w = on_db (others (lit "SEARCH") tag args) w
  handle Verb.sort tag name args w = on_db (others (lit "SORT") tag args) w
  handle Verb.thread tag name args w = on_db (others (lit "THREAD") tag args) w
  handle Verb.fetch tag name args w = on_db (others (lit "FETCH") tag args) w
  handle Verb.store tag name args w = on_db (store services tag args) w
  handle Verb.uid tag name args w = on_db (uid tag args) w
  handle Verb.append tag name args w = on_db (others (lit "APPEND") tag args) w
  handle Verb.idle tag name args w = replies (idle tag w.session) w
  handle Verb.check tag name args w = replies (check tag w.session) w
  handle Verb.unselect tag name args w = unselect tag (selected_mailbox_name w.session.state) w
  handle Verb.close tag name args w = close services tag (selected_mailbox_name w.session.state) w
  handle Verb.expunge tag name args w = on_db (expunge services tag args) w
  handle Verb.create tag name args w = on_db (create services tag args) w
  handle Verb.delete tag name args w = on_db (delete services tag args) w
  handle Verb.rename tag name args w = rename services tag args w
  handle Verb.subscribe tag name args w = on_db (subscribe services tag name args) w
  handle Verb.unsubscribe tag name args w = on_db (subscribe services tag name args) w
  handle Verb.copy tag name args w = on_db (copy_or_move services tag name false args) w
  handle Verb.move tag name args w = on_db (copy_or_move services tag name true args) w
  handle Verb.namespace tag name args w = replies (namespace_lines tag) w
  handle Verb.id tag name args w = replies (id_lines tag) w
  handle Verb.enable tag name args w = replies (enable tag args w.session) w
  handle Verb.condstore tag name args w = replies (condstore tag w.session) w
  handle Verb.other tag name args w = replies (unimplemented tag name ∷ []) w

-- The literal of the command goes to `others`, where APPEND takes it.
module _ (services : Services) (others : Option Text → Others) where
  unfoldable pub handle_parsed_command : ParsedCommand → Option Text → World → Reply × World
  unfolding handle verb_of
  handle_parsed_command command literal w =
      let name = to_ascii_uppercase command.name in
      handle services (others literal) (verb_of name) command.tag name command.args w

  unfoldable pub handle_command : Result (Option ParsedCommand) → World → Reply × World
  unfolding handle_parsed_command
  handle_command (err e) w = (err e, w)
  handle_command (ok none) w = (ok [], w)
  handle_command (ok (some command)) w = handle_parsed_command command none w

  -- `ImapSession::handle`.
  unfoldable pub handle_line : Text → World → Reply × World
  unfolding handle_command parse_command
  handle_line line w = handle_command (parse_command line) w
