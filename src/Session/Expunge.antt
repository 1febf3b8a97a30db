-- ===== src/Session/Expunge.antt =====
-- crates/imap-server/src/imap.rs: EXPUNGE and UID EXPUNGE.
pub mod Laws
use imapped_lightmode.Base.{
  ℕ, Bool, true, false, ◌&&◌, List, [], ◌∷◌, ◌++◌, if◌then◌else◌, Result, ok, err,
}
use imapped_lightmode.Base.Int.{ℤ}
use imapped_lightmode.Text.{Text, lit}
use imapped_lightmode.Text.Decimal.{show}
use imapped_lightmode.Protocol
use imapped_lightmode.Protocol.{bad}
use imapped_lightmode.Domain.Records.{Mailbox, MailboxMessage}
use imapped_lightmode.Db.{Db, Action, pure, commit, query, ◌>>=◌, ◌>>◌}
use imapped_lightmode.Db.Messages.{list_mailbox_messages, delete_mailbox_message}
use imapped_lightmode.Session.{
  ImapSession, Services, Checked, refused, passed, check_selected, is_read_only,
}
use imapped_lightmode.Session.Targets.{
  Target, is_deleted, resolve_sequence_targets, uids_of, contains_number, numbered, sort_targets,
  reversed,
}
use imapped_lightmode.Session.Flags.{refresh, read_only_line}

-- `* n EXPUNGE`.
unfoldable pub expunge_line : ℕ → Text
expunge_line sequence = lit "* " ++ (show sequence ++ lit " EXPUNGE")

module _ (mailbox_id : ℤ) where
  -- The loop: delete the message, report its number.
  unfoldable pub expunge_targets : List Target → Action (List Text)
  unfolding expunge_line
  expunge_targets [] = pure []
  expunge_targets ((sequence, m) ∷ targets) =
      commit (delete_mailbox_message mailbox_id m.local_uid) >> expunge_targets targets >>= λ lines.
      pure (expunge_line sequence ∷ lines)

  -- From the last message to the first.
  unfoldable pub expunge_descending : Text → List Target → Action (List Text)
  unfolding expunge_targets reversed Protocol.ok
  expunge_descending completion targets =
      expunge_targets (reversed (sort_targets targets)) >>= λ lines.
      refresh mailbox_id >> pure (lines ++ completion ∷ [])

-- A set of sequence numbers names the messages itself; without one they are those with `\Deleted`.
unfoldable pub expunge_set : List Text → List MailboxMessage → List Target
expunge_set [] messages = numbered is_deleted 1 messages
expunge_set (set ∷ args) messages = resolve_sequence_targets messages set

unfoldable pub expunge_checked :
    Text → List Text → Bool → Checked (ℤ × Mailbox) → Action (List Text)
unfolding expunge_descending expunge_set read_only_line Protocol.ok
expunge_checked tag args read_only (refused line) = pure (line ∷ [])
expunge_checked tag args read_only (passed (account_id, mailbox)) =
    if read_only
    then pure (read_only_line tag (lit "EXPUNGE") ∷ [])
    else query (λ db. expunge_set args (list_mailbox_messages mailbox.id db))
      >>= expunge_descending mailbox.id (Protocol.ok tag (lit "EXPUNGE completed"))

unfoldable pub expunge : Services → Text → List Text → ImapSession → Action (List Text)
unfolding expunge_checked check_selected is_read_only
expunge services tag args session db =
    expunge_checked tag args (is_read_only session.state)
      (check_selected services (lit "EXPUNGE") tag session db) db

-- Both a number of the set and the flag `\Deleted` are asked for.
unfoldable pub uid_expunge_set : Text → List MailboxMessage → List Target
uid_expunge_set set messages =
    numbered (λ m. contains_number (uids_of messages set) m.local_uid && is_deleted m) 1 messages

unfoldable pub uid_expunge : Text → List Text → Bool → Mailbox → Action (List Text)
unfolding expunge_descending uid_expunge_set read_only_line bad Protocol.ok
uid_expunge tag args true mailbox = pure (read_only_line tag (lit "UID EXPUNGE") ∷ [])
uid_expunge tag [] false mailbox = pure (bad tag (lit "UID EXPUNGE requires a UID set") ∷ [])
uid_expunge tag (set ∷ args) false mailbox =
    query (λ db. uid_expunge_set set (list_mailbox_messages mailbox.id db))
    >>= expunge_descending mailbox.id (Protocol.ok tag (lit "UID EXPUNGE completed"))
