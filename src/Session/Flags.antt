-- ===== src/Session/Flags.antt =====
-- crates/imap-server/src/imap.rs: STORE and UID STORE.
use imapped_lightmode.Base.{ℕ, Bool, Option, none, some, List, [], ◌∷◌, ◌++◌, if◌then◌else◌, ok}
use imapped_lightmode.Base.Int.{ℤ}
use imapped_lightmode.Text.{Text, lit, join}
use imapped_lightmode.Text.Decimal.{show}
use imapped_lightmode.Protocol
use imapped_lightmode.Protocol.{StoreMode, no}
use imapped_lightmode.Protocol.Store.{StoreRequest, parse_store_request}
use imapped_lightmode.Domain.Records.{Mailbox, MailboxMessage}
use imapped_lightmode.Db.{Done, done, Action, pure, commit, lift, query, ◌>>=◌, ◌>>◌}
use imapped_lightmode.Db.Messages.{
  list_mailbox_messages, update_mailbox_message_flags, refresh_mailbox_counts,
}
use imapped_lightmode.Sync.Queue.{queue_flag_update}
use imapped_lightmode.ImapServer.StoreFlags.{apply_store_flags}
use imapped_lightmode.Session.{
  ImapSession, Services, Checked, refused, passed, check_selected, is_read_only,
}
use imapped_lightmode.Session.Targets.{
  Target, resolve_sequence_targets, resolve_uid_targets, sequence_number_for_local_uid,
}

-- `* n FETCH (FLAGS (…))`.
unfoldable pub flags_line : ℕ → List Text → Text
flags_line sequence flags =
    lit "* " ++ (show sequence ++ (lit " FETCH (FLAGS (" ++ (join (lit " ") flags ++ lit "))")))

abbrev pub refresh : ℤ → Action Done
refresh mailbox_id = commit (λ db. ok (done, refresh_mailbox_counts mailbox_id db))

module _ (services : Services) (account_id mailbox_id : ℤ) where
  -- Nothing is queued without a mutation engine.
  unfoldable pub queue_flags : ℤ → List Text → Action Done
  queue_flags local_uid flags =
      if services.mutation_engine
      then commit (queue_flag_update services.digest account_id mailbox_id none local_uid flags)
        >> pure done
      else pure done

  module _ (mode : StoreMode) (silent : Bool) (requested : List Text) where
    abbrev pub updated : MailboxMessage → List Text
    updated m = apply_store_flags m.flags mode requested

    -- The loop of STORE: write the flags, report them, queue them.
    unfoldable pub store_targets : List Target → Action (List Text)
    unfolding queue_flags flags_line
    store_targets [] = pure []
    store_targets ((sequence, m) ∷ targets) =
        commit (update_mailbox_message_flags mailbox_id m.local_uid (updated m))
        >> queue_flags m.local_uid (updated m)
        >> store_targets targets
        >>= λ lines. pure (if silent then lines else flags_line sequence (updated m) ∷ lines)

    abbrev pub line_of : MailboxMessage → Option ℕ → List Text → List Text
    line_of m none lines = lines
    line_of m (some sequence) lines = flags_line sequence (updated m) ∷ lines

    -- The first loop of UID STORE, which finds the sequence number of a message for its report.
    unfoldable pub store_messages : List MailboxMessage → Action (List Text)
    unfolding flags_line
    store_messages [] = pure []
    store_messages (m ∷ messages) =
        commit (update_mailbox_message_flags mailbox_id m.local_uid (updated m))
        >> query
            (λ db. sequence_number_for_local_uid (list_mailbox_messages mailbox_id db) m.local_uid)
        >>= λ sequence. store_messages messages >>= λ lines.
            pure (if silent then lines else line_of m sequence lines)

    -- The second loop of UID STORE.
    unfoldable pub queue_messages : List MailboxMessage → Action Done
    unfolding queue_flags
    queue_messages [] = pure done
    queue_messages (m ∷ messages) = queue_flags m.local_uid (updated m) >> queue_messages messages

  unfoldable pub store_line : Text → Text → Text
  unfolding Protocol.ok
  store_line tag name =
      Protocol.ok tag
        (name ++ (if services.mutation_engine then lit " queued" else lit " completed"))

  unfoldable pub store_request : Text → StoreRequest → Action (List Text)
  unfolding store_targets store_line
  store_request tag (set, mode, silent, requested) =
      query (λ db. resolve_sequence_targets (list_mailbox_messages mailbox_id db) set)
      >>= λ targets. store_targets mode silent requested targets >>= λ lines.
          refresh mailbox_id >> pure (lines ++ store_line tag (lit "STORE") ∷ [])

  unfoldable pub uid_store_request : Text → StoreRequest → Action (List Text)
  unfolding store_messages queue_messages store_line
  uid_store_request tag (set, mode, silent, requested) =
      query (λ db. resolve_uid_targets (list_mailbox_messages mailbox_id db) set) >>= λ messages.
      store_messages mode silent requested messages >>= λ lines.
      refresh mailbox_id
      >> queue_messages mode silent requested messages
      >> pure (lines ++ store_line tag (lit "UID STORE") ∷ [])

unfoldable pub read_only_line : Text → Text → Text
unfolding no
read_only_line tag name =
    no tag (lit "READ-ONLY") (name ++ lit " is not permitted in a read-only mailbox")

unfoldable pub store_checked :
    Services → Text → List Text → Bool → Checked (ℤ × Mailbox) → Action (List Text)
unfolding store_request read_only_line
store_checked services tag args read_only (refused line) = pure (line ∷ [])
store_checked services tag args read_only (passed (account_id, mailbox)) =
    if read_only
    then pure (read_only_line tag (lit "STORE") ∷ [])
    else lift (parse_store_request args) >>= store_request services account_id mailbox.id tag

unfoldable pub store : Services → Text → List Text → ImapSession → Action (List Text)
unfolding store_checked check_selected is_read_only
store services tag args session db =
    store_checked services tag args (is_read_only session.state)
      (check_selected services (lit "STORE") tag session db) db

-- UID STORE, behind the tests of UID; `args` are those behind the word STORE.
unfoldable pub uid_store : Services → Text → List Text → Bool → ℤ → Mailbox → Action (List Text)
unfolding uid_store_request read_only_line
uid_store services tag args read_only account_id mailbox =
    if read_only
    then pure (read_only_line tag (lit "UID STORE") ∷ [])
    else lift (parse_store_request args) >>= uid_store_request services account_id mailbox.id tag
