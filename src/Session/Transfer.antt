-- ===== src/Session/Transfer.antt =====
-- crates/imap-server/src/imap.rs: COPY, MOVE, UID COPY and UID MOVE.
use imapped_lightmode.Base.{
  ℕ, Bool, ◌&&◌, Option, none, some, List, [], ◌∷◌, ◌++◌, map, if◌then◌else◌,
}
use imapped_lightmode.Base.Int.{ℤ, pos}
use imapped_lightmode.Text.{Text, lit, join}
use imapped_lightmode.Protocol
use imapped_lightmode.Protocol.{bad, no}
use imapped_lightmode.Protocol.Status.{show_ℤ, unwrap_or_ℤ}
use imapped_lightmode.Domain.Records.{Mailbox, MailboxMessage}
use imapped_lightmode.Db.{Done, done, Action, pure, commit, query, ◌>>=◌, ◌>>◌}
use imapped_lightmode.Db.Mailboxes.{find_mailbox}
use imapped_lightmode.Db.Messages.{
  list_mailbox_messages, copy_mailbox_message, delete_mailbox_message,
}
use imapped_lightmode.Sync.Queue.{queue_copy_message, queue_move_message}
use imapped_lightmode.Session.{
  ImapSession, Services, Checked, refused, passed, check_selected, is_read_only,
}
use imapped_lightmode.Session.Targets.{Target, resolve_sequence_targets, resolve_uid_targets}
use imapped_lightmode.Session.Flags.{refresh, read_only_line}
use imapped_lightmode.Session.Expunge.{expunge_line}

abbrev pub Pairs : Type 0
Pairs = List (ℤ × ℤ)

-- The message of a target, without a number for the UID commands, which report none.
abbrev pub Item : Type 0
Item = Option ℕ × MailboxMessage

abbrev pub of_target : Target → Item
of_target (sequence, m) = (some sequence, m)

abbrev pub of_message : MailboxMessage → Item
of_message m = (none, m)

unfoldable pub expunge_report : Option ℕ → List Text → List Text
unfolding expunge_line
expunge_report none lines = lines
expunge_report (some sequence) lines = expunge_line sequence ∷ lines

module _ (services : Services) (account_id : ℤ) (source destination : Mailbox) (move : Bool) where
  unfoldable pub queue_transfer : MailboxMessage → MailboxMessage → Action Done
  unfolding queue_move_message queue_copy_message
  queue_transfer m copied =
      if services.mutation_engine
      then commit (
          (if move then queue_move_message services.digest else queue_copy_message services.digest)
            account_id source.id destination.id source.name destination.name m.local_uid
            copied.local_uid m.flags)
        >> pure done
      else pure done

  -- What is done with the copy, if there was a message to copy: the UIDs of both.
  unfoldable pub note_copy : MailboxMessage → Option MailboxMessage → Action Pairs
  unfolding queue_transfer
  note_copy m none = pure []
  note_copy m (some copied) = queue_transfer m copied >> pure ((m.local_uid, copied.local_uid) ∷ [])

  unfoldable pub remove_moved : MailboxMessage → Action Done
  remove_moved m =
      if move then commit (delete_mailbox_message source.id m.local_uid) >> pure done else pure done

  -- The loop, with the copied UIDs and the lines.
  unfoldable pub transfer_items : List Item → Action (Pairs × List Text)
  unfolding note_copy remove_moved expunge_report
  transfer_items [] = pure ([], [])
  transfer_items ((sequence, m) ∷ items) =
      commit (copy_mailbox_message source.id destination.id m.local_uid)
      >>= note_copy m
      >>= λ pairs. remove_moved m >> transfer_items items >>= λ rest.
          pure (pairs ++ rest.0, if move then expunge_report sequence rest.1 else rest.1)

  unfoldable pub transfer_line : Text → Text → Pairs → Text
  unfolding Protocol.ok show_ℤ unwrap_or_ℤ
  transfer_line tag name [] = Protocol.ok tag (name ++ lit " completed")
  transfer_line tag name (pair ∷ pairs) = Protocol.ok tag (
      lit "[COPYUID "
      ++ (show_ℤ (unwrap_or_ℤ destination.uidvalidity (pos 1))
          ++ (lit " "
              ++ (join (lit ",") (map (λ (p : ℤ × ℤ). show_ℤ p.0) (pair ∷ pairs))
                  ++ (lit " "
                      ++ (join (lit ",") (map (λ (p : ℤ × ℤ). show_ℤ p.1) (pair ∷ pairs))
                          ++ (lit "] " ++ (name ++ lit " completed"))))))))

  unfoldable pub transfer : Text → Text → List Item → Action (List Text)
  unfolding transfer_items transfer_line
  transfer tag name items = transfer_items items >>= λ result.
      refresh source.id
      >> refresh destination.id
      >> pure (result.1 ++ transfer_line tag name result.0 ∷ [])

abbrev pub no_destination : Text → Text
no_destination tag = no tag (lit "NONEXISTENT") (lit "destination mailbox not found")

unfoldable pub transfer_found :
    Services → Text → Text → Bool → Bool → Text → ℤ → Mailbox → Option Mailbox → Action (List Text)
unfolding transfer read_only_line
transfer_found services tag name move read_only set account_id source none =
    pure (no_destination tag ∷ [])
transfer_found services tag name move read_only set account_id source (some destination) =
    if move && read_only
    then pure (read_only_line tag (lit "MOVE") ∷ [])
    else query
        (λ db. map of_target (resolve_sequence_targets (list_mailbox_messages source.id db) set))
      >>= transfer services account_id source destination move tag name

unfoldable pub transfer_checked :
    Services → Text → Text → Bool → List Text → Bool → Checked (ℤ × Mailbox) → Action (List Text)
unfolding transfer_found find_mailbox bad
transfer_checked services tag name move args read_only (refused line) = pure (line ∷ [])
transfer_checked services tag name move [] read_only (passed checked) =
    pure (bad tag (name ++ lit " requires a message set") ∷ [])
transfer_checked services tag name move (set ∷ []) read_only (passed checked) =
    pure (bad tag (name ++ lit " requires a destination mailbox") ∷ [])
transfer_checked services tag name move (set ∷ destination ∷ args) read_only
      (passed (account_id, source)) =
    query (find_mailbox account_id destination)
    >>= transfer_found services tag name move read_only set account_id source

-- COPY, and MOVE where `move` is set, by their names.
unfoldable pub copy_or_move :
    Services → Text → Text → Bool → List Text → ImapSession → Action (List Text)
unfolding transfer_checked check_selected is_read_only
copy_or_move services tag name move args session db =
    transfer_checked services tag name move args (is_read_only session.state)
      (check_selected services name tag session db) db

unfoldable pub uid_transfer_found :
    Services → Text → Text → Bool → Text → ℤ → Mailbox → Option Mailbox → Action (List Text)
unfolding transfer
uid_transfer_found services tag name move set account_id source none =
    pure (no_destination tag ∷ [])
uid_transfer_found services tag name move set account_id source (some destination) =
    query (λ db. map of_message (resolve_uid_targets (list_mailbox_messages source.id db) set))
    >>= transfer services account_id source destination move tag name

unfoldable pub uid_transfer_args :
    Services → Text → Text → Bool → List Text → ℤ → Mailbox → Action (List Text)
unfolding uid_transfer_found find_mailbox bad
uid_transfer_args services tag name move [] account_id source =
    pure (bad tag (name ++ lit " requires a UID set") ∷ [])
uid_transfer_args services tag name move (set ∷ []) account_id source =
    pure (bad tag (name ++ lit " requires a destination mailbox") ∷ [])
uid_transfer_args services tag name move (set ∷ destination ∷ args) account_id source =
    query (find_mailbox account_id destination)
    >>= uid_transfer_found services tag name move set account_id source

-- UID COPY and UID MOVE, behind the tests of UID; `name` is `UID COPY` or `UID MOVE`.
unfoldable pub uid_copy_or_move :
    Services → Text → Text → Bool → List Text → Bool → ℤ → Mailbox → Action (List Text)
unfolding uid_transfer_args read_only_line
uid_copy_or_move services tag name move args read_only account_id source =
    if move && read_only
    then pure (read_only_line tag (lit "MOVE") ∷ [])
    else uid_transfer_args services tag name move args account_id source
