-- ===== src/Session/Completion/Transfers.antt =====
-- The replies of COPY, MOVE and their UID forms.
use imapped_lightmode.Base.{
  ℕ, refl, Bool, ◌&&◌, Bool-cases, inl, inr, Option, none, some, List, [], ◌∷◌, ◌++◌, map,
}
use imapped_lightmode.Base.Int.{ℤ}
use imapped_lightmode.Text.{Text, lit}
use imapped_lightmode.Domain.Records.{Mailbox}
use imapped_lightmode.Db.{Db, commit, ◌>>=◌, ◌>>◌}
use imapped_lightmode.Db.Mailboxes.{find_mailbox}
use imapped_lightmode.Db.Messages.{list_mailbox_messages, copy_mailbox_message}
use imapped_lightmode.Session.{
  ImapSession, Services, Checked, refused, passed, check_selected, is_read_only,
}
use imapped_lightmode.Session.Targets.{resolve_sequence_targets, resolve_uid_targets}
use imapped_lightmode.Session.Transfer.{
  Pairs, Item, of_target, of_message, expunge_report, note_copy, remove_moved, transfer_items,
  transfer_line, transfer, transfer_found, transfer_checked, copy_or_move, uid_transfer_found,
  uid_transfer_args, uid_copy_or_move,
}
use imapped_lightmode.Session.Completion.{
  Completion, says_ok, AllUntagged, Complete, CompleteReply, OnOk-and_then, Yields, Yields-bind,
  Yields-then, append-Complete, ends_no, ends_bad, if-AllUntagged,
}
use imapped_lightmode.Session.Completion.Messages.{
  Completes, check_selected-Completes, read_only_line-Complete, expunge_line-untagged,
}

expunge_report-AllUntagged :
    (sequence : Option ℕ) (lines : List Text)
    → AllUntagged lines
    → AllUntagged (expunge_report sequence lines)
unfolding expunge_report
expunge_report-AllUntagged none lines h = h
expunge_report-AllUntagged (some sequence) lines h = (expunge_line-untagged sequence, h)

abbrev LinesUntagged : Pairs × List Text → Type 0
LinesUntagged result = AllUntagged result.1

module _ (services : Services) (account_id : ℤ) (source destination : Mailbox) (move : Bool) where
  transfer_items-AllUntagged :
      (items : List Item)
      → Yields LinesUntagged (transfer_items services account_id source destination move items)
  unfolding transfer_items
  transfer_items-AllUntagged [] = λ db. tt
  transfer_items-AllUntagged ((sequence, m) ∷ items) =
      Yields-then LinesUntagged
        (commit (copy_mailbox_message source.id destination.id m.local_uid)
          >>= note_copy services account_id source destination move m)
        _
        (λ pairs.
          Yields-bind LinesUntagged LinesUntagged
            (remove_moved services account_id source destination move m
              >> transfer_items services account_id source destination move items)
            _
            (Yields-then LinesUntagged (remove_moved services account_id source destination move m)
              _ (λ removed. transfer_items-AllUntagged items))
            (λ rest h db. if-AllUntagged move _ _ (expunge_report-AllUntagged sequence rest.1 h) h))

  transfer_line-Completion :
      (tag name : Text) (pairs : Pairs)
      → Completion tag (transfer_line services account_id source destination move tag name pairs)
  unfolding transfer_line
  transfer_line-Completion tag name [] = says_ok (name ++ lit " completed") refl
  transfer_line-Completion tag name (pair ∷ pairs) = says_ok _ refl

  transfer-Complete :
      (tag name : Text) (items : List Item) (db : Db)
      → CompleteReply tag (transfer services account_id source destination move tag name items db).0
  unfolding transfer
  transfer-Complete tag name items db =
      OnOk-and_then LinesUntagged (Complete tag) _ _ _ (transfer_items-AllUntagged items db)
        (λ result next h.
          append-Complete tag _ result.1 h (transfer_line-Completion tag name result.0))

transfer_found-Complete :
    (services : Services) (tag name : Text) (move read_only : Bool) (set : Text) (account_id : ℤ)
    (source : Mailbox) (found : Option Mailbox) (db : Db)
    → CompleteReply tag
        (transfer_found services tag name move read_only set account_id source found db).0
unfolding transfer_found
transfer_found-Complete services tag name move read_only set account_id source none db =
    ends_no tag (lit "NONEXISTENT") (lit "destination mailbox not found")
transfer_found-Complete services tag name move read_only set account_id source (some destination)
      db =
    elim (Bool-cases (move && read_only)) [
      | inl h ↦ rw h (read_only_line-Complete tag (lit "MOVE"))
      | inr h ↦ rw h (
          transfer-Complete services account_id source destination move tag name
            (map of_target (resolve_sequence_targets (list_mailbox_messages source.id db) set)) db)
    ]

transfer_checked-Complete :
    (services : Services) (tag name : Text) (move : Bool) (args : List Text) (read_only : Bool)
    (checked : Checked (ℤ × Mailbox)) (db : Db)
    → Completes tag checked
    → CompleteReply tag (transfer_checked services tag name move args read_only checked db).0
unfolding transfer_checked
transfer_checked-Complete services tag name move args read_only (refused line) db h = h
transfer_checked-Complete services tag name move [] read_only (passed checked) db h =
    ends_bad tag (name ++ lit " requires a message set")
transfer_checked-Complete services tag name move (set ∷ []) read_only (passed checked) db h =
    ends_bad tag (name ++ lit " requires a destination mailbox")
transfer_checked-Complete services tag name move (set ∷ destination ∷ args) read_only
      (passed (account_id, source)) db h =
    transfer_found-Complete services tag name move read_only set account_id source
      (find_mailbox account_id destination db) db

pub copy_or_move-Complete :
    (services : Services) (tag name : Text) (move : Bool) (args : List Text) (session : ImapSession)
    (db : Db)
    → CompleteReply tag (copy_or_move services tag name move args session db).0
unfolding copy_or_move
copy_or_move-Complete services tag name move args session db =
    transfer_checked-Complete services tag name move args (is_read_only session.state)
      (check_selected services name tag session db) db
      (check_selected-Completes services name tag session db)

uid_transfer_found-Complete :
    (services : Services) (tag name : Text) (move : Bool) (set : Text) (account_id : ℤ)
    (source : Mailbox) (found : Option Mailbox) (db : Db)
    → CompleteReply tag (uid_transfer_found services tag name move set account_id source found db).0
unfolding uid_transfer_found
uid_transfer_found-Complete services tag name move set account_id source none db =
    ends_no tag (lit "NONEXISTENT") (lit "destination mailbox not found")
uid_transfer_found-Complete services tag name move set account_id source (some destination) db =
    transfer-Complete services account_id source destination move tag name
      (map of_message (resolve_uid_targets (list_mailbox_messages source.id db) set)) db

uid_transfer_args-Complete :
    (services : Services) (tag name : Text) (move : Bool) (args : List Text) (account_id : ℤ)
    (source : Mailbox) (db : Db)
    → CompleteReply tag (uid_transfer_args services tag name move args account_id source db).0
unfolding uid_transfer_args
uid_transfer_args-Complete services tag name move [] account_id source db =
    ends_bad tag (name ++ lit " requires a UID set")
uid_transfer_args-Complete services tag name move (set ∷ []) account_id source db =
    ends_bad tag (name ++ lit " requires a destination mailbox")
uid_transfer_args-Complete services tag name move (set ∷ destination ∷ args) account_id source db =
    uid_transfer_found-Complete services tag name move set account_id source
      (find_mailbox account_id destination db) db

pub uid_copy_or_move-Complete :
    (services : Services) (tag name : Text) (move : Bool) (args : List Text) (read_only : Bool)
    (account_id : ℤ) (source : Mailbox) (db : Db)
    → CompleteReply tag
        (uid_copy_or_move services tag name move args read_only account_id source db).0
unfolding uid_copy_or_move
uid_copy_or_move-Complete services tag name move args read_only account_id source db =
    elim (Bool-cases (move && read_only)) [
      | inl h ↦ rw h (read_only_line-Complete tag (lit "MOVE"))
      | inr h ↦ rw h (uid_transfer_args-Complete services tag name move args account_id source db)
    ]
