-- ===== src/Session/Completion/Messages.antt =====
-- The replies of the commands on messages.
use imapped_lightmode.Base.{
  ℕ, ◌≡◌, refl, Bool, true, false, Bool-cases, inl, inr, Option, none, some, List, [], ◌∷◌, ◌++◌,
  if◌then◌else◌,
}
use imapped_lightmode.Base.Int.{ℤ}
use imapped_lightmode.Text.{Text, lit}
use imapped_lightmode.Text.Find.{starts_with}
use imapped_lightmode.Protocol
use imapped_lightmode.Protocol.{StoreMode, no}
use imapped_lightmode.Protocol.Store.{StoreRequest, parse_store_request}
use imapped_lightmode.Domain.Records.{Mailbox, MailboxMessage}
use imapped_lightmode.Db.{Db, committed, and_then, ◌>>◌}
use imapped_lightmode.Db.Mailboxes.{find_mailbox}
use imapped_lightmode.Db.Messages.{
  list_mailbox_messages, update_mailbox_message_flags, delete_mailbox_message,
}
use imapped_lightmode.Session.{
  ImapSession, Services, Checked, refused, passed, check_found, check_repository, check_account,
  check_selected, account_of, selected_mailbox_name, is_read_only,
}
use imapped_lightmode.Session.Targets.{
  Target, resolve_sequence_targets, resolve_uid_targets, sort_targets, reversed,
}
use imapped_lightmode.Session.Flags.{
  flags_line, queue_flags, store_targets, line_of, updated, store_messages, queue_messages,
  store_line, store_request, uid_store_request, read_only_line, refresh, store_checked, store,
  uid_store,
}
use imapped_lightmode.Session.Expunge.{
  expunge_line, expunge_targets, expunge_descending, expunge_set, expunge_checked, expunge,
  uid_expunge_set, uid_expunge,
}
use imapped_lightmode.Session.Completion.{
  Completion, says_ok, untagged, AllUntagged, Complete, CompleteReply, OnOk, Any, OnOk-Any,
  OnOk-and_then, Yields, Yields-bind, Yields-then, append-Complete, ends_no, ends_bad,
  if-AllUntagged,
}
use imapped_lightmode.Session.Completion.Greetings.{bad_state-Complete}

-- What refuses a command completes it.
abbrev pub Completes : Text → Checked (ℤ × Mailbox) → Type 0
Completes tag (refused line) = Complete tag (line ∷ [])
Completes tag (passed checked) = Unit

check_found-Completes :
    (tag : Text) (account_id : ℤ) (found : Option Mailbox)
    → Completes tag (check_found tag account_id found)
unfolding check_found
check_found-Completes tag account_id none =
    ends_no tag (lit "NONEXISTENT") (lit "selected mailbox not found")
check_found-Completes tag account_id (some mailbox) = tt

check_repository-Completes :
    (services : Services) (name tag : Text) (db : Db) (account_id : ℤ) (selected : Option Text)
    → Completes tag (check_repository services name tag db account_id selected)
unfolding check_repository
check_repository-Completes services name tag db account_id none =
    bad_state-Complete tag name (lit "a selected mailbox")
check_repository-Completes services name tag db account_id (some selected) =
    elim (Bool-cases services.repository) [
      | inl h ↦ rw h (check_found-Completes tag account_id (find_mailbox account_id selected db))
      | inr h ↦ rw h (bad_state-Complete tag name (lit "a database-backed repository"))
    ]

check_account-Completes :
    (services : Services) (name tag : Text) (session : ImapSession) (db : Db)
    (account_id : Option ℤ)
    → Completes tag (check_account services name tag session db account_id)
unfolding check_account
check_account-Completes services name tag session db none =
    bad_state-Complete tag name (lit "an authenticated account")
check_account-Completes services name tag session db (some account_id) =
    check_repository-Completes services name tag db account_id (selected_mailbox_name session.state)

pub check_selected-Completes :
    (services : Services) (name tag : Text) (session : ImapSession) (db : Db)
    → Completes tag (check_selected services name tag session db)
unfolding check_selected
check_selected-Completes services name tag session db =
    check_account-Completes services name tag session db (account_of session.authenticated)

pub read_only_line-Complete : (tag name : Text) → Complete tag (read_only_line tag name ∷ [])
unfolding read_only_line
read_only_line-Complete tag name =
    ends_no tag (lit "READ-ONLY") (name ++ lit " is not permitted in a read-only mailbox")

flags_line-untagged :
    (sequence : ℕ) (flags : List Text) → untagged (flags_line sequence flags) ≡ true
unfolding flags_line untagged starts_with lit
flags_line-untagged sequence flags = refl

pub expunge_line-untagged : (sequence : ℕ) → untagged (expunge_line sequence) ≡ true
unfolding expunge_line untagged starts_with lit
expunge_line-untagged sequence = refl

module _ (mailbox_id : ℤ) where
  expunge_targets-AllUntagged :
      (targets : List Target) (db : Db) → OnOk AllUntagged (expunge_targets mailbox_id targets db).0
  unfolding expunge_targets
  expunge_targets-AllUntagged [] db = tt
  expunge_targets-AllUntagged ((sequence, m) ∷ targets) db =
      let gone = committed (delete_mailbox_message mailbox_id m.local_uid db) db in
      let rest = and_then gone.0 (λ rows. expunge_targets mailbox_id targets) gone.1 in
      OnOk-and_then AllUntagged AllUntagged rest.0 _ rest.1
        (OnOk-and_then Any AllUntagged gone.0 _ gone.1 (OnOk-Any gone.0)
          (λ rows next h. expunge_targets-AllUntagged targets next))
        (λ lines next h. (expunge_line-untagged sequence, h))

  expunge_descending-Complete :
      (tag message : Text) (targets : List Target) (db : Db)
      → CompleteReply tag (expunge_descending mailbox_id (Protocol.ok tag message) targets db).0
  unfolding expunge_descending
  expunge_descending-Complete tag message targets db =
      let loop = expunge_targets mailbox_id (reversed (sort_targets targets)) db in
      OnOk-and_then AllUntagged (Complete tag) loop.0 _ loop.1
        (expunge_targets-AllUntagged (reversed (sort_targets targets)) db)
        (λ lines next h.
          append-Complete tag (Protocol.ok tag message) lines h (says_ok message refl))

expunge_checked-Complete :
    (tag : Text) (args : List Text) (read_only : Bool) (checked : Checked (ℤ × Mailbox)) (db : Db)
    → Completes tag checked
    → CompleteReply tag (expunge_checked tag args read_only checked db).0
unfolding expunge_checked
expunge_checked-Complete tag args read_only (refused line) db h = h
expunge_checked-Complete tag args true (passed (account_id, mailbox)) db h =
    read_only_line-Complete tag (lit "EXPUNGE")
expunge_checked-Complete tag args false (passed (account_id, mailbox)) db h =
    expunge_descending-Complete mailbox.id tag (lit "EXPUNGE completed")
      (expunge_set args (list_mailbox_messages mailbox.id db)) db

pub expunge-Complete :
    (services : Services) (tag : Text) (args : List Text) (session : ImapSession) (db : Db)
    → CompleteReply tag (expunge services tag args session db).0
unfolding expunge
expunge-Complete services tag args session db =
    expunge_checked-Complete tag args (is_read_only session.state)
      (check_selected services (lit "EXPUNGE") tag session db) db
      (check_selected-Completes services (lit "EXPUNGE") tag session db)

pub uid_expunge-Complete :
    (tag : Text) (args : List Text) (read_only : Bool) (mailbox : Mailbox) (db : Db)
    → CompleteReply tag (uid_expunge tag args read_only mailbox db).0
unfolding uid_expunge
uid_expunge-Complete tag args true mailbox db = read_only_line-Complete tag (lit "UID EXPUNGE")
uid_expunge-Complete tag [] false mailbox db = ends_bad tag (lit "UID EXPUNGE requires a UID set")
uid_expunge-Complete tag (set ∷ args) false mailbox db =
    expunge_descending-Complete mailbox.id tag (lit "UID EXPUNGE completed")
      (uid_expunge_set set (list_mailbox_messages mailbox.id db)) db

module _ (services : Services) (account_id mailbox_id : ℤ) where
  module _ (mode : StoreMode) (silent : Bool) (requested : List Text) where
    store_targets-AllUntagged :
        (targets : List Target) (db : Db)
        → OnOk AllUntagged
            (store_targets services account_id mailbox_id mode silent requested targets db).0
    unfolding store_targets
    store_targets-AllUntagged [] db = tt
    store_targets-AllUntagged ((sequence, m) ∷ targets) db =
        let flags = updated services account_id mailbox_id mode silent requested m in
        let written = committed (update_mailbox_message_flags mailbox_id m.local_uid flags db) db in
        let queued =
          and_then written.0 (λ row. queue_flags services account_id mailbox_id m.local_uid flags)
            written.1 in
        let rest =
          and_then queued.0
            (λ row. store_targets services account_id mailbox_id mode silent requested targets)
            queued.1 in
        OnOk-and_then AllUntagged AllUntagged rest.0 _ rest.1
          (OnOk-and_then Any AllUntagged queued.0 _ queued.1 (OnOk-Any queued.0)
            (λ row next h. store_targets-AllUntagged targets next))
          (λ lines next h. if-AllUntagged silent _ _ h (flags_line-untagged sequence flags, h))

    line_of-AllUntagged :
        (m : MailboxMessage) (sequence : Option ℕ) (lines : List Text)
        → AllUntagged lines
        → AllUntagged
            (line_of services account_id mailbox_id mode silent requested m sequence lines)
    line_of-AllUntagged m none lines h = h
    line_of-AllUntagged m (some sequence) lines h = (
      flags_line-untagged sequence (updated services account_id mailbox_id mode silent requested m),
      h,
    )

    store_messages-AllUntagged :
        (messages : List MailboxMessage)
        → Yields AllUntagged
            (store_messages services account_id mailbox_id mode silent requested messages)
    unfolding store_messages
    store_messages-AllUntagged [] = λ db. tt
    store_messages-AllUntagged (m ∷ messages) = Yields-then AllUntagged _ _ (λ sequence.
        Yields-bind AllUntagged AllUntagged _ _ (store_messages-AllUntagged messages)
          (λ lines h db. if-AllUntagged silent _ _ h (line_of-AllUntagged m sequence lines h)))

  store_line-Completion :
      (tag name : Text) → Completion tag (store_line services account_id mailbox_id tag name)
  unfolding store_line
  store_line-Completion tag name =
      says_ok (name ++ (if services.mutation_engine then lit " queued" else lit " completed")) refl

  store_request-Complete :
      (tag : Text) (request : StoreRequest) (db : Db)
      → CompleteReply tag (store_request services account_id mailbox_id tag request db).0
  unfolding store_request
  store_request-Complete tag (set, mode, silent, requested) db =
      OnOk-and_then AllUntagged (Complete tag) _ _ _
        (store_targets-AllUntagged mode silent requested
          (resolve_sequence_targets (list_mailbox_messages mailbox_id db) set) db)
        (λ lines next h. append-Complete tag _ lines h (store_line-Completion tag (lit "STORE")))

  uid_store_request-Complete :
      (tag : Text) (request : StoreRequest) (db : Db)
      → CompleteReply tag (uid_store_request services account_id mailbox_id tag request db).0
  unfolding uid_store_request
  uid_store_request-Complete tag (set, mode, silent, requested) db =
      OnOk-and_then AllUntagged (Complete tag) _ _ _
        (store_messages-AllUntagged mode silent requested
          (resolve_uid_targets (list_mailbox_messages mailbox_id db) set) db)
        (λ lines next h.
          Yields-then (Complete tag)
            (refresh mailbox_id
              >> queue_messages services account_id mailbox_id mode silent requested
                  (resolve_uid_targets (list_mailbox_messages mailbox_id db) set))
            _
            (λ queued last.
              append-Complete tag _ lines h (store_line-Completion tag (lit "UID STORE")))
            next)

store_checked-Complete :
    (services : Services) (tag : Text) (args : List Text) (read_only : Bool)
    (checked : Checked (ℤ × Mailbox)) (db : Db)
    → Completes tag checked
    → CompleteReply tag (store_checked services tag args read_only checked db).0
unfolding store_checked
store_checked-Complete services tag args read_only (refused line) db h = h
store_checked-Complete services tag args true (passed (account_id, mailbox)) db h =
    read_only_line-Complete tag (lit "STORE")
store_checked-Complete services tag args false (passed (account_id, mailbox)) db h =
    OnOk-and_then Any (Complete tag) (parse_store_request args) _ db
      (OnOk-Any (parse_store_request args))
      (λ request next any. store_request-Complete services account_id mailbox.id tag request next)

pub store-Complete :
    (services : Services) (tag : Text) (args : List Text) (session : ImapSession) (db : Db)
    → CompleteReply tag (store services tag args session db).0
unfolding store
store-Complete services tag args session db =
    store_checked-Complete services tag args (is_read_only session.state)
      (check_selected services (lit "STORE") tag session db) db
      (check_selected-Completes services (lit "STORE") tag session db)

pub uid_store-Complete :
    (services : Services) (tag : Text) (args : List Text) (read_only : Bool) (account_id : ℤ)
    (mailbox : Mailbox) (db : Db)
    → CompleteReply tag (uid_store services tag args read_only account_id mailbox db).0
unfolding uid_store
uid_store-Complete services tag args true account_id mailbox db =
    read_only_line-Complete tag (lit "UID STORE")
uid_store-Complete services tag args false account_id mailbox db =
    OnOk-and_then Any (Complete tag) (parse_store_request args) _ db
      (OnOk-Any (parse_store_request args))
      (λ request next any.
        uid_store_request-Complete services account_id mailbox.id tag request next)
