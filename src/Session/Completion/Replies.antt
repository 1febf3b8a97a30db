-- ===== src/Session/Completion/Replies.antt =====
-- Every reply that is no error has the form, whatever the command.
use imapped_lightmode.Base.{
  ℕ, zero, suc, ◌≡◌, refl, true, false, Bool-cases, inl, inr, Option, none, some, List, [], ◌∷◌,
  ◌++◌, All-append, Result, ok, err, ◌>>=◌,
}
use imapped_lightmode.Base.Int.{ℤ}
use imapped_lightmode.Text.{Text, lit, eq}
use imapped_lightmode.Text.Case.{to_ascii_uppercase}
use imapped_lightmode.Text.Find.{starts_with}
use imapped_lightmode.Protocol.Status.{
  parse_status_items, format_status_response, format_status_response_with_defaults,
}
use imapped_lightmode.Domain.Records.{Mailbox}
use imapped_lightmode.Db.{Db}
use imapped_lightmode.Db.Mailboxes.{
  find_mailbox, create_mailbox, delete_mailbox, set_mailbox_subscribed,
}
use imapped_lightmode.Session.{
  ImapSession, Services, World, Checked, refused, passed, account_of, check_selected,
  selected_mailbox_name, is_read_only,
}
use imapped_lightmode.Session.Select.{first_or_inbox}
use imapped_lightmode.Session.Mailboxes.{
  OnDb, for_account, with_account, new_mailbox, created_line, create_for, create, deleted_line,
  delete_for, delete, subscribed_line, subscribe_for, subscribe,
}
use imapped_lightmode.Session.Listing.{
  mailbox_list_line, status_lines, list_lines, matching_lines, parse_list_request, list_for, list,
  args_from_1, status_reply, status_found, status_for, status,
}
use imapped_lightmode.Session.Verb.{Verb}
use imapped_lightmode.Session.Verb.Uid
use imapped_lightmode.Session.Verb.Uid.{UidVerb, uid_verb_of}
use imapped_lightmode.Session.Commands.{Others, unimplemented, handle_uid, uid_checked, uid, handle}
use imapped_lightmode.Session.Completion.{
  untagged, AllUntagged, Complete, follows, CompleteReply, says_ok, append-Complete, ends_no,
  ends_bad,
}
use imapped_lightmode.Session.Completion.Greetings.{
  bad_state-Complete, completed-Complete, capability-Complete, login-Complete,
  logout_handler-Complete, starttls-Complete, enable-Complete, condstore-Complete, idle-Complete,
  check-Complete, select-Complete, unselect-Complete, close-Complete, rename-Complete,
}
use imapped_lightmode.Session.Completion.Messages.{
  Completes, check_selected-Completes, expunge-Complete, uid_expunge-Complete, store-Complete,
  uid_store-Complete,
}
use imapped_lightmode.Session.Completion.Transfers.{
  copy_or_move-Complete, uid_copy_or_move-Complete,
}

for_account-Complete :
    (name tag : Text) (db : Db) (handler : ℤ → OnDb) (account_id : Option ℤ)
    → ((account_id : ℤ) → CompleteReply tag (handler account_id).0)
    → CompleteReply tag (for_account name tag db handler account_id).0
unfolding for_account
for_account-Complete name tag db handler none k =
    bad_state-Complete tag name (lit "an authenticated account")
for_account-Complete name tag db handler (some account_id) k = k account_id

created_line-Complete :
    (tag : Text) (created : Option Mailbox) → Complete tag (created_line tag created ∷ [])
unfolding created_line
created_line-Complete tag none = ends_no tag (lit "ALREADYEXISTS") (lit "mailbox already exists")
created_line-Complete tag (some mailbox) = completed-Complete tag (lit "CREATE")

deleted_line-Complete : (tag : Text) (rows : ℕ) → Complete tag (deleted_line tag rows ∷ [])
unfolding deleted_line
deleted_line-Complete tag zero = ends_no tag (lit "NONEXISTENT") (lit "mailbox not found")
deleted_line-Complete tag (suc rows) = completed-Complete tag (lit "DELETE")

subscribed_line-Complete :
    (tag name : Text) (found : Option Mailbox) → Complete tag (subscribed_line tag name found ∷ [])
unfolding subscribed_line
subscribed_line-Complete tag name none = ends_no tag (lit "NONEXISTENT") (lit "mailbox not found")
subscribed_line-Complete tag name (some mailbox) = completed-Complete tag name

status_lines-AllUntagged :
    (mailbox : Mailbox) (items : Option (List Text)) → AllUntagged (status_lines mailbox items)
unfolding status_lines format_status_response untagged starts_with lit
status_lines-AllUntagged mailbox none = tt
status_lines-AllUntagged mailbox (some items) = (refl, tt)

then-Complete :
    {A : Type 0} (tag : Text) (r : Result A) (f : A → List Text)
    → ((a : A) → Complete tag (f a))
    → CompleteReply tag (r >>= λ a. ok (f a))
then-Complete tag (err e) f k = tt
then-Complete tag (ok a) f k = k a

with_account-Complete :
    (services : Services) (name tag : Text) (session : ImapSession) (db : Db) (offline : List Text)
    (handler : ℤ → OnDb)
    → Complete tag offline
    → ((account_id : ℤ) → CompleteReply tag (handler account_id).0)
    → CompleteReply tag (with_account services name tag session db offline handler).0
unfolding with_account
with_account-Complete services name tag session db offline handler h k =
    elim (Bool-cases services.repository) [
      | inr f ↦ rw f h
      | inl t ↦ rw t (for_account-Complete name tag db handler (account_of session.authenticated) k)
    ]

create_for-Complete :
    (tag : Text) (args : List Text) (db : Db) (account_id : ℤ)
    → CompleteReply tag (create_for tag args db account_id).0
unfolding create_for
create_for-Complete tag [] db account_id = ends_bad tag (lit "CREATE requires a mailbox name")
create_for-Complete tag (name ∷ args) db account_id =
    created_line-Complete tag (create_mailbox (new_mailbox account_id name) db).0

delete_for-Complete :
    (tag : Text) (args : List Text) (db : Db) (account_id : ℤ)
    → CompleteReply tag (delete_for tag args db account_id).0
unfolding delete_for
delete_for-Complete tag [] db account_id = ends_bad tag (lit "DELETE requires a mailbox name")
delete_for-Complete tag (name ∷ args) db account_id =
    deleted_line-Complete tag (delete_mailbox account_id name db).0

subscribe_for-Complete :
    (tag name : Text) (args : List Text) (db : Db) (account_id : ℤ)
    → CompleteReply tag (subscribe_for tag name args db account_id).0
unfolding subscribe_for
subscribe_for-Complete tag name [] db account_id =
    ends_bad tag (name ++ lit " requires a mailbox name")
subscribe_for-Complete tag name (mailbox_name ∷ args) db account_id =
    subscribed_line-Complete tag name
      (set_mailbox_subscribed account_id mailbox_name (eq name (lit "SUBSCRIBE")) db).0

list_lines-AllUntagged :
    (name : Text) (items : Option (List Text)) (mailboxes : List Mailbox)
    → AllUntagged (list_lines name items mailboxes)
unfolding list_lines mailbox_list_line untagged starts_with lit
list_lines-AllUntagged name items [] = tt
list_lines-AllUntagged name items (mailbox ∷ mailboxes) = (
  refl,
  All-append (λ line. untagged line ≡ true) (status_lines mailbox items)
      (list_lines name items mailboxes) (status_lines-AllUntagged mailbox items)
      (list_lines-AllUntagged name items mailboxes),
)

list_for-Complete :
    (services : Services) (tag name : Text) (args : List Text) (db : Db) (account_id : Option ℤ)
    → CompleteReply tag (list_for services tag name args db account_id)
unfolding list_for matching_lines
list_for-Complete services tag name args db none =
    bad_state-Complete tag name (lit "an authenticated account")
list_for-Complete services tag name args db (some account_id) =
    then-Complete tag (parse_list_request args) _ (λ request.
      append-Complete tag _ _ (list_lines-AllUntagged name request.1 _)
        (says_ok (name ++ lit " completed") refl))

list-Complete :
    (services : Services) (tag name : Text) (args : List Text) (session : ImapSession) (db : Db)
    → CompleteReply tag (list services tag name args session db)
unfolding list untagged starts_with lit
list-Complete services tag name args session db = elim (Bool-cases services.repository) [
  | inl t ↦ rw t (list_for-Complete services tag name args db (account_of session.authenticated))
  | inr f ↦ rw f (follows refl (completed-Complete tag name))
]

status_reply-Complete :
    (tag : Text) (args : List Text) (line : List Text → Text)
    → ((items : List Text) → untagged (line items) ≡ true)
    → CompleteReply tag (status_reply tag args line)
unfolding status_reply
status_reply-Complete tag args line h =
    then-Complete tag (args_from_1 args >>= parse_status_items) _
      (λ items. follows (h items) (completed-Complete tag (lit "STATUS")))

format_status_response-untagged :
    (mailbox : Mailbox) (items : List Text) → untagged (format_status_response mailbox items) ≡ true
unfolding format_status_response untagged starts_with lit
format_status_response-untagged mailbox items = refl

status_found-Complete :
    (tag : Text) (args : List Text) (found : Option Mailbox)
    → CompleteReply tag (status_found tag args found)
unfolding status_found
status_found-Complete tag args none = ends_no tag (lit "NONEXISTENT") (lit "mailbox not found")
status_found-Complete tag args (some mailbox) =
    status_reply-Complete tag args (format_status_response mailbox)
      (format_status_response-untagged mailbox)

status_for-Complete :
    (tag : Text) (args : List Text) (db : Db) (account_id : Option ℤ)
    → CompleteReply tag (status_for tag args db account_id)
unfolding status_for
status_for-Complete tag args db none =
    bad_state-Complete tag (lit "STATUS") (lit "an authenticated account")
status_for-Complete tag args db (some account_id) =
    status_found-Complete tag args (find_mailbox account_id (first_or_inbox args) db)

status-Complete :
    (services : Services) (tag : Text) (args : List Text) (session : ImapSession) (db : Db)
    → CompleteReply tag (status services tag args session db)
unfolding status format_status_response_with_defaults
status-Complete services tag args session db = elim (Bool-cases services.repository) [
  | inl t ↦ rw t (status_for-Complete tag args db (account_of session.authenticated))
  | inr f ↦ rw f (
      status_reply-Complete tag args (format_status_response_with_defaults (first_or_inbox args))
        (λ items. format_status_response-untagged _ items))
]

module _ (services : Services) (others : Others) where
  -- Every reply of `others` has the form.
  abbrev pub OthersComplete : Type 0
  OthersComplete =
      (name tag : Text) (args : List Text) (session : ImapSession) (db : Db)
      → CompleteReply tag (others name tag args session db).0

  handle_uid-Complete :
      OthersComplete
      → (verb : UidVerb) (tag sub : Text) (args : List Text) (session : ImapSession)
        (account_id : ℤ) (mailbox : Mailbox) (db : Db)
      → CompleteReply tag
          (handle_uid services others verb tag sub args session account_id mailbox db).0
  unfolding handle_uid unimplemented
  handle_uid-Complete h Uid.fetch tag sub args session account_id mailbox db =
      h (lit "UID FETCH") tag args session db
  handle_uid-Complete h Uid.search tag sub args session account_id mailbox db =
      h (lit "UID SEARCH") tag args session db
  handle_uid-Complete h Uid.sort tag sub args session account_id mailbox db =
      h (lit "UID SORT") tag args session db
  handle_uid-Complete h Uid.thread tag sub args session account_id mailbox db =
      h (lit "UID THREAD") tag args session db
  handle_uid-Complete h Uid.copy tag sub args session account_id mailbox db =
      uid_copy_or_move-Complete services tag (lit "UID COPY") false args
        (is_read_only session.state) account_id mailbox db
  handle_uid-Complete h Uid.move tag sub args session account_id mailbox db =
      uid_copy_or_move-Complete services tag (lit "UID MOVE") true args (is_read_only session.state)
        account_id mailbox db
  handle_uid-Complete h Uid.expunge tag sub args session account_id mailbox db =
      uid_expunge-Complete tag args (is_read_only session.state) mailbox db
  handle_uid-Complete h Uid.store tag sub args session account_id mailbox db =
      uid_store-Complete services tag args (is_read_only session.state) account_id mailbox db
  handle_uid-Complete h Uid.other tag sub args session account_id mailbox db =
      ends_no tag (lit "UNIMPLEMENTED") _

  uid_checked-Complete :
      OthersComplete
      → (tag sub : Text) (args : List Text) (session : ImapSession)
        (checked : Checked (ℤ × Mailbox)) (db : Db)
      → Completes tag checked
      → CompleteReply tag (uid_checked services others tag sub args session checked db).0
  unfolding uid_checked
  uid_checked-Complete h tag sub args session (refused line) db c = c
  uid_checked-Complete h tag sub args session (passed (account_id, mailbox)) db c =
      handle_uid-Complete h (uid_verb_of sub) tag sub args session account_id mailbox db

  uid-Complete :
      OthersComplete
      → (tag : Text) (args : List Text) (session : ImapSession) (db : Db)
      → CompleteReply tag (uid services others tag args session db).0
  unfolding uid
  uid-Complete h tag [] session db = ends_bad tag (lit "UID requires a subcommand")
  uid-Complete h tag (sub ∷ args) session db =
      uid_checked-Complete h tag (to_ascii_uppercase sub) args session
        (check_selected services (lit "UID") tag session db) db
        (check_selected-Completes services (lit "UID") tag session db)

  -- Every reply that is no error consists of lines without a tag and, at the end, one line that
  -- completes the command with its own tag, if that is so of the commands that are left to `others`.
  pub handle-Complete :
      OthersComplete
      → (verb : Verb) (tag name : Text) (args : List Text) (w : World)
      → CompleteReply tag (handle services others verb tag name args w).0
  unfolding handle unimplemented untagged starts_with lit create delete subscribe
  handle-Complete h Verb.capability tag name args w = capability-Complete tag w.session
  handle-Complete h Verb.noop tag name args w = completed-Complete tag (lit "NOOP")
  handle-Complete h Verb.logout tag name args w = logout_handler-Complete tag w
  handle-Complete h Verb.login tag name args w = login-Complete services tag args w
  handle-Complete h Verb.starttls tag name args w = starttls-Complete tag w.session
  handle-Complete h Verb.select tag name args w = select-Complete services tag false args w
  handle-Complete h Verb.examine tag name args w = select-Complete services tag true args w
  handle-Complete h Verb.list tag name args w = list-Complete services tag name args w.session w.db
  handle-Complete h Verb.lsub tag name args w = list-Complete services tag name args w.session w.db
  handle-Complete h Verb.status tag name args w = status-Complete services tag args w.session w.db
  handle-Complete h Verb.search tag name args w = h (lit "SEARCH") tag args w.session w.db
  handle-Complete h Verb.sort tag name args w = h (lit "SORT") tag args w.session w.db
  handle-Complete h Verb.thread tag name args w = h (lit "THREAD") tag args w.session w.db
  handle-Complete h Verb.fetch tag name args w = h (lit "FETCH") tag args w.session w.db
  handle-Complete h Verb.store tag name args w = store-Complete services tag args w.session w.db
  handle-Complete h Verb.uid tag name args w = uid-Complete h tag args w.session w.db
  handle-Complete h Verb.append tag name args w = h (lit "APPEND") tag args w.session w.db
  handle-Complete h Verb.idle tag name args w = idle-Complete tag w.session
  handle-Complete h Verb.check tag name args w = check-Complete tag w.session
  handle-Complete h Verb.unselect tag name args w =
      unselect-Complete tag (selected_mailbox_name w.session.state) w
  handle-Complete h Verb.close tag name args w =
      close-Complete services tag (selected_mailbox_name w.session.state) w
  handle-Complete h Verb.expunge tag name args w = expunge-Complete services tag args w.session w.db
  handle-Complete h Verb.create tag name args w =
      with_account-Complete services (lit "CREATE") tag w.session w.db _ (create_for tag args w.db)
        (completed-Complete tag (lit "CREATE")) (create_for-Complete tag args w.db)
  handle-Complete h Verb.delete tag name args w =
      with_account-Complete services (lit "DELETE") tag w.session w.db _ (delete_for tag args w.db)
        (completed-Complete tag (lit "DELETE")) (delete_for-Complete tag args w.db)
  handle-Complete h Verb.rename tag name args w = rename-Complete services tag args w
  handle-Complete h Verb.subscribe tag name args w =
      with_account-Complete services name tag w.session w.db _ (subscribe_for tag name args w.db)
        (completed-Complete tag name) (subscribe_for-Complete tag name args w.db)
  handle-Complete h Verb.unsubscribe tag name args w =
      with_account-Complete services name tag w.session w.db _ (subscribe_for tag name args w.db)
        (completed-Complete tag name) (subscribe_for-Complete tag name args w.db)
  handle-Complete h Verb.copy tag name args w =
      copy_or_move-Complete services tag name false args w.session w.db
  handle-Complete h Verb.move tag name args w =
      copy_or_move-Complete services tag name true args w.session w.db
  handle-Complete h Verb.namespace tag name args w =
      follows refl (completed-Complete tag (lit "NAMESPACE"))
  handle-Complete h Verb.id tag name args w = follows refl (completed-Complete tag (lit "ID"))
  handle-Complete h Verb.enable tag name args w = enable-Complete tag args w.session
  handle-Complete h Verb.condstore tag name args w = condstore-Complete tag w.session
  handle-Complete h Verb.other tag name args w = ends_no tag (lit "UNIMPLEMENTED") _
