-- ===== src/Session/Mailboxes.antt =====
-- crates/imap-server/src/imap.rs: the commands on mailboxes, which are CREATE, DELETE, RENAME,
-- SUBSCRIBE, UNSUBSCRIBE, STATUS, LIST and LSUB.
use imapped_lightmode.Base.{
  ℕ, zero, suc, false, Option, none, some, List, [], ◌∷◌, ◌++◌, if◌then◌else◌, Result, ok, err,
}
use imapped_lightmode.Base.Int.{ℤ, pos}
use imapped_lightmode.Text.{Text, lit, eq}
use imapped_lightmode.Text.Case.{eq_ignore_ascii_case}
use imapped_lightmode.Protocol
use imapped_lightmode.Protocol.{State, selected_mailbox, bad, no}
use imapped_lightmode.Domain.Records.{Mailbox}
use imapped_lightmode.Db.{Db}
use imapped_lightmode.Db.Mailboxes.{
  create_mailbox, delete_mailbox, rename_mailbox, set_mailbox_subscribed,
}
use imapped_lightmode.Session.{ImapSession, Services, World, Reply, account_of, bad_state}
use imapped_lightmode.Session.Select.{canonical_mailbox_name}

-- A reply and the database behind it.
abbrev pub OnDb : Type 0
OnDb = Reply × Db

unfoldable pub for_account : Text → Text → Db → (ℤ → OnDb) → Option ℤ → OnDb
unfolding bad_state
for_account name tag db handler none =
    (ok (bad_state tag name (lit "an authenticated account") ∷ []), db)
for_account name tag db handler (some account_id) = handler account_id

-- What all of them do without a repository and without an account.
unfoldable pub with_account :
    Services → Text → Text → ImapSession → Db → List Text → (ℤ → OnDb) → OnDb
unfolding for_account account_of
with_account services name tag session db offline handler =
    if services.repository
    then for_account name tag db handler (account_of session.authenticated)
    else (ok offline, db)

abbrev pub completed : Text → Text → Text
completed tag name = Protocol.ok tag (name ++ lit " completed")

abbrev pub new_mailbox : ℤ → Text → Mailbox
new_mailbox account_id name = record {
  id = pos 0;
  account_id = account_id;
  name = name;
  canonical_name = canonical_mailbox_name name;
  delimiter = some (lit "/");
  attributes = lit "\\HasNoChildren" ∷ [];
  subscribed = false;
  special_use = none;
  uidvalidity = some (pos 1);
  uidnext = some (pos 1);
  highestmodseq = some (pos 0);
  exists_count = pos 0;
  recent_count = pos 0;
  unseen_count = pos 0;
}

unfoldable pub created_line : Text → Option Mailbox → Text
unfolding no
created_line tag (some mailbox) = completed tag (lit "CREATE")
created_line tag none = no tag (lit "ALREADYEXISTS") (lit "mailbox already exists")

unfoldable pub create_for : Text → List Text → Db → ℤ → OnDb
unfolding create_mailbox canonical_mailbox_name created_line bad
create_for tag [] db account_id = (ok (bad tag (lit "CREATE requires a mailbox name") ∷ []), db)
create_for tag (name ∷ args) db account_id =
    let result = create_mailbox (new_mailbox account_id name) db in
    (ok (created_line tag result.0 ∷ []), result.1)

unfoldable pub create : Services → Text → List Text → ImapSession → Db → OnDb
unfolding with_account create_for
create services tag args session db =
    with_account services (lit "CREATE") tag session db (completed tag (lit "CREATE") ∷ [])
      (create_for tag args db)

unfoldable pub deleted_line : Text → ℕ → Text
unfolding no
deleted_line tag zero = no tag (lit "NONEXISTENT") (lit "mailbox not found")
deleted_line tag (suc rows) = completed tag (lit "DELETE")

unfoldable pub delete_for : Text → List Text → Db → ℤ → OnDb
unfolding delete_mailbox deleted_line bad
delete_for tag [] db account_id = (ok (bad tag (lit "DELETE requires a mailbox name") ∷ []), db)
delete_for tag (name ∷ args) db account_id =
    let result = delete_mailbox account_id name db in
    (ok (deleted_line tag result.0 ∷ []), result.1)

unfoldable pub delete : Services → Text → List Text → ImapSession → Db → OnDb
unfolding with_account delete_for
delete services tag args session db =
    with_account services (lit "DELETE") tag session db (completed tag (lit "DELETE") ∷ [])
      (delete_for tag args db)

-- The selected mailbox goes by its new name.
unfoldable pub rename_state : Text → Text → State → State
rename_state source destination (selected_mailbox read_only mailbox) =
    selected_mailbox read_only
      (if eq_ignore_ascii_case mailbox source then destination else mailbox)
rename_state source destination state = state

unfoldable pub renamed : Text → Text → Text → World → Result (Option Mailbox × Db) → Reply × World
unfolding rename_state no
renamed tag source destination w (err e) = (err e, w)
renamed tag source destination w (ok (none, db)) = (
  ok (no tag (lit "NONEXISTENT") (lit "mailbox not found or destination already exists") ∷ []),
  record w { db = db },
)
renamed tag source destination w (ok (some mailbox, db)) = (
  ok (completed tag (lit "RENAME") ∷ []),
  record w {
    session = record w.session { state = rename_state source destination w.session.state };
    db = db;
  },
)

unfoldable pub rename_for : Text → List Text → World → Option ℤ → Reply × World
unfolding renamed rename_mailbox bad bad_state
rename_for tag args w none =
    (ok (bad_state tag (lit "RENAME") (lit "an authenticated account") ∷ []), w)
rename_for tag [] w (some account_id) =
    (ok (bad tag (lit "RENAME requires a source mailbox") ∷ []), w)
rename_for tag (source ∷ []) w (some account_id) =
    (ok (bad tag (lit "RENAME requires a destination mailbox") ∷ []), w)
rename_for tag (source ∷ destination ∷ args) w (some account_id) =
    renamed tag source destination w (rename_mailbox account_id source destination w.db)

unfoldable pub rename : Services → Text → List Text → World → Reply × World
unfolding rename_for account_of
rename services tag args w =
    if services.repository
    then rename_for tag args w (account_of w.session.authenticated)
    else (ok (completed tag (lit "RENAME") ∷ []), w)

unfoldable pub subscribed_line : Text → Text → Option Mailbox → Text
unfolding no
subscribed_line tag name (some mailbox) = completed tag name
subscribed_line tag name none = no tag (lit "NONEXISTENT") (lit "mailbox not found")

unfoldable pub subscribe_for : Text → Text → List Text → Db → ℤ → OnDb
unfolding set_mailbox_subscribed subscribed_line bad
subscribe_for tag name [] db account_id =
    (ok (bad tag (name ++ lit " requires a mailbox name") ∷ []), db)
subscribe_for tag name (mailbox_name ∷ args) db account_id =
    let result = set_mailbox_subscribed account_id mailbox_name (eq name (lit "SUBSCRIBE")) db in
    (ok (subscribed_line tag name result.0 ∷ []), result.1)

-- SUBSCRIBE and UNSUBSCRIBE, by their names.
unfoldable pub subscribe : Services → Text → Text → List Text → ImapSession → Db → OnDb
unfolding with_account subscribe_for
subscribe services tag name args session db =
    with_account services name tag session db (completed tag name ∷ [])
      (subscribe_for tag name args db)
