-- ===== src/Session/Select.antt =====
-- crates/imap-server/src/imap.rs: SELECT, EXAMINE, UNSELECT and CLOSE.
pub mod Laws
use imapped_lightmode.Base.{
  Bool, true, false, not, ◌&&◌, Option, none, some, List, [], ◌∷◌, ◌++◌, if◌then◌else◌, retain,
  Result, ok, err,
}
use imapped_lightmode.Base.Int.{ℤ, pos, leb_ℤ}
use imapped_lightmode.Text.{Text, lit}
use imapped_lightmode.Text.Case.{to_ascii_lowercase, eq_ignore_ascii_case}
use imapped_lightmode.Protocol
use imapped_lightmode.Protocol.{State, authenticated, selected_mailbox, no}
use imapped_lightmode.Protocol.Status.{show_ℤ, unwrap_or_ℤ}
use imapped_lightmode.Domain.Records.{Mailbox, MailboxMessage}
use imapped_lightmode.Db.{Db, Done, done, Action, pure, commit, ◌>>◌}
use imapped_lightmode.Db.Mailboxes.{find_mailbox}
use imapped_lightmode.Db.Messages.Purge.{delete_messages}
use imapped_lightmode.Db.Messages.{
  list_mailbox_messages, delete_mailbox_message, refresh_mailbox_counts,
}
use imapped_lightmode.Session.{
  SelectedMailboxSnapshot, ImapSession, Services, World, Reply, selected_mailbox_name, is_read_only,
  account_of, bad_state,
}
use imapped_lightmode.Session.Targets.{is_deleted}

unfoldable pub canonical_mailbox_name : Text → Text
canonical_mailbox_name name =
    if eq_ignore_ascii_case name (lit "INBOX") then lit "inbox" else to_ascii_lowercase name

-- `args.first().cloned().unwrap_or("INBOX")`.
unfoldable pub first_or_inbox : List Text → Text
first_or_inbox [] = lit "INBOX"
first_or_inbox (name ∷ args) = name

unfoldable pub unwrap_or_default : Option ℤ → ℤ
unwrap_or_default none = pos 0
unwrap_or_default (some n) = n

-- The mailbox of a session without a repository or without an account.
unfoldable pub default_mailbox : Option ℤ → Text → Mailbox
unfolding canonical_mailbox_name unwrap_or_default
default_mailbox account_id name = record {
  id = pos 0;
  account_id = unwrap_or_default account_id;
  name = name;
  canonical_name = canonical_mailbox_name name;
  delimiter = some (lit "/");
  attributes = lit "\\HasNoChildren" ∷ [];
  subscribed = true;
  special_use = if eq_ignore_ascii_case name (lit "INBOX") then some (lit "\\Inbox") else none;
  uidvalidity = some (pos 1);
  uidnext = some (pos 1);
  highestmodseq = some (pos 0);
  exists_count = pos 0;
  recent_count = pos 0;
  unseen_count = pos 0;
}

-- The mailbox to select; `none` when the repository has none of the name.
unfoldable pub mailbox_to_select : Services → Option ℤ → Text → Db → Option Mailbox
unfolding default_mailbox
mailbox_to_select services none name db = some (default_mailbox none name)
mailbox_to_select services (some account_id) name db =
    if services.repository
    then find_mailbox account_id name db
    else some (default_mailbox (some account_id) name)

unfoldable pub highestmodseq_line : Option ℤ → List Text → List Text
unfolding show_ℤ
highestmodseq_line none rest = rest
highestmodseq_line (some n) rest =
    (lit "* OK [HIGHESTMODSEQ " ++ (show_ℤ n ++ lit "] Highest mod-sequence value")) ∷ rest

unfoldable pub select_lines : Text → Bool → Mailbox → List Text
unfolding highestmodseq_line show_ℤ unwrap_or_ℤ Protocol.ok
select_lines tag examine mailbox =
    lit "* FLAGS (\\Answered \\Flagged \\Deleted \\Seen \\Draft)"
    ∷ (lit "* " ++ (show_ℤ mailbox.exists_count ++ lit " EXISTS"))
    ∷ (lit "* " ++ (show_ℤ mailbox.recent_count ++ lit " RECENT"))
    ∷ (lit "* OK [UIDVALIDITY "
        ++ (show_ℤ (unwrap_or_ℤ mailbox.uidvalidity (pos 1)) ++ lit "] UIDs valid"))
    ∷ (lit "* OK [UIDNEXT "
        ++ (show_ℤ (unwrap_or_ℤ mailbox.uidnext (pos 1)) ++ lit "] Predicted next UID"))
    ∷ highestmodseq_line mailbox.highestmodseq (
        (lit "* OK [UNSEEN " ++ (show_ℤ mailbox.unseen_count ++ lit "] First unseen message"))
        ∷ Protocol.ok tag (
            if examine
            then lit "[READ-ONLY] EXAMINE completed"
            else lit "[READ-WRITE] SELECT completed")
        ∷ [])

abbrev pub snapshot_of : Mailbox → SelectedMailboxSnapshot
snapshot_of mailbox = record {
  account_id = mailbox.account_id;
  mailbox_id = mailbox.id;
  exists_count = mailbox.exists_count;
}

unfoldable pub select_found : Text → Bool → World → Option Mailbox → Reply × World
unfolding select_lines no
select_found tag examine w none =
    (ok (no tag (lit "NONEXISTENT") (lit "mailbox not found") ∷ []), w)
select_found tag examine w (some mailbox) = (
  ok (select_lines tag examine mailbox),
  record w {
    session = record w.session {
      state = selected_mailbox examine mailbox.name;
      selected_mailbox_snapshot = some (snapshot_of mailbox);
    };
  },
)

-- SELECT, and EXAMINE where `examine` is set.
unfoldable pub select : Services → Text → Bool → List Text → World → Reply × World
unfolding select_found mailbox_to_select first_or_inbox account_of
select services tag examine args w =
    select_found tag examine w
      (mailbox_to_select services (account_of w.session.authenticated) (first_or_inbox args) w.db)

-- Back to the state of a session that is logged in.
unfoldable pub leave_mailbox : ImapSession → ImapSession
leave_mailbox session = record session { selected_mailbox_snapshot = none; state = authenticated }

unfoldable pub unselect : Text → Option Text → World → Reply × World
unfolding leave_mailbox bad_state Protocol.ok
unselect tag none w = (ok (bad_state tag (lit "UNSELECT") (lit "a selected mailbox") ∷ []), w)
unselect tag (some mailbox) w = (
  ok (Protocol.ok tag (lit "UNSELECT completed") ∷ []),
  record w { session = leave_mailbox w.session },
)

-- What CLOSE does in a mailbox: the messages with `\Deleted` go.
unfoldable pub purge : ℤ → Action Done
unfolding delete_messages
purge mailbox_id db =
    (delete_messages mailbox_id (retain is_deleted (list_mailbox_messages mailbox_id db))
        >> commit (λ after. ok (done, refresh_mailbox_counts mailbox_id after)))
      db

unfoldable pub purge_snapshot : Bool → Option SelectedMailboxSnapshot → Action Done
unfolding purge
purge_snapshot active none = pure done
purge_snapshot active (some snapshot) =
    if active && leb_ℤ (pos 1) snapshot.mailbox_id then purge snapshot.mailbox_id else pure done

unfoldable pub close_result : Text → World → Result Done × Db → Reply × World
unfolding leave_mailbox Protocol.ok
close_result tag w (err e, db) = (err e, record w { db = db })
close_result tag w (ok result, db) = (
  ok (Protocol.ok tag (lit "CLOSE completed") ∷ []),
  record w { session = leave_mailbox w.session; db = db },
)

unfoldable pub close : Services → Text → Option Text → World → Reply × World
unfolding close_result purge_snapshot bad_state is_read_only
close services tag none w = (ok (bad_state tag (lit "CLOSE") (lit "a selected mailbox") ∷ []), w)
close services tag (some mailbox) w = close_result tag w (
    purge_snapshot (not (is_read_only w.session.state) && services.repository)
      w.session.selected_mailbox_snapshot w.db)
