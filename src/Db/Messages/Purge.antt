-- ===== src/Db/Messages/Purge.antt =====
-- The loop that deletes messages one by one, and what it leaves of the mailbox.
use imapped_lightmode.Base.{◌≡◌, refl, ap, ◌∙◌, true, List, [], ◌∷◌, ok}
use imapped_lightmode.Base.Int.{ℤ}
use imapped_lightmode.Domain.Records.{MailboxMessage}
use imapped_lightmode.Db.{Db, Action, Done, done, pure, commit, ◌>>◌}
use imapped_lightmode.Db.Messages.{delete_mailbox_message, list_mailbox_messages}
use imapped_lightmode.Db.Messages.Delete.{is_there, delete_mailbox_message-IsDeleted}
use imapped_lightmode.Db.Messages.Remove.{remove_uids, uid_list}

-- The loop that deletes messages.
unfoldable pub delete_messages : ℤ → List MailboxMessage → Action Done
delete_messages mailbox_id [] = pure done
delete_messages mailbox_id (m ∷ messages) =
    commit (delete_mailbox_message mailbox_id m.local_uid) >> delete_messages mailbox_id messages

-- The loop takes the UIDs out of the list.
pub record IsPurged (mailbox_id : ℤ) (messages : List MailboxMessage) (db : Db) : Type 0 where
  pub next : Db
  pub result : delete_messages mailbox_id messages db ≡ (ok done, next)
  pub there : is_there mailbox_id next ≡ true
  pub listed :
      list_mailbox_messages mailbox_id next
      ≡ remove_uids (uid_list messages) (list_mailbox_messages mailbox_id db)

pub delete_messages-IsPurged :
    (mailbox_id : ℤ) (messages : List MailboxMessage) (db : Db)
    → is_there mailbox_id db ≡ true
    → IsPurged mailbox_id messages db
unfolding delete_messages remove_uids
delete_messages-IsPurged mailbox_id [] db h = record {
  next = db;
  result = refl;
  there = h;
  listed = refl;
}
delete_messages-IsPurged mailbox_id (m ∷ messages) db h =
    let (rows, mid, gone, deleted) = delete_mailbox_message-IsDeleted mailbox_id m.local_uid db h in
    let rest = delete_messages-IsPurged mailbox_id messages mid deleted.there in
    record {
      next = rest.next;
      result = rw (gone, rest.result) refl;
      there = rest.there;
      listed = rest.listed ∙ ap (remove_uids (uid_list messages)) deleted.listed;
    }
