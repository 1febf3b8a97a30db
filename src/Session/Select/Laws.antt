-- ===== src/Session/Select/Laws.antt =====
-- CLOSE: what it leaves of the mailbox.
use imapped_lightmode.Base.{
  ◌≡◌, refl, ap, sym, ◌∙◌, Bool, true, false, not, ◌&&◌, Option, none, some, [], retain, ok, arith,
}
use imapped_lightmode.Base.Int.{ℤ, pos, leb_ℤ}
use imapped_lightmode.Text.{Text, lit}
use imapped_lightmode.Domain.Records.{Mailbox}
use imapped_lightmode.Db.{Db, done}
use imapped_lightmode.Db.Mailboxes.{update_mailboxes}
use imapped_lightmode.Db.Messages.{list_mailbox_messages, refresh_mailbox_counts}
use imapped_lightmode.Db.Messages.Delete.{is_there}
use imapped_lightmode.Session.{
  SelectedMailboxSnapshot, Services, World, is_read_only, passed, check_selected,
}
use imapped_lightmode.Session.Targets.{is_deleted}
use imapped_lightmode.Db.Messages.Remove.{IsApart, remove_uids-retain}
use imapped_lightmode.Db.Messages.Purge.{IsPurged, delete_messages-IsPurged}
use imapped_lightmode.Session.Select.{purge, purge_snapshot, close_result, close}
use imapped_lightmode.Session.Checks.{check_selected_there}
use imapped_lightmode.Session.Expunge.{expunge}
use imapped_lightmode.Session.Expunge.Laws.{expunge-Tells}

purge-result :
    (mailbox_id : ℤ) (db : Db)
    → (loop : IsPurged mailbox_id (retain is_deleted (list_mailbox_messages mailbox_id db)) db)
    → purge mailbox_id db ≡ (ok done, refresh_mailbox_counts mailbox_id loop.next)
unfolding purge
purge-result mailbox_id db loop = rw (loop.result) refl

purge-list :
    (mailbox_id : ℤ) (db : Db)
    → is_there mailbox_id db ≡ true
    → IsApart (list_mailbox_messages mailbox_id db)
    → (next : Db) × (purge mailbox_id db ≡ (ok done, next))
      × (list_mailbox_messages mailbox_id next
          ≡ retain (λ m. not (is_deleted m)) (list_mailbox_messages mailbox_id db))
unfolding refresh_mailbox_counts update_mailboxes list_mailbox_messages
purge-list mailbox_id db there apart =
    let messages = list_mailbox_messages mailbox_id db in
    let loop = delete_messages-IsPurged mailbox_id (retain is_deleted messages) db there in
    (
      refresh_mailbox_counts mailbox_id loop.next,
      purge-result mailbox_id db loop,
      loop.listed ∙ remove_uids-retain is_deleted messages apart,
    )

same_id : (a b : SelectedMailboxSnapshot) → some a ≡ some b → a.mailbox_id ≡ b.mailbox_id
same_id a b h = cc

purge_snapshot-purge :
    (active : Bool) (kept : Option SelectedMailboxSnapshot) (snapshot : SelectedMailboxSnapshot)
    (mailbox_id : ℤ) (db : Db)
    → active ≡ true
    → kept ≡ some snapshot
    → snapshot.mailbox_id ≡ mailbox_id
    → leb_ℤ (pos 1) mailbox_id ≡ true
    → purge_snapshot active kept db ≡ purge mailbox_id db
unfolding purge_snapshot
purge_snapshot-purge active none snapshot mailbox_id db a k same positive = ground arith
purge_snapshot-purge active (some other) snapshot mailbox_id db a k same positive =
    let other_id = same_id other snapshot k ∙ same in rw (a, other_id, positive) refl

-- CLOSE in a mailbox that is selected for writing leaves the messages that EXPUNGE leaves, which are those
-- without `\\Deleted`, if the snapshot is still of the mailbox that the name stands for, its id is
-- positive and no two of its messages have one UID.
pub close-expunge :
    (services : Services) (tag selected : Text) (w : World) (account_id : ℤ) (mailbox : Mailbox)
    (snapshot : SelectedMailboxSnapshot)
    → services.repository ≡ true
    → is_read_only w.session.state ≡ false
    → w.session.selected_mailbox_snapshot ≡ some snapshot
    → snapshot.mailbox_id ≡ mailbox.id
    → leb_ℤ (pos 1) mailbox.id ≡ true
    → check_selected services (lit "EXPUNGE") tag w.session w.db ≡ passed (account_id, mailbox)
    → IsApart (list_mailbox_messages mailbox.id w.db)
    → list_mailbox_messages mailbox.id (close services tag (some selected) w).1.db
      ≡ list_mailbox_messages mailbox.id (expunge services tag [] w.session w.db).1
unfolding close close_result
close-expunge services tag selected w account_id mailbox snapshot r writable kept same positive
      passes apart =
    let there =
      check_selected_there services (lit "EXPUNGE") tag w.session w.db account_id mailbox passes in
    let (next, purged, left) = purge-list mailbox.id w.db there apart in
    let told = expunge-Tells services tag w.session w.db account_id mailbox passes writable apart in
    let active : (not (is_read_only w.session.state) && services.repository) ≡ true =
      ground (arith, r, writable) in
    let purges =
      purge_snapshot-purge (not (is_read_only w.session.state) && services.repository)
        w.session.selected_mailbox_snapshot snapshot mailbox.id w.db active kept same positive in
    ap (λ result. list_mailbox_messages mailbox.id (close_result tag w result).1.db)
      (purges ∙ purged)
    ∙ (left ∙ sym told.left)
