-- ===== src/Session/Expunge/Laws.antt =====
-- EXPUNGE and UID EXPUNGE: what they leave, and that a client that follows the reported numbers sees it.
use imapped_lightmode.Base.{
  ℕ, ◌≡◌, refl, ap, sym, ◌∙◌, Bool, true, false, not, ◌&&◌, List, [], ◌∷◌, ◌++◌, retain, map,
  Result, ok,
}
use imapped_lightmode.Base.Int.{ℤ}
use imapped_lightmode.Text.{Text, lit}
use imapped_lightmode.Protocol
use imapped_lightmode.Domain.Records.{Mailbox, MailboxMessage}
use imapped_lightmode.Db.{Db}
use imapped_lightmode.Db.Mailboxes.{update_mailboxes}
use imapped_lightmode.Db.Messages.{list_mailbox_messages, refresh_mailbox_counts}
use imapped_lightmode.Db.Messages.Delete.{is_there, delete_mailbox_message-IsDeleted}
use imapped_lightmode.Session.{ImapSession, Services, passed, check_selected, is_read_only}
use imapped_lightmode.Session.Checks.{check_selected_there}
use imapped_lightmode.Session.Targets.{
  Target, is_deleted, contains_number, uids_of, numbered, reversed, sort_targets,
}
use imapped_lightmode.Session.Targets.Laws.{
  client_view, numbers_of, client_view-numbered, sort_targets-numbered,
}
use imapped_lightmode.Db.Messages.Remove.{IsApart, remove_uids}
use imapped_lightmode.Session.Targets.Remove.{target_uids, remove_uids-numbered}
use imapped_lightmode.Session.Expunge.{
  expunge_line, expunge_targets, expunge_descending, expunge_set, expunge_checked, expunge,
  uid_expunge_set, uid_expunge,
}

abbrev lines_of : List Target → List Text
lines_of = map (λ (t : Target). expunge_line t.0)

-- The loop reports every target, and takes its UID out of the list.
record IsExpunged (mailbox_id : ℤ) (targets : List Target) (db : Db) : Type 0 where
  next : Db
  result : expunge_targets mailbox_id targets db ≡ (ok (lines_of targets), next)
  listed :
      list_mailbox_messages mailbox_id next
      ≡ remove_uids (target_uids targets) (list_mailbox_messages mailbox_id db)
  there : is_there mailbox_id next ≡ true

expunge_targets-IsExpunged :
    (mailbox_id : ℤ) (targets : List Target) (db : Db)
    → is_there mailbox_id db ≡ true
    → IsExpunged mailbox_id targets db
unfolding expunge_targets remove_uids
expunge_targets-IsExpunged mailbox_id [] db h = record {
  next = db;
  result = refl;
  listed = refl;
  there = h;
}
expunge_targets-IsExpunged mailbox_id ((sequence, m) ∷ targets) db h =
    let (rows, mid, gone, deleted) = delete_mailbox_message-IsDeleted mailbox_id m.local_uid db h in
    let rest = expunge_targets-IsExpunged mailbox_id targets mid deleted.there in
    record {
      next = rest.next;
      result = rw (gone, rest.result) refl;
      listed = rest.listed ∙ ap (remove_uids (target_uids targets)) deleted.listed;
      there = rest.there;
    }

-- What a client that keeps the messages of a mailbox in order makes of the reply: it reads `numbers`,
-- and is left with the messages that are left.
pub record Tells (mailbox_id : ℤ) (completion : Text) (test : MailboxMessage → Bool) (db : Db)
    (result : Result (List Text) × Db) : Type 0 where
  pub numbers : List ℕ
  pub reply : result.0 ≡ ok (map expunge_line numbers ++ completion ∷ [])
  pub client :
      client_view 1 numbers (list_mailbox_messages mailbox_id db)
      ≡ list_mailbox_messages mailbox_id result.1
  pub left :
      list_mailbox_messages mailbox_id result.1
      ≡ retain (λ m. not (test m)) (list_mailbox_messages mailbox_id db)

lines-numbers : (ts : List Target) → lines_of ts ≡ map expunge_line (numbers_of ts)
lines-numbers [] = refl
lines-numbers (t ∷ ts) = ap (λ r. expunge_line t.0 ∷ r) (lines-numbers ts)

-- The reply and the database of the loop over targets that are in order, and of what follows it.
descending_result :
    (mailbox_id : ℤ) (completion : Text) (ts : List Target) (db : Db)
    → sort_targets ts ≡ ts
    → (loop : IsExpunged mailbox_id (reversed ts) db)
    → expunge_descending mailbox_id completion ts db ≡ (
      ok (lines_of (reversed ts) ++ completion ∷ []),
      refresh_mailbox_counts mailbox_id loop.next,
    )
unfolding expunge_descending
descending_result mailbox_id completion ts db sorted loop = rw (sorted, loop.result) refl

module _ (mailbox_id : ℤ) (completion : Text) (test : MailboxMessage → Bool) (db : Db) where
  expunge_descending-Tells :
      is_there mailbox_id db ≡ true
      → IsApart (list_mailbox_messages mailbox_id db)
      → Tells mailbox_id completion test db (
          expunge_descending mailbox_id completion
            (numbered test 1 (list_mailbox_messages mailbox_id db))
            db)
  unfolding refresh_mailbox_counts update_mailboxes list_mailbox_messages
  expunge_descending-Tells there apart =
      let messages = list_mailbox_messages mailbox_id db in
      let targets = numbered test 1 messages in
      let loop = expunge_targets-IsExpunged mailbox_id (reversed targets) db there in
      let result =
        descending_result mailbox_id completion targets db (sort_targets-numbered test 1 messages)
          loop in
      let left = loop.listed ∙ remove_uids-numbered test 1 messages apart in
      record {
        numbers = numbers_of (reversed targets);
        reply =
            ap (λ r. r.0) result
            ∙ ap (λ lines. ok (lines ++ completion ∷ [])) (lines-numbers (reversed targets));
        client =
            client_view-numbered test 1 messages
            ∙ (sym left ∙ sym (ap (λ r. list_mailbox_messages mailbox_id r.1) result));
        left = ap (λ r. list_mailbox_messages mailbox_id r.1) result ∙ left;
      }

-- EXPUNGE without a set, in a mailbox that is selected for writing: the messages with `\Deleted` go
-- and all others stay, and a client that takes the reported numbers out of its list, one after the
-- other, has just the messages that are left; the last line completes the command. No two messages of
-- the mailbox may have one UID.
pub expunge-Tells :
    (services : Services) (tag : Text) (session : ImapSession) (db : Db) (account_id : ℤ)
    (mailbox : Mailbox)
    → check_selected services (lit "EXPUNGE") tag session db ≡ passed (account_id, mailbox)
    → is_read_only session.state ≡ false
    → IsApart (list_mailbox_messages mailbox.id db)
    → Tells mailbox.id
        (Protocol.ok tag (lit "EXPUNGE completed"))
        is_deleted
        db
        (expunge services tag [] session db)
unfolding expunge expunge_checked expunge_set
expunge-Tells services tag session db account_id mailbox passes writable apart =
    rw (passes, writable)
      (expunge_descending-Tells mailbox.id (Protocol.ok tag (lit "EXPUNGE completed")) is_deleted db
        (check_selected_there services (lit "EXPUNGE") tag session db account_id mailbox passes)
        apart)

-- The same of UID EXPUNGE with a set, behind the tests of UID, in a mailbox that is selected for writing and
-- in which no two messages have one UID: the messages go that have `\Deleted` and a UID of the set.
pub uid_expunge-Tells :
    (tag set : Text) (args : List Text) (db : Db) (mailbox : Mailbox)
    → is_there mailbox.id db ≡ true
    → IsApart (list_mailbox_messages mailbox.id db)
    → Tells mailbox.id
        (Protocol.ok tag (lit "UID EXPUNGE completed"))
        (λ m.
          contains_number (uids_of (list_mailbox_messages mailbox.id db) set) m.local_uid
          && is_deleted m)
        db
        (uid_expunge tag (set ∷ args) false mailbox db)
unfolding uid_expunge uid_expunge_set
uid_expunge-Tells tag set args db mailbox there apart =
    expunge_descending-Tells mailbox.id (Protocol.ok tag (lit "UID EXPUNGE completed"))
      (λ m.
        contains_number (uids_of (list_mailbox_messages mailbox.id db) set) m.local_uid
        && is_deleted m)
      db there apart
