-- ===== src/Sync/Engine/Tests.antt =====
-- A synchronisation of a mailbox with two messages of the server, of which one is new, and with a third that
-- the server does not have any more.
use imapped_lightmode.Base.{
  ◌+◌, arith, not, map, ℕ, suc, ◌≡◌, refl, true, false, ◌&&◌, ◌||◌, none, some, [], ◌∷◌, any, All,
  length, ok, subst, sym, ◌-◌,
}
use imapped_lightmode.Base.Int.{pos, leb_ℤ, eqb_ℤ, ◌+ℤ◌}
use imapped_lightmode.Base.Sort.{sort, dedup}
use imapped_lightmode.Text.{Text, lit, eq}
use imapped_lightmode.Text.Map.{lookup}
use imapped_lightmode.Domain.Records.{MailAccount, Mailbox, MailboxMessage, number}
use imapped_lightmode.Db.{Db}
use imapped_lightmode.Db.Messages.{list_mailbox_messages, delete_mailbox_message}
use imapped_lightmode.Db.SyncStates.{load_sync_state}
use imapped_lightmode.Sync.Mirror.{Mirror, SelectedMailboxInfo}
use imapped_lightmode.Sync.Engine.{
  upstream_uid_set, is_from, is_missing, last_uid, sync_mailbox_inner,
}
use imapped_lightmode.Sync.Engine.Mirrors.{sync_mailbox_inner-Mirrors}
use imapped_lightmode.Text.Case.{to_ascii_lowercase}
use imapped_lightmode.Db.Accounts.{find_account_by_id_any_state}
use imapped_lightmode.Sync.Account.Skips.{Skips, busy, sync_account-skips}
use imapped_lightmode.Sync.Account.{
  Locks, is_disabled, no_report, SyncRunReport, is_listed, sync_account,
}
use imapped_lightmode.Sync.Account.Listed.{sync_account-is_listed}
use imapped_lightmode.Mime.{ParsedMessage}
use imapped_lightmode.Storage.{rfc822, content_addressed_key}
use imapped_lightmode.Db.Contents.{get_account_quota}
use imapped_lightmode.Sync.Ingest.{IngestedMessage, ingest_raw_message}
use imapped_lightmode.Sync.Engine.Charges.{part_bytes, charge, is_within}
use imapped_lightmode.Sync.Engine.Within.{ingest_raw_message-charge}
use imapped_lightmode.Db.Mailboxes.{with_id}
use imapped_lightmode.Db.Messages.Delete.{is_there}
use imapped_lightmode.Sync.Engine.Steady.{sync_mailbox_inner_succeeds}

abbrev inbox : Mailbox
inbox = record {
  id = pos 3;
  account_id = pos 1;
  name = lit "INBOX";
  canonical_name = lit "inbox";
  delimiter = some (lit "/");
  attributes = [];
  subscribed = true;
  special_use = none;
  uidvalidity = some (pos 7);
  uidnext = none;
  highestmodseq = none;
  exists_count = pos 0;
  recent_count = pos 0;
  unseen_count = pos 0;
}

abbrev row : ℕ → MailboxMessage
row uid = record {
  id = pos uid;
  mailbox_id = pos 3;
  message_id = pos 1;
  local_uid = pos uid;
  upstream_uid = some (pos uid);
  modseq = none;
  flags = [];
  keywords = [];
  is_expunged = false;
}

abbrev account : MailAccount
account = record {
  id = pos 1;
  user_id = pos 4;
  disabled_at = none;
  last_sync_at = none;
  last_sync_error = some (lit "storage error: no");
}

abbrev before : Db
before = record {
  mailboxes = inbox ∷ [];
  messages = row 1 ∷ row 2 ∷ [];
  mutations = [];
  sessions = [];
  uid_mappings = [];
  contents = [];
  mime_parts = [];
  quotas = record { account_id = some (pos 1); max_bytes = pos 1000; used_bytes = pos 10 } ∷ [];
  mail_accounts = account ∷ [];
  sync_states =
      record {
        account_id = pos 1;
        mailbox_id = some (pos 3);
        state_json = (lit "uidvalidity", number (pos 7)) ∷ (lit "last_uid", number (pos 2)) ∷ [];
        last_success_at = none;
        last_attempt_at = none;
        last_error = none;
      }
      ∷ [];
  next_mailbox_id = 4;
  next_message_row_id = 3;
  next_mutation_id = 1;
  next_content_id = 2;
}

abbrev selection : SelectedMailboxInfo
selection = record {
  flags = [];
  exists = some (pos 2);
  recent = none;
  uidvalidity = some (pos 7);
  uidnext = some (pos 4);
  highestmodseq = none;
  unseen = none;
  read_only = false;
}

-- The server has the messages 1 and 3, and counts what it is asked.
abbrev server : Mirror ℕ
server = record {
  list_mailboxes = λ n. (ok (lit "INBOX" ∷ []), suc n);
  select_mailbox = λ name n. (ok selection, suc n);
  uid_search_all = λ n. (ok (1 ∷ 3 ∷ []), suc n);
  uid_fetch_flags = λ uid n. (ok (lit "\\Seen" ∷ []), suc n);
  uid_fetch_rfc822 = λ uid n. (ok (lit "Hi"), suc n);
  put = λ key body n. (ok (record { key = key; sha256 = []; size_octets = length body }), n);
  index_message = none;
  parse_message = λ raw. ok (record {
    raw_sha256 = [];
    size_octets = length raw;
    message_id_header = none;
    subject = none;
    from_json = [];
    to_json = [];
    cc_json = [];
    bcc_json = [];
    reply_to_json = [];
    envelope_json = [];
    bodystructure_json = [];
    text_preview = none;
    mime_parts = [];
  });
}

abbrev sha256_hex : Text → Text
sha256_hex body = body

abbrev after : Db × ℕ
after = (sync_mailbox_inner sha256_hex server 5 (pos 1) (lit "INBOX") inbox (before, 0)).1

run : sync_mailbox_inner sha256_hex server 5 (pos 1) (lit "INBOX") inbox (before, 0) ≡ (ok 1, after)
unfolding sync_mailbox_inner list_mailbox_messages delete_mailbox_message lookup lit dedup sort ◌+ℤ◌
run = refl

not_negative :
    leb_ℤ (pos 0) (last_uid (load_sync_state (pos 1) (some (pos 3)) before) selection) ≡ true
unfolding last_uid load_sync_state lookup eq lit
not_negative = refl

-- The new message is there, and the message 2 is not.
sync_mailbox_inner-Mirrors_example :
    (any (is_missing (upstream_uid_set (1 ∷ 3 ∷ []))) (list_mailbox_messages (pos 3) after.0)
      ≡ false)
    × All
        (λ uid.
          (leb_ℤ (pos uid) (last_uid (load_sync_state (pos 1) (some (pos 3)) before) selection)
            || any
                (λ m. eqb_ℤ m.local_uid (pos uid) && is_from (pos uid) m)
                (list_mailbox_messages (pos 3) after.0))
          ≡ true)
        (1 ∷ 3 ∷ [])
sync_mailbox_inner-Mirrors_example =
    sync_mailbox_inner-Mirrors sha256_hex server 5 (pos 1) (lit "INBOX") inbox selection
      (1 ∷ 3 ∷ []) (before, 0) after 1 (λ u info e. ground arith) (λ u found e. ground arith)
      not_negative run

-- A mailbox that the server does not list goes, whoever made it.
abbrev with_drafts : Db
with_drafts = record before {
  mailboxes =
      inbox ∷ record inbox { id = pos 4; name = lit "Drafts"; canonical_name = lit "drafts" } ∷ [];
}

-- A server that lists no mailbox.
abbrev empty_server : Mirror ℕ
empty_server = record server { list_mailboxes = λ n. (ok [], n) }

-- A manager that gives every lock, and counts the guards that are held.
abbrev free : Locks ℕ
free = record {
  acquire = λ key seconds n. (ok (some (lit "t")), suc n);
  drop = λ key token n. n - 1;
}

found : find_account_by_id_any_state (pos 1) with_drafts ≡ some account
unfolding find_account_by_id_any_state
found = refl

abbrev after_account : Db × ℕ
after_account =
    (sync_account (λ a b. true) sha256_hex server 5 (some free) (pos 1) (with_drafts, 0)).1

abbrev report : SyncRunReport
report = record { mailboxes_synced = 1; messages_synced = 1 }

run_account :
    sync_account (λ a b. true) sha256_hex server 5 (some free) (pos 1) (with_drafts, 0)
    ≡ (ok report, after_account)
unfolding sync_account list_mailbox_messages delete_mailbox_message lookup lit dedup sort ◌+ℤ◌
    to_ascii_lowercase
run_account = refl

sync_account-is_listed_example :
    (any
        (λ row.
          eqb_ℤ row.account_id (pos 1)
          && not (is_listed (map to_ascii_lowercase (lit "INBOX" ∷ [])) row))
        after_account.0.mailboxes
      ≡ false)
    × (report.mailboxes_synced ≡ length (lit "INBOX" ∷ []))
sync_account-is_listed_example =
    sync_account-is_listed (λ a b. true) sha256_hex server 5 (some free) (pos 1) account
      (lit "INBOX" ∷ []) report (with_drafts, 0) after_account found (unfold is_disabled in refl)
      (lit "t", refl) (λ u. refl) run_account

-- A manager of which another process holds the lock.
abbrev held : Locks ℕ
held = record { acquire = λ key seconds n. (ok none, n); drop = λ key token n. n }

sync_account-skips_example :
    ((sync_account (λ a b. true) sha256_hex server 5 (some held) (pos 1) (with_drafts, 0)).0
      ≡ ok no_report)
    × (record (sync_account
          (λ a b. true)
          sha256_hex
          server
          5
          (some held)
          (pos 1)
          (with_drafts, 0)).1.0 { mail_accounts = with_drafts.mail_accounts }
        ≡ with_drafts)
    × (sync_account (λ a b. true) sha256_hex server 5 (some held) (pos 1) (with_drafts, 0)
        ≡ sync_account (λ a b. true) sha256_hex empty_server 5 (some held) (pos 1) (with_drafts, 0))
sync_account-skips_example =
    sync_account-skips (λ a b. true) sha256_hex server empty_server 5 (some held) (pos 1)
      (with_drafts, 0) (subst (Skips (pos 1) 0 (some held)) (sym found) (busy refl))

-- A message with one part is stored.
abbrev with_part : ParsedMessage
with_part = record {
  raw_sha256 = [];
  size_octets = 2;
  message_id_header = none;
  subject = none;
  from_json = [];
  to_json = [];
  cc_json = [];
  bcc_json = [];
  reply_to_json = [];
  envelope_json = [];
  bodystructure_json = [];
  text_preview = none;
  mime_parts =
      record {
        part_path = lit "1";
        content_type = lit "text/plain";
        charset = none;
        disposition = none;
        filename = none;
        content_id = none;
        size_octets = 1;
        blob_key = lit "part";
        sha256 = [];
        transfer_encoding = none;
        metadata_json = [];
        raw_bytes = lit "H";
      }
      ∷ [];
}

abbrev with_parser : Mirror ℕ
with_parser = record server { parse_message = λ raw. ok with_part }

abbrev stored : IngestedMessage
stored = record {
  message_id = pos 2;
  mailbox_message_id = pos 3;
  local_uid = pos 3;
  blob_key = content_addressed_key sha256_hex rfc822 (lit "Hi");
}

abbrev after_ingest : Db × ℕ
after_ingest =
    (ingest_raw_message sha256_hex with_parser (pos 1) (pos 3) (lit "INBOX") (pos 3) (some (pos 3))
      none (lit "Hi") [] (before, 0)).1

run_ingest :
    ingest_raw_message sha256_hex with_parser
      (pos 1)
      (pos 3)
      (lit "INBOX")
      (pos 3)
      (some (pos 3))
      none
      (lit "Hi")
      []
      (before, 0)
    ≡ (ok stored, after_ingest)
unfolding ingest_raw_message lit ◌+ℤ◌
run_ingest = refl

ingest_raw_message-charge_example :
    (is_within (get_account_quota (pos 1) after_ingest.0) ≡ true)
    × (get_account_quota (pos 1) after_ingest.0
        ≡ charge
            (length (lit "Hi") + part_bytes with_part.mime_parts)
            (get_account_quota (pos 1) before))
ingest_raw_message-charge_example =
    ingest_raw_message-charge sha256_hex with_parser (pos 1) (pos 3) (lit "INBOX") (pos 3)
      (some (pos 3)) none (lit "Hi") with_part [] (before, 0) after_ingest stored
      (λ key body u metadata e. ground arith) refl run_ingest

-- Without the message 3 there is nothing new.
abbrev steady : Mirror ℕ
steady = record server { uid_search_all = λ n. (ok (1 ∷ []), suc n) }

below : leb_ℤ (pos 1) (last_uid (load_sync_state (pos 1) (some (pos 3)) before) selection) ≡ true
unfolding last_uid load_sync_state lookup eq lit
below = refl

there : is_there (pos 3) before ≡ true
unfolding with_id
there = refl

sync_mailbox_inner_succeeds_example :
    (next : Db × ℕ) × (sync_mailbox_inner sha256_hex steady 5
        (pos 1)
        (lit "INBOX")
        inbox
        (before, 0)
      ≡ (ok 0, next))
    × (is_there (pos 3) next.0 ≡ true)
sync_mailbox_inner_succeeds_example =
    sync_mailbox_inner_succeeds sha256_hex steady 5 (pos 1) (lit "INBOX") inbox selection (1 ∷ [])
      (λ uid. lit "\\Seen" ∷ []) (before, 0) refl there (λ u. refl) (λ u. refl) (λ uid u. refl)
      ((refl, below), tt)
