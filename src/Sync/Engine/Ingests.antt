-- ===== src/Sync/Engine/Ingests.antt =====
-- An ingestion keeps the messages of the server that are there, and sets its own.
use imapped_lightmode.Base.{ℕ, ◌≡◌, true, false, Option, none, some, List, ok, arith}
use imapped_lightmode.Base.Int.{ℤ, pos, eqb_ℤ}
use imapped_lightmode.Text.{Text}
use imapped_lightmode.Mime.{ParsedMessage}
use imapped_lightmode.Storage.{rfc822, content_addressed_key}
use imapped_lightmode.Db.{done}
use imapped_lightmode.Db.Messages.{is_in, is_at}
use imapped_lightmode.Db.Contents.{upsert_message, get_account_quota, adjust_account_quota_usage}
use imapped_lightmode.Db.Upsert.{upsert_mailbox_message}
use imapped_lightmode.Sync.Job.{Job, ◌>>◌, on_db, on_upstream, lift, pure}
use imapped_lightmode.Sync.Mirror.{Mirror}
use imapped_lightmode.Sync.Ingest.{
  IngestedMessage, estimate_message_bytes, check_quota, message_of, mailbox_row, clear_parts,
  store_parts, index, store_message, ingest_parsed_message, ingest_raw_message,
}
use imapped_lightmode.Sync.Engine.{is_from, fetch_message}
use imapped_lightmode.Sync.Engine.Holds.{fits}
use imapped_lightmode.Sync.Engine.Writes.{
  Holds, upsert_mailbox_message_keeps, upsert_mailbox_message-Settles,
}
use imapped_lightmode.Sync.Engine.Jobs.{
  Keeps, Sets, bind-Keeps, lift-Keeps, upstream-Keeps, db-Keeps, first-Sets, then-Sets, db-Sets,
  clear_parts-Keeps, store_parts-Keeps, index-Keeps,
}

-- The row of a message of the server fits its UID.
mailbox_row_fits :
    (mailbox_id message_id n id modseq : ℤ) (flags : List Text)
    → fits
        (record (mailbox_row mailbox_id message_id n (some n) flags) { modseq = some modseq })
        n
        (record (mailbox_row mailbox_id message_id n (some n) flags) {
          id = id;
          modseq = some modseq;
        })
      ≡ true
unfolding mailbox_row is_at is_in is_from
mailbox_row_fits mailbox_id message_id n id modseq flags = ground arith

module _ {U : Type 0} (sha256_hex : Text → Text) (mirror : Mirror U) (now : ℕ)
    (account_id mailbox_id : ℤ) (name : Text) (k : ℤ) (given : eqb_ℤ k (pos 0) ≡ false) where
  write-Keeps :
      (n message_id : ℤ) (flags : List Text)
      → Keeps {U = U}
          (Holds mailbox_id n)
          (on_db (upsert_mailbox_message (mailbox_row mailbox_id message_id k (some k) flags)))
  unfolding mailbox_row
  write-Keeps n message_id flags =
      db-Keeps (Holds mailbox_id n)
        (upsert_mailbox_message (mailbox_row mailbox_id message_id k (some k) flags))
        (upsert_mailbox_message_keeps (mailbox_row mailbox_id message_id k (some k) flags) given
          (λ id modseq. mailbox_row_fits mailbox_id message_id k id modseq flags) n)

  write-Sets :
      (message_id : ℤ) (flags : List Text)
      → Sets {U = U}
          (Holds mailbox_id k)
          (on_db (upsert_mailbox_message (mailbox_row mailbox_id message_id k (some k) flags)))
  unfolding mailbox_row
  write-Sets message_id flags =
      db-Sets (Holds mailbox_id k)
        (upsert_mailbox_message (mailbox_row mailbox_id message_id k (some k) flags))
        (upsert_mailbox_message-Settles (mailbox_row mailbox_id message_id k (some k) flags) given
          (λ id modseq. mailbox_row_fits mailbox_id message_id k id modseq flags))

  -- Behind the row.
  abbrev close_ingest : ParsedMessage → ℤ → ℕ → IngestedMessage → Job U IngestedMessage
  close_ingest parsed local_uid accounted ingested =
      index sha256_hex mirror name local_uid parsed
      >> on_db (λ db. (ok done, adjust_account_quota_usage account_id (pos accounted) db))
      >> pure ingested

  close_ingest-Keeps :
      (n : ℤ) (parsed : ParsedMessage) (local_uid : ℤ) (accounted : ℕ) (ingested : IngestedMessage)
      → Keeps (Holds mailbox_id n) (close_ingest parsed local_uid accounted ingested)
  unfolding adjust_account_quota_usage
  close_ingest-Keeps n parsed local_uid accounted ingested =
      let P = Holds mailbox_id n in
      bind-Keeps P
        (bind-Keeps P (index-Keeps P sha256_hex mirror name local_uid parsed) (λ indexed.
          db-Keeps P (λ db. (ok done, adjust_account_quota_usage account_id (pos accounted) db))
            (λ db p. p)))
        (λ adjusted. lift-Keeps P (ok ingested))

  store_message-Keeps :
      (n : ℤ) (date : Option ℕ) (raw : Text) (parsed : ParsedMessage) (flags : List Text)
      → Keeps (Holds mailbox_id n) (
          store_message sha256_hex mirror account_id mailbox_id name k
            (some k)
            date
            raw
            parsed
            flags)
  unfolding store_message upsert_message
  store_message-Keeps n date raw parsed flags =
      let P = Holds mailbox_id n in
      bind-Keeps P (upstream-Keeps P (mirror.put (content_addressed_key sha256_hex rfc822 raw) raw))
        (λ metadata.
          bind-Keeps P
            (db-Keeps P
              (λ db.
                let stored = upsert_message (message_of account_id metadata.key date parsed) db in
                (ok stored.0, stored.1))
              (λ db p. p))
            (λ message.
              bind-Keeps P
                (bind-Keeps P
                  (clear_parts-Keeps P (λ parts db p. p) sha256_hex mirror message.id
                    parsed.mime_parts)
                  (λ cleared.
                    store_parts-Keeps P (λ parts db p. p) sha256_hex mirror message.id
                      metadata.size_octets parsed.mime_parts))
                (λ accounted. bind-Keeps P (write-Keeps n message.id flags) (λ row.
                  close_ingest-Keeps n parsed k accounted (record {
                    message_id = message.id;
                    mailbox_message_id = row.id;
                    local_uid = row.local_uid;
                    blob_key = metadata.key;
                  })))))

  store_message-Sets :
      (date : Option ℕ) (raw : Text) (parsed : ParsedMessage) (flags : List Text)
      → Sets (Holds mailbox_id k) (
          store_message sha256_hex mirror account_id mailbox_id name k
            (some k)
            date
            raw
            parsed
            flags)
  unfolding store_message
  store_message-Sets date raw parsed flags =
      let P = Holds mailbox_id k in
      then-Sets P (on_upstream (mirror.put (content_addressed_key sha256_hex rfc822 raw) raw))
        (λ metadata.
          then-Sets P
            (on_db (λ db.
              let stored = upsert_message (message_of account_id metadata.key date parsed) db in
              (ok stored.0, stored.1)))
            (λ message.
              then-Sets P
                (clear_parts sha256_hex mirror message.id parsed.mime_parts
                  >> store_parts sha256_hex mirror message.id metadata.size_octets
                      parsed.mime_parts)
                (λ accounted. first-Sets P (write-Sets message.id flags) (λ row.
                  close_ingest-Keeps k parsed k accounted (record {
                    message_id = message.id;
                    mailbox_message_id = row.id;
                    local_uid = row.local_uid;
                    blob_key = metadata.key;
                  })))))

  pub fetch_message-Keeps :
      (n : ℤ) (uid : ℕ) (flags : List Text)
      → Keeps
          (Holds mailbox_id n)
          (fetch_message sha256_hex mirror now account_id mailbox_id name uid k flags)
  unfolding fetch_message ingest_raw_message ingest_parsed_message
  fetch_message-Keeps n uid flags =
      let P = Holds mailbox_id n in
      bind-Keeps P (upstream-Keeps P (mirror.uid_fetch_rfc822 uid)) (λ raw.
        bind-Keeps P
          (bind-Keeps P (lift-Keeps P (mirror.parse_message raw)) (λ parsed.
            bind-Keeps P (lift-Keeps P (estimate_message_bytes raw parsed)) (λ incoming.
              bind-Keeps P
                (db-Keeps P (λ db. (check_quota (get_account_quota account_id db) incoming, db))
                  (λ db p. p))
                (λ allowed. store_message-Keeps n none raw parsed flags))))
          (λ ingested. lift-Keeps P (ok done)))

  pub fetch_message-Sets :
      (uid : ℕ) (flags : List Text)
      → Sets
          (Holds mailbox_id k)
          (fetch_message sha256_hex mirror now account_id mailbox_id name uid k flags)
  unfolding fetch_message ingest_raw_message ingest_parsed_message
  fetch_message-Sets uid flags =
      let P = Holds mailbox_id k in
      then-Sets P (on_upstream (mirror.uid_fetch_rfc822 uid)) (λ raw.
        first-Sets P
          (then-Sets P (lift (mirror.parse_message raw)) (λ parsed.
            then-Sets P (lift (estimate_message_bytes raw parsed)) (λ incoming.
              then-Sets P
                (on_db (λ db. (check_quota (get_account_quota account_id db) incoming, db)))
                (λ allowed. store_message-Sets none raw parsed flags))))
          (λ ingested. lift-Keeps P (ok done)))
