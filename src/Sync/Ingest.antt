-- ===== src/Sync/Ingest.antt =====
-- crates/sync/src/lib.rs: `MessageIngestor`, which stores a message that was fetched. The cached objects,
-- which only a clean-up reads, and the metrics are left out.
use imapped_lightmode.Base.{
  ℕ, ◌+◌, ◌-◌, ◌^◌, Option, none, some, List, [], ◌∷◌, ◌++◌, leb, length, false, if◌then◌else◌,
  Result, ok, err, Error, storage,
}
use imapped_lightmode.Base as B
use imapped_lightmode.Base.Int.{ℤ, pos, leb_ℤ, ◌+ℤ◌}
use imapped_lightmode.Text.{Text, lit}
use imapped_lightmode.Protocol.Status.{show_ℤ}
use imapped_lightmode.Domain.Records.{Message, MimePart, Quota, MailboxMessage}
use imapped_lightmode.Mime.{ParsedMessage, MimePartRecord}
use imapped_lightmode.Storage.{ObjectMetadata, rfc822, content_addressed_key}
use imapped_lightmode.Db.{Done, done}
use imapped_lightmode.Db.Contents.{
  upsert_message, insert_mime_part, delete_mime_parts_for_message, get_account_quota,
  adjust_account_quota_usage,
}
use imapped_lightmode.Db.Upsert.{upsert_mailbox_message}
use imapped_lightmode.Sync.Job.{Job, pure, lift, on_db, on_upstream, ◌>>=◌, ◌>>◌}
use imapped_lightmode.Sync.Mirror.{Mirror}

pub record IngestedMessage : Type 0 where
  pub message_id : ℤ
  pub mailbox_message_id : ℤ
  pub local_uid : ℤ
  pub blob_key : Text

abbrev pub i64_max : ℕ
i64_max = 2 ^ 63 - 1

-- `i64::try_from` of a size, and `checked_add` of two sizes.
unfoldable pub size_within : Text → ℕ → Result ℕ
size_within problem n = if leb n i64_max then ok n else err (storage problem)

unfoldable pub add_parts : ℕ → List MimePartRecord → Result ℕ
unfolding size_within
add_parts total [] = ok total
add_parts total (part ∷ parts) =
    B.◌>>=◌ (size_within (lit "mime part size does not fit in i64") (length part.raw_bytes)) λ size.
      B.◌>>=◌ (size_within (lit "message size calculation overflowed") (total + size))
        λ sum. add_parts sum parts

unfoldable pub estimate_message_bytes : Text → ParsedMessage → Result ℕ
unfolding add_parts size_within
estimate_message_bytes raw parsed =
    B.◌>>=◌ (size_within (lit "message size does not fit in i64") (length raw))
      λ size. add_parts size parsed.mime_parts

unfoldable pub quota_exceeded : Quota → ℕ → Error
quota_exceeded quota incoming = storage (
    lit "account quota exceeded: used="
    ++ (show_ℤ quota.used_bytes
        ++ (lit " incoming="
            ++ (show_ℤ (pos incoming) ++ (lit " limit=" ++ show_ℤ quota.max_bytes)))))

-- Whether the bytes fit the quota, if the account has one.
unfoldable pub check_quota : Option Quota → ℕ → Result Done
unfolding quota_exceeded
check_quota none incoming = ok done
check_quota (some quota) incoming =
    let projected = quota.used_bytes +ℤ pos incoming in
    if leb_ℤ projected (pos i64_max)
    then if leb_ℤ projected quota.max_bytes then ok done else err (quota_exceeded quota incoming)
    else err (storage (lit "account quota calculation overflowed"))

unfoldable pub message_of : ℤ → Text → Option ℕ → ParsedMessage → Message
message_of account_id blob_key internal_date parsed = record {
  id = pos 0;
  account_id = account_id;
  rfc822_blob_key = blob_key;
  rfc822_sha256 = parsed.raw_sha256;
  message_id_header = parsed.message_id_header;
  subject = parsed.subject;
  from_json = parsed.from_json;
  to_json = parsed.to_json;
  cc_json = parsed.cc_json;
  bcc_json = parsed.bcc_json;
  reply_to_json = parsed.reply_to_json;
  envelope_json = parsed.envelope_json;
  bodystructure_json = parsed.bodystructure_json;
  internal_date = internal_date;
  sent_date = none;
  size_octets = pos parsed.size_octets;
  text_preview = parsed.text_preview;
}

unfoldable pub part_of : ℤ → MimePartRecord → ObjectMetadata → MimePart
part_of message_id part metadata = record {
  message_id = message_id;
  part_path = part.part_path;
  content_type = part.content_type;
  charset = part.charset;
  disposition = part.disposition;
  filename = part.filename;
  content_id = part.content_id;
  size_octets = pos part.size_octets;
  blob_key = metadata.key;
  sha256 = metadata.sha256;
  transfer_encoding = part.transfer_encoding;
  metadata_json = part.metadata_json;
}

unfoldable pub mailbox_row : ℤ → ℤ → ℤ → Option ℤ → List Text → MailboxMessage
mailbox_row mailbox_id message_id local_uid upstream_uid flags = record {
  id = pos 0;
  mailbox_id = mailbox_id;
  message_id = message_id;
  local_uid = local_uid;
  upstream_uid = upstream_uid;
  modseq = none;
  flags = flags;
  keywords = [];
  is_expunged = false;
}

module _ {U : Type 0} (sha256_hex : Text → Text) (mirror : Mirror U) where
  -- What the parts of an earlier content of that id were goes, if there are parts.
  unfoldable pub clear_parts : ℤ → List MimePartRecord → Job U Done
  unfolding delete_mime_parts_for_message
  clear_parts message_id [] = pure done
  clear_parts message_id (part ∷ parts) =
      on_db (λ db. (ok done, delete_mime_parts_for_message message_id db))

  -- The loop over the parts, with the bytes that are accounted for.
  unfoldable pub store_parts : ℤ → ℕ → List MimePartRecord → Job U ℕ
  unfolding part_of insert_mime_part
  store_parts message_id accounted [] = pure accounted
  store_parts message_id accounted (part ∷ parts) =
      on_upstream (mirror.put part.blob_key part.raw_bytes) >>= λ metadata.
      on_db (λ db. (ok done, insert_mime_part (part_of message_id part metadata) db))
      >> store_parts message_id (accounted + metadata.size_octets) parts

  unfoldable pub index : Text → ℤ → ParsedMessage → Job U Done
  index mailbox_name local_uid parsed = elim mirror.index_message [
    | none ↦ pure done
    | some index_message ↦
        on_upstream (index_message mailbox_name local_uid (record parsed { mime_parts = [] }))
  ]

  -- Behind the test of the quota.
  unfoldable pub store_message :
      ℤ
      → ℤ
      → Text
      → ℤ
      → Option ℤ
      → Option ℕ
      → Text
      → ParsedMessage
      → List Text
      → Job U IngestedMessage
  unfolding content_addressed_key message_of upsert_message clear_parts store_parts mailbox_row
      upsert_mailbox_message index adjust_account_quota_usage
  store_message account_id mailbox_id mailbox_name local_uid upstream_uid internal_date raw parsed
        flags =
      on_upstream (mirror.put (content_addressed_key sha256_hex rfc822 raw) raw) >>= λ metadata.
      on_db (λ db.
        let stored = upsert_message (message_of account_id metadata.key internal_date parsed) db in
        (ok stored.0, stored.1))
      >>= λ message.
          clear_parts message.id parsed.mime_parts
          >> store_parts message.id metadata.size_octets parsed.mime_parts
          >>= λ accounted.
              on_db (
                upsert_mailbox_message
                  (mailbox_row mailbox_id message.id local_uid upstream_uid flags))
              >>= λ row.
                  index mailbox_name local_uid parsed
                  >> on_db
                      (λ db. (ok done, adjust_account_quota_usage account_id (pos accounted) db))
                  >> pure (record {
                    message_id = message.id;
                    mailbox_message_id = row.id;
                    local_uid = row.local_uid;
                    blob_key = metadata.key;
                  })

  unfoldable pub ingest_parsed_message :
      ℤ
      → ℤ
      → Text
      → ℤ
      → Option ℤ
      → Option ℕ
      → Text
      → ParsedMessage
      → List Text
      → Job U IngestedMessage
  unfolding estimate_message_bytes check_quota get_account_quota store_message
  ingest_parsed_message account_id mailbox_id mailbox_name local_uid upstream_uid internal_date raw
        parsed flags =
      lift (estimate_message_bytes raw parsed) >>= λ incoming.
      on_db (λ db. (check_quota (get_account_quota account_id db) incoming, db))
      >> store_message account_id mailbox_id mailbox_name local_uid upstream_uid internal_date raw
          parsed flags

  unfoldable pub ingest_raw_message :
      ℤ → ℤ → Text → ℤ → Option ℤ → Option ℕ → Text → List Text → Job U IngestedMessage
  unfolding ingest_parsed_message
  ingest_raw_message account_id mailbox_id mailbox_name local_uid upstream_uid internal_date raw
        flags =
      lift (mirror.parse_message raw) >>= λ parsed.
      ingest_parsed_message account_id mailbox_id mailbox_name local_uid upstream_uid internal_date
        raw parsed flags
