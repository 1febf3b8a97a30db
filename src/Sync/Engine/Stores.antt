-- ===== src/Sync/Engine/Stores.antt =====
-- Behind the test of the quota: what is stored is what the account is charged for.
use imapped_lightmode.Base.{
  ℕ, ◌+◌, ◌≡◌, refl, sym, subst, ◌∙◌, Option, List, [], ◌∷◌, length, Result, ok, err, arith,
}
use imapped_lightmode.Base.Int.{ℤ, pos}
use imapped_lightmode.Text.{Text}
use imapped_lightmode.Domain.Records.{Quota}
use imapped_lightmode.Mime.{ParsedMessage, MimePartRecord}
use imapped_lightmode.Storage.{ObjectMetadata, rfc822, content_addressed_key}
use imapped_lightmode.Db.{Db, Done, done}
use imapped_lightmode.Db.Contents.{
  upsert_message, get_account_quota, adjust_account_quota_usage, insert_mime_part,
}
use imapped_lightmode.Db.Upsert.{upsert_mailbox_message}
use imapped_lightmode.Sync.Job.{Job, and_then, ◌>>=◌, ◌>>◌, on_db, on_upstream, pure}
use imapped_lightmode.Sync.Mirror.{Mirror}
use imapped_lightmode.Sync.Ingest.{
  IngestedMessage, message_of, part_of, mailbox_row, clear_parts, store_parts, index, store_message,
}
use imapped_lightmode.Sync.Engine.Jobs.{
  Tables, SettlesJob, Keeps, bind-Keeps, upstream-Keeps, db-Keeps, clear_parts-Keeps,
  store_parts-Keeps, index-Keeps,
}
use imapped_lightmode.Sync.Engine.Quotas.{upsert_mailbox_message_quotas}
use imapped_lightmode.Sync.Engine.Charges.{part_bytes, charge, ReportsSizes, first-charged}

-- A job that makes the one of the other, where it succeeds.
pub record Takes {U A : Type 0} (P Q : Tables) (job : Job U A) : Type 0 where
  pub taken : (s : Db × U) → P s.0 → SettlesJob Q (job s)

module _ {U : Type 0} (P Q : Tables) where
  next_settles :
      {A B : Type 0} (r : Result A × (Db × U)) (f : A → Job U B) (V : A → Type 0)
      → P r.1.0
      → ((a : A) → r.0 ≡ ok a → V a)
      → ((a : A) → V a → Takes P Q (f a))
      → SettlesJob Q (and_then r.0 f r.1)
  next_settles (err e, s) f V p v k = tt
  next_settles (ok a, s) f V p v k = (k a (v a refl)).taken s p

  -- The first job keeps the one, and its value is known.
  value-Takes :
      {A B : Type 0} {m : Job U A} {f : A → Job U B} (V : A → Type 0)
      → Keeps P m
      → ((s : Db × U) (a : A) → (m s).0 ≡ ok a → V a)
      → ((a : A) → V a → Takes P Q (f a))
      → Takes P Q (m >>= f)
  value-Takes {m = m} {f = f} V keeps v k = record {
    taken = λ s p. next_settles (m s) f V (keeps.kept s p) (v s) k;
  }

  then-Takes :
      {A B : Type 0} {m : Job U A} {f : A → Job U B}
      → Keeps P m
      → ((a : A) → Takes P Q (f a))
      → Takes P Q (m >>= f)
  then-Takes keeps k = value-Takes (λ a. Unit) keeps (λ s a e. tt) (λ a v. k a)

  closed_settles :
      {A B : Type 0} (r : Result A × (Db × U)) (b : B)
      → SettlesJob Q r
      → SettlesJob Q (and_then r.0 (λ a. pure b) r.1)
  closed_settles (err e, s) b h = tt
  closed_settles (ok a, s) b h = h

  close-Takes : {A B : Type 0} {m : Job U A} (b : B) → Takes P Q m → Takes P Q (m >> pure b)
  close-Takes {m = m} b h = record { taken = λ s p. closed_settles (m s) b (h.taken s p) }

module _ {U : Type 0} (sha256_hex : Text → Text) (mirror : Mirror U) (sizes : ReportsSizes mirror)
    (quotas : List Quota) where
  abbrev pub Unchanged : Tables
  Unchanged db = db.quotas ≡ quotas

  next_total :
      (r : Result ObjectMetadata × (Db × U)) (f : ObjectMetadata → Job U ℕ) (bytes rest total : ℕ)
      → ((metadata : ObjectMetadata) → r.0 ≡ ok metadata → metadata.size_octets ≡ bytes)
      → ((metadata : ObjectMetadata) (s : Db × U)
          → (f metadata s).0 ≡ ok total
          → total ≡ metadata.size_octets + rest)
      → (and_then r.0 f r.1).0 ≡ ok total
      → total ≡ bytes + rest
  next_total (err e, s) f bytes rest total size k h = absurd cc
  next_total (ok metadata, s) f bytes rest total size k h =
      ground (arith, size metadata refl, k metadata s h)

  store_parts_total :
      (message_id : ℤ) (parts : List MimePartRecord) (accounted total : ℕ) (s : Db × U)
      → (store_parts sha256_hex mirror message_id accounted parts s).0 ≡ ok total
      → total ≡ accounted + part_bytes parts
  unfolding store_parts
  store_parts_total message_id [] accounted total s h = ground (arith, h)
  store_parts_total message_id (part ∷ parts) accounted total s h = ground (
    arith,
    next_total (on_upstream (mirror.put part.blob_key part.raw_bytes) s)
        (λ metadata.
          on_db (λ db. (ok done, insert_mime_part (part_of message_id part metadata) db))
          >> store_parts sha256_hex mirror message_id (accounted + metadata.size_octets) parts)
        (length part.raw_bytes) (accounted + part_bytes parts) total
        (λ metadata e. sizes part.blob_key part.raw_bytes s.1 metadata e)
        (λ metadata next run. ground (
          arith,
          store_parts_total message_id parts (accounted + metadata.size_octets) total
              (insert_mime_part (part_of message_id part metadata) next.0, next.1) run,
        ))
        h,
  )

  cleared_total :
      (r : Result Done × (Db × U)) (message_id : ℤ) (parts : List MimePartRecord)
      (accounted total : ℕ)
      → (and_then r.0 (λ x. store_parts sha256_hex mirror message_id accounted parts) r.1).0
        ≡ ok total
      → total ≡ accounted + part_bytes parts
  cleared_total (err e, s) message_id parts accounted total h = absurd cc
  cleared_total (ok x, s) message_id parts accounted total h =
      store_parts_total message_id parts accounted total s h

  -- The account is charged for so many bytes.
  abbrev pub Charged : ℤ → ℕ → Tables
  Charged account_id bytes db =
      get_account_quota account_id db
      ≡ charge bytes (get_account_quota account_id (record db { quotas = quotas }))

  adjust-Takes :
      (account_id : ℤ) (bytes : ℕ)
      → Takes {U = U} Unchanged
          (Charged account_id bytes)
          (on_db (λ db. (ok done, adjust_account_quota_usage account_id (pos bytes) db)))
  unfolding adjust_account_quota_usage get_account_quota
  adjust-Takes account_id bytes = record {
    taken = λ s same.
        subst
          (λ before.
            get_account_quota account_id
              (adjust_account_quota_usage account_id (pos bytes) (record s.0 { quotas = before }))
            ≡ charge bytes (get_account_quota account_id (record s.0 { quotas = quotas })))
          (sym same) (first-charged account_id bytes quotas);
  }

  module _ (account_id mailbox_id : ℤ) (name : Text) (local_uid : ℤ) (upstream_uid : Option ℤ)
      (parsed : ParsedMessage) (flags : List Text) where
    -- Behind the row of the mailbox, and behind the parts.
    abbrev charge_and_close : ℕ → IngestedMessage → Job U IngestedMessage
    charge_and_close total ingested =
        index sha256_hex mirror name local_uid parsed
        >> on_db (λ db. (ok done, adjust_account_quota_usage account_id (pos total) db))
        >> pure ingested

    abbrev write_and_close : ℤ → Text → ℕ → Job U IngestedMessage
    write_and_close message_id blob_key total =
        on_db
          (upsert_mailbox_message (mailbox_row mailbox_id message_id local_uid upstream_uid flags))
        >>= λ row. charge_and_close total (record {
          message_id = message_id;
          mailbox_message_id = row.id;
          local_uid = row.local_uid;
          blob_key = blob_key;
        })

    charge_and_close-Takes :
        (total : ℕ) (ingested : IngestedMessage)
        → Takes Unchanged (Charged account_id total) (charge_and_close total ingested)
    charge_and_close-Takes total ingested =
        close-Takes Unchanged (Charged account_id total)
          {m = index sha256_hex mirror name local_uid parsed
            >> on_db (λ db. (ok done, adjust_account_quota_usage account_id (pos total) db))}
          ingested
          (then-Takes Unchanged (Charged account_id total)
            {f = λ indexed.
              on_db (λ db. (ok done, adjust_account_quota_usage account_id (pos total) db))}
            (index-Keeps Unchanged sha256_hex mirror name local_uid parsed)
            (λ indexed. adjust-Takes account_id total))

    write_and_close-Takes :
        (message_id : ℤ) (blob_key : Text) (total : ℕ)
        → Takes Unchanged (Charged account_id total) (write_and_close message_id blob_key total)
    write_and_close-Takes message_id blob_key total =
        let row = mailbox_row mailbox_id message_id local_uid upstream_uid flags in
        then-Takes Unchanged (Charged account_id total)
          {f = λ row. charge_and_close total (record {
            message_id = message_id;
            mailbox_message_id = row.id;
            local_uid = row.local_uid;
            blob_key = blob_key;
          })}
          (db-Keeps Unchanged (upsert_mailbox_message row)
            (λ db p. upsert_mailbox_message_quotas row db ∙ p))
          (λ written. charge_and_close-Takes total (record {
            message_id = message_id;
            mailbox_message_id = written.id;
            local_uid = written.local_uid;
            blob_key = blob_key;
          }))

    pub store_message-Takes :
        (date : Option ℕ) (raw : Text)
        → Takes Unchanged (Charged account_id (length raw + part_bytes parsed.mime_parts)) (
            store_message sha256_hex mirror account_id mailbox_id name local_uid upstream_uid date
              raw parsed flags)
    unfolding store_message upsert_message
    store_message-Takes date raw =
        let P = Unchanged in
        let bytes = length raw + part_bytes parsed.mime_parts in
        let Q = Charged account_id bytes in
        value-Takes P Q (λ metadata. metadata.size_octets ≡ length raw)
          (upstream-Keeps P (mirror.put (content_addressed_key sha256_hex rfc822 raw) raw))
          (λ s metadata e. sizes (content_addressed_key sha256_hex rfc822 raw) raw s.1 metadata e)
          (λ metadata size.
            then-Takes P Q
              (db-Keeps P
                (λ db.
                  let stored = upsert_message (message_of account_id metadata.key date parsed) db in
                  (ok stored.0, stored.1))
                (λ db p. p))
              (λ message.
                value-Takes P Q {f = write_and_close message.id metadata.key}
                  (λ total. total ≡ bytes)
                  (bind-Keeps P
                    (clear_parts-Keeps P (λ parts db p. p) sha256_hex mirror message.id
                      parsed.mime_parts)
                    (λ cleared.
                      store_parts-Keeps P (λ parts db p. p) sha256_hex mirror message.id
                        metadata.size_octets parsed.mime_parts))
                  (λ s total run. ground (
                    arith,
                    size,
                    cleared_total (clear_parts sha256_hex mirror message.id parsed.mime_parts s)
                        message.id parsed.mime_parts metadata.size_octets total run,
                  ))
                  (λ total same.
                    subst
                      (λ n.
                        Takes P (Charged account_id n)
                          (write_and_close message.id metadata.key total))
                      same (write_and_close-Takes message.id metadata.key total))))
