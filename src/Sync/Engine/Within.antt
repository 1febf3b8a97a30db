-- ===== src/Sync/Engine/Within.antt =====
-- An ingestion that succeeds keeps the account within its quota.
use imapped_lightmode.Base.{
  ℕ, ◌+◌, ◌≡◌, refl, ap, sym, subst, ◌∙◌, true, Option, List, length, Result, ok, err,
}
use imapped_lightmode.Base.Int.{ℤ}
use imapped_lightmode.Text.{Text}
use imapped_lightmode.Mime.{ParsedMessage}
use imapped_lightmode.Db.{Db, Done, done}
use imapped_lightmode.Db.Contents.{get_account_quota}
use imapped_lightmode.Sync.Job.{Job, and_then, ◌>>◌, on_db}
use imapped_lightmode.Sync.Mirror.{Mirror}
use imapped_lightmode.Sync.Ingest.{
  IngestedMessage, estimate_message_bytes, check_quota, store_message, ingest_parsed_message,
  ingest_raw_message,
}
use imapped_lightmode.Sync.Engine.Jobs.{SettlesJob}
use imapped_lightmode.Sync.Engine.Charges.{
  part_bytes, charge, is_within, ReportsSizes, charge-is_within, estimated,
}
use imapped_lightmode.Sync.Engine.Stores.{Charged, store_message-Takes}

-- The value that the first job gives, where the whole succeeds.
first_ok :
    {U A B : Type 0} (r : Result A × (Db × U)) (f : A → Job U B) (b : B) (next : Db × U)
    → and_then r.0 f r.1 ≡ (ok b, next)
    → (a : A) × (r.0 ≡ ok a) × (f a r.1 ≡ (ok b, next))
first_ok (err e, s) f b next h = absurd cc
first_ok (ok a, s) f b next h = (a, refl, h)

same_ok : {A : Type 0} (a b : A) → ok a ≡ ok b → a ≡ b
same_ok a b h = cc

check_done : (r : Result Done) (d : Done) → r ≡ ok d → r ≡ ok done
check_done r done h = h

module _ {U : Type 0} (sha256_hex : Text → Text) (mirror : Mirror U) (sizes : ReportsSizes mirror)
    (account_id mailbox_id : ℤ) (name : Text) (local_uid : ℤ) (upstream_uid : Option ℤ)
    (date : Option ℕ) (raw : Text) (flags : List Text) (next : Db × U)
    (ingested : IngestedMessage) where
  stored_charge :
      (parsed : ParsedMessage) (s : Db × U)
      → store_message sha256_hex mirror account_id mailbox_id name local_uid upstream_uid date raw
          parsed flags s
        ≡ (ok ingested, next)
      → get_account_quota account_id next.0
        ≡ charge (length raw + part_bytes parsed.mime_parts) (get_account_quota account_id s.0)
  unfolding get_account_quota
  stored_charge parsed s run =
      subst
        (SettlesJob (
          Charged sha256_hex mirror sizes s.0.quotas account_id
            (length raw + part_bytes parsed.mime_parts)))
        run
        ((store_message-Takes sha256_hex mirror sizes s.0.quotas account_id mailbox_id name
            local_uid upstream_uid parsed flags date raw).taken
          s refl)

  parsed_charge :
      (parsed : ParsedMessage) (s : Db × U)
      → ingest_parsed_message sha256_hex mirror account_id mailbox_id name local_uid upstream_uid
          date raw parsed flags s
        ≡ (ok ingested, next)
      → (is_within (get_account_quota account_id next.0) ≡ true)
        × (get_account_quota account_id next.0
            ≡ charge (length raw + part_bytes parsed.mime_parts) (get_account_quota account_id s.0))
  unfolding ingest_parsed_message
  parsed_charge parsed s run =
      let store =
        store_message sha256_hex mirror account_id mailbox_id name local_uid upstream_uid date raw
          parsed flags in
      let (incoming, estimate, run1) =
        first_ok (estimate_message_bytes raw parsed, s)
          (λ incoming.
            on_db (λ db. (check_quota (get_account_quota account_id db) incoming, db)) >> store)
          ingested next run in
      let (checked, passes, run2) =
        first_ok (check_quota (get_account_quota account_id s.0) incoming, s) (λ checked. store)
          ingested next run1 in
      let charged = stored_charge parsed s run2 in
      (
        ap is_within charged
            ∙ (ap (λ n. is_within (charge n (get_account_quota account_id s.0)))
                  (sym (estimated raw parsed incoming estimate))
                ∙ charge-is_within (get_account_quota account_id s.0) incoming (
                    check_done (check_quota (get_account_quota account_id s.0) incoming) checked
                      passes)),
        charged,
      )

-- An ingestion that succeeds, of a message that parses to `parsed`, leaves the account within its quota, if it
-- has one, and charges it for the bytes of the message and of its parts. The object store is taken to report
-- the size of what it is given.
pub ingest_raw_message-charge :
    {U : Type 0} (sha256_hex : Text → Text) (mirror : Mirror U) (account_id mailbox_id : ℤ)
    (name : Text) (local_uid : ℤ) (upstream_uid : Option ℤ) (date : Option ℕ) (raw : Text)
    (parsed : ParsedMessage) (flags : List Text) (s next : Db × U) (ingested : IngestedMessage)
    → ReportsSizes mirror
    → mirror.parse_message raw ≡ ok parsed
    → ingest_raw_message sha256_hex mirror account_id mailbox_id name local_uid upstream_uid date
        raw flags s
      ≡ (ok ingested, next)
    → (is_within (get_account_quota account_id next.0) ≡ true)
      × (get_account_quota account_id next.0
          ≡ charge (length raw + part_bytes parsed.mime_parts) (get_account_quota account_id s.0))
unfolding ingest_raw_message
ingest_raw_message-charge sha256_hex mirror account_id mailbox_id name local_uid upstream_uid date
      raw parsed flags s next ingested sizes parses run =
    let (found, e1, run1) =
      first_ok (mirror.parse_message raw, s)
        (λ parsed.
          ingest_parsed_message sha256_hex mirror account_id mailbox_id name local_uid upstream_uid
            date raw parsed flags)
        ingested next run in
    subst
      (λ parsed.
        (is_within (get_account_quota account_id next.0) ≡ true)
        × (get_account_quota account_id next.0
            ≡ charge (length raw + part_bytes parsed.mime_parts)
                (get_account_quota account_id s.0)))
      (same_ok found parsed (sym e1 ∙ parses))
      (parsed_charge sha256_hex mirror sizes account_id mailbox_id name local_uid upstream_uid date
        raw flags next ingested found s run1)
