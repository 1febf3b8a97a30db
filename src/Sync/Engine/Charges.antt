-- ===== src/Sync/Engine/Charges.antt =====
-- An ingestion charges the account for what it stores, and keeps it within its quota.
use imapped_lightmode.Base.{
  ℕ, ◌+◌, ◌≡◌, refl, ap, sym, subst, ◌∙◌, Bool, true, false, not, ◌&&◌, Option, none, some, List,
  [], ◌∷◌, ◌++◌, leb, length, map, retain, if◌then◌else◌, Bool-cases, inl, inr, Result, ok, err,
  arith,
}
use imapped_lightmode.Base as B
use imapped_lightmode.Base.Int.{ℤ, pos, leb_ℤ, ◌+ℤ◌}
use imapped_lightmode.Text.{Text, lit}
use imapped_lightmode.Domain.Records.{Quota}
use imapped_lightmode.Mime.{ParsedMessage, MimePartRecord}
use imapped_lightmode.Storage.{ObjectMetadata}
use imapped_lightmode.Db.{done}
use imapped_lightmode.Db.Contents.{is_quota_of, first_quota}
use imapped_lightmode.Sync.Mirror.{Mirror}
use imapped_lightmode.Sync.Ingest.{size_within, add_parts, estimate_message_bytes, check_quota}

-- The bytes of the parts of a message.
abbrev pub part_bytes : List MimePartRecord → ℕ
part_bytes [] = 0
part_bytes (part ∷ parts) = length part.raw_bytes + part_bytes parts

-- A quota with more bytes in use.
abbrev pub charge : ℕ → Option Quota → Option Quota
charge bytes none = none
charge bytes (some quota) = some (record quota { used_bytes = quota.used_bytes +ℤ pos bytes })

abbrev pub is_within : Option Quota → Bool
is_within none = true
is_within (some quota) = leb_ℤ quota.used_bytes quota.max_bytes

-- An object store that reports the size of what it is given.
abbrev pub ReportsSizes : {U : Type 0} → Mirror U → Type 0
ReportsSizes {U = U} mirror =
    (key body : Text) (u : U) (metadata : ObjectMetadata)
    → (mirror.put key body u).0 ≡ ok metadata
    → metadata.size_octets ≡ length body

pub first-charged :
    (account_id : ℤ) (bytes : ℕ) (quotas : List Quota)
    → first_quota (
        retain (is_quota_of account_id) (
          map
            (λ quota.
              if is_quota_of account_id quota
              then record quota { used_bytes = quota.used_bytes +ℤ pos bytes }
              else quota)
            quotas))
      ≡ charge bytes (first_quota (retain (is_quota_of account_id) quotas))
unfolding first_quota is_quota_of
first-charged account_id bytes [] = refl
first-charged account_id bytes (quota ∷ quotas) =
    ground (arith, first-charged account_id bytes quotas)

pub charge-is_within :
    (quota : Option Quota) (bytes : ℕ)
    → check_quota quota bytes ≡ ok done
    → is_within (charge bytes quota) ≡ true
unfolding check_quota
charge-is_within none bytes h = refl
charge-is_within (some quota) bytes h = ground (arith, h)

within : (problem : Text) (n m : ℕ) → size_within problem n ≡ ok m → m ≡ n
unfolding size_within
within problem n m h = ground (arith, h)

bind_ok :
    {A C : Type 0} (r : Result A) (f : A → Result C) (c : C)
    → B.◌>>=◌ r f ≡ ok c
    → (a : A) × (r ≡ ok a) × (f a ≡ ok c)
bind_ok (err e) f c h = absurd cc
bind_ok (ok a) f c h = (a, refl, h)

add_parts_bytes :
    (parts : List MimePartRecord) (total bytes : ℕ)
    → add_parts total parts ≡ ok bytes
    → bytes ≡ total + part_bytes parts
unfolding add_parts
add_parts_bytes [] total bytes h = ground (arith, h)
add_parts_bytes (part ∷ parts) total bytes h =
    let (size, e, rest) =
      bind_ok (size_within (lit "mime part size does not fit in i64") (length part.raw_bytes))
        (λ size.
          B.◌>>=◌ (size_within (lit "message size calculation overflowed") (total + size))
            λ sum. add_parts sum parts)
        bytes h in
    let (sum, e', last) =
      bind_ok (size_within (lit "message size calculation overflowed") (total + size))
        (λ sum. add_parts sum parts) bytes rest in
    ground (
      arith,
      within (lit "mime part size does not fit in i64") (length part.raw_bytes) size e,
      within (lit "message size calculation overflowed") (total + size) sum e',
      add_parts_bytes parts sum bytes last,
    )

pub estimated :
    (raw : Text) (parsed : ParsedMessage) (bytes : ℕ)
    → estimate_message_bytes raw parsed ≡ ok bytes
    → bytes ≡ length raw + part_bytes parsed.mime_parts
unfolding estimate_message_bytes
estimated raw parsed bytes h =
    let (size, e, rest) =
      bind_ok (size_within (lit "message size does not fit in i64") (length raw))
        (λ size. add_parts size parsed.mime_parts) bytes h in
    ground (
      arith,
      within (lit "message size does not fit in i64") (length raw) size e,
      add_parts_bytes parsed.mime_parts size bytes rest,
    )
