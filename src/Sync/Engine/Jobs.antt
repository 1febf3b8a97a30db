-- ===== src/Sync/Engine/Jobs.antt =====
-- What a job makes of the database: what it keeps, whether it fails or not, and what it
-- settles, where it succeeds.
use imapped_lightmode.Base.{
  not, retain, ◌++◌, ℕ, ◌+◌, Option, none, some, List, [], ◌∷◌, Result, ok, err,
}
use imapped_lightmode.Base.Int.{ℤ, eqb_ℤ}
use imapped_lightmode.Text.{Text}
use imapped_lightmode.Domain.Records.{MimePart}
use imapped_lightmode.Mime.{ParsedMessage, MimePartRecord}
use imapped_lightmode.Db.{Db, Done, done}
use imapped_lightmode.Db.Contents.{insert_mime_part, delete_mime_parts_for_message}
use imapped_lightmode.Sync.Job.{Job, and_then, ◌>>=◌, on_db, on_upstream, lift, pure}
use imapped_lightmode.Sync.Mirror.{Mirror}
use imapped_lightmode.Sync.Ingest.{part_of, clear_parts, store_parts, index}
use imapped_lightmode.Sync.Engine.Writes.{Settles}

abbrev pub Tables : Type 1
Tables = Db → Type 0

abbrev pub SettlesJob : {U A : Type 0} → Tables → Result A × (Db × U) → Type 0
SettlesJob P (err e, s) = Unit
SettlesJob P (ok a, s) = P s.0

module _ {U : Type 0} (P : Tables) where
  pub record Keeps {A : Type 0} (job : Job U A) : Type 0 where
    pub kept : (s : Db × U) → P s.0 → P (job s).1.0

  pub record Sets {A : Type 0} (job : Job U A) : Type 0 where
    pub settled : (s : Db × U) → SettlesJob P (job s)

  and_then_keeps :
      {A B : Type 0} (r : Result A) (f : A → Job U B) (s : Db × U)
      → ((a : A) → Keeps (f a))
      → P s.0
      → P (and_then r f s).1.0
  and_then_keeps (err e) f s k h = h
  and_then_keeps (ok a) f s k h = (k a).kept s h

  pub bind-Keeps :
      {A B : Type 0} {m : Job U A} {f : A → Job U B}
      → Keeps m
      → ((a : A) → Keeps (f a))
      → Keeps (m >>= f)
  bind-Keeps {m = m} {f = f} h k = record {
    kept = λ s p. and_then_keeps (m s).0 f (m s).1 k (h.kept s p);
  }

  pub lift-Keeps : {A : Type 0} (r : Result A) → Keeps {A = A} (lift r)
  lift-Keeps r = record { kept = λ s p. p }

  pub upstream-Keeps : {A : Type 0} (g : U → Result A × U) → Keeps {A = A} (on_upstream g)
  upstream-Keeps g = record { kept = λ s p. p }

  pub db-Keeps :
      {A : Type 0} (f : Db → Result A × Db)
      → ((db : Db) → P db → P (f db).1)
      → Keeps {A = A} (on_db f)
  db-Keeps f h = record { kept = λ s p. h s.0 p }

  keeps_settles : {A : Type 0} (r : Result A × (Db × U)) → P r.1.0 → SettlesJob P r
  keeps_settles (err e, s) h = tt
  keeps_settles (ok a, s) h = h

  first_settles :
      {A B : Type 0} (r : Result A × (Db × U)) (f : A → Job U B)
      → SettlesJob P r
      → ((a : A) → Keeps (f a))
      → SettlesJob P (and_then r.0 f r.1)
  first_settles (err e, s) f h k = tt
  first_settles (ok a, s) f h k = keeps_settles (f a s) ((k a).kept s h)

  pub first-Sets :
      {A B : Type 0} {m : Job U A} {f : A → Job U B}
      → Sets m
      → ((a : A) → Keeps (f a))
      → Sets (m >>= f)
  first-Sets {m = m} {f = f} h k = record { settled = λ s. first_settles (m s) f (h.settled s) k }

  then_settles :
      {A B : Type 0} (r : Result A × (Db × U)) (f : A → Job U B)
      → ((a : A) → Sets (f a))
      → SettlesJob P (and_then r.0 f r.1)
  then_settles (err e, s) f k = tt
  then_settles (ok a, s) f k = (k a).settled s

  pub then-Sets :
      {A B : Type 0} (m : Job U A) {f : A → Job U B} → ((a : A) → Sets (f a)) → Sets (m >>= f)
  then-Sets m {f = f} k = record { settled = λ s. then_settles (m s) f k }

  db-Settles : {A : Type 0} (r : Result A × Db) (u : U) → Settles P r → SettlesJob P (r.0, (r.1, u))
  db-Settles (err e, db) u h = tt
  db-Settles (ok a, db) u h = h

  pub db-Sets :
      {A : Type 0} (f : Db → Result A × Db)
      → ((db : Db) → Settles P (f db))
      → Sets {A = A} (on_db f)
  db-Sets f h = record { settled = λ s. db-Settles (f s.0) s.1 (h s.0) }

-- The parts of an ingestion that write no row of a mailbox.
module _ {U : Type 0} (P : Tables)
    (apart : (parts : List MimePart) (db : Db) → P db → P (record db { mime_parts = parts }))
    (sha256_hex : Text → Text) (mirror : Mirror U) where
  pub clear_parts-Keeps :
      (message_id : ℤ) (parts : List MimePartRecord)
      → Keeps P (clear_parts sha256_hex mirror message_id parts)
  unfolding clear_parts delete_mime_parts_for_message
  clear_parts-Keeps message_id [] = lift-Keeps P (ok done)
  clear_parts-Keeps message_id (part ∷ parts) =
      db-Keeps P (λ db. (ok done, delete_mime_parts_for_message message_id db))
        (λ db. apart (retain (λ part. not (eqb_ℤ part.message_id message_id)) db.mime_parts) db)

  pub store_parts-Keeps :
      (message_id : ℤ) (accounted : ℕ) (parts : List MimePartRecord)
      → Keeps P (store_parts sha256_hex mirror message_id accounted parts)
  unfolding store_parts insert_mime_part
  store_parts-Keeps message_id accounted [] = lift-Keeps P (ok accounted)
  store_parts-Keeps message_id accounted (part ∷ parts) =
      bind-Keeps P (upstream-Keeps P (mirror.put part.blob_key part.raw_bytes)) (λ metadata.
        bind-Keeps P
          (db-Keeps P (λ db. (ok done, insert_mime_part (part_of message_id part metadata) db))
            (λ db. apart (db.mime_parts ++ part_of message_id part metadata ∷ []) db))
          (λ stored. store_parts-Keeps message_id (accounted + metadata.size_octets) parts))

module _ {U : Type 0} (P : Tables) (sha256_hex : Text → Text) (mirror : Mirror U) where
  pub index-Keeps :
      (name : Text) (local_uid : ℤ) (parsed : ParsedMessage)
      → Keeps P (index sha256_hex mirror name local_uid parsed)
  unfolding index
  index-Keeps name local_uid parsed = go mirror.index_message
    where
      go :
          (search : Option (Text → ℤ → ParsedMessage → U → Result Done × U))
          → Keeps P (elim search as (λ o. Job U Done) [
            | none ↦ pure done
            | some index_message ↦
                on_upstream (index_message name local_uid (record parsed { mime_parts = [] }))
          ])
      go none = lift-Keeps P (ok done)
      go (some index_message) =
          upstream-Keeps P (index_message name local_uid (record parsed { mime_parts = [] }))
