-- ===== src/Storage.antt =====
-- Content-addressed keys of crates/core/src/storage.rs, and the store in memory of
-- crates/storage/src/memory.rs. The hexadecimal SHA-256 digest is a parameter.
pub mod Laws
mod Tests
use imapped_lightmode.Base.{
  ℕ, ◌-◌, min, Bool, true, false, Option, none, some, List, [], ◌∷◌, ◌++◌, if◌then◌else◌, leb,
  length, take, drop, Error, storage, Result, ok, err, ◌>>=◌,
}
use imapped_lightmode.Text.{Text, lit, eq}
use imapped_lightmode.Text.Split.{split_once}
use imapped_lightmode.Text.Map.{Map, lookup, insert, remove}

pub data ObjectType : Type 0 where
  rfc822 mime_part attachment cache : ObjectType

pub record ObjectMetadata : Type 0 where
  pub key : Text
  pub sha256 : Text
  pub size_octets : ℕ

-- `{:?}` of an object type.
unfoldable pub type_name : ObjectType → Text
type_name rfc822 = lit "Rfc822"
type_name mime_part = lit "MimePart"
type_name attachment = lit "Attachment"
type_name cache = lit "Cache"

unfoldable pub type_of_prefix : Text → Option ObjectType
type_of_prefix prefix =
    if eq prefix (lit "Rfc822")
    then some rfc822
    else if eq prefix (lit "MimePart")
    then some mime_part
    else if eq prefix (lit "Attachment")
    then some attachment
    else if eq prefix (lit "Cache")
    then some cache
    else none

-- What stands behind the first `/`, and nothing where there is none.
unfoldable pub hash_part : Text → Text
hash_part key = elim (split_once b'/' key) [ some (prefix, hash) ↦ hash | none ↦ [] ]

module _ (sha256_hex : Text → Text) where
  unfoldable pub content_addressed_key : ObjectType → Text → Text
  content_addressed_key object_type bytes = type_name object_type ++ b'/' ∷ sha256_hex bytes

  unfoldable pub validate_type : Text → Text → Text → Text → Option ObjectType → Result (Unit {0})
  unfolding content_addressed_key hash_part
  validate_type expected_key prefix hash bytes none =
      err (storage (lit "unknown content-addressed key prefix: " ++ prefix))
  validate_type expected_key prefix hash bytes (some object_type) =
      let actual_key = content_addressed_key object_type bytes in
      if eq actual_key expected_key
      then ok tt
      else err (
          storage (
            lit "content hash mismatch for "
            ++ (expected_key
                ++ (lit ": expected " ++ (hash ++ (lit ", got " ++ hash_part actual_key))))))

  unfoldable pub validate_content_addressed_bytes : Text → Text → Result (Unit {0})
  unfolding validate_type type_of_prefix
  validate_content_addressed_bytes expected_key bytes = elim (split_once b'/' expected_key) [
    | some (prefix, hash) ↦ validate_type expected_key prefix hash bytes (type_of_prefix prefix)
    | none ↦ err (storage (lit "invalid content-addressed key: " ++ expected_key))
  ]

  unfoldable pub put : Map Text → Text → Text → Result ObjectMetadata × Map Text
  put blobs key bytes = elim (validate_content_addressed_bytes key bytes) [
    | ok _ ↦ (
      ok (record { key = key; sha256 = sha256_hex bytes; size_octets = length bytes }),
      insert key bytes blobs,
    )
    | err e ↦ (err e, blobs)
  ]

  unfoldable pub checked : Text → Option Text → Result (Option Text)
  checked key none = ok none
  checked key (some bytes) =
      validate_content_addressed_bytes key bytes >>= λ (u : Unit {0}). ok (some bytes)

  unfoldable pub get : Map Text → Text → Result (Option Text)
  unfolding checked
  get blobs key = checked key (lookup key blobs)

unfoldable pub delete : Map Text → Text → Map Text
delete blobs key = remove key blobs

unfoldable pub exists : Map Text → Text → Bool
exists blobs key = elim (lookup key blobs) [ some bytes ↦ true | none ↦ false ]
