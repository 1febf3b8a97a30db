-- ===== src/Storage/Laws.antt =====
-- What the store in memory of crates/storage/src/memory.rs keeps.
use imapped_lightmode.Base.{◌≡◌, refl, some, arith, if◌then◌else◌, Result, ok, err}
use imapped_lightmode.Text.{Text, eq, eq→≡, eq_refl, lit}
use imapped_lightmode.Text.Split.{split_once}
use imapped_lightmode.Text.Map.{Map, insert, lookup-insert}
use imapped_lightmode.Storage.{
  ObjectType, rfc822, mime_part, attachment, cache, ObjectMetadata, content_addressed_key,
  validate_type, type_of_prefix, type_name, validate_content_addressed_bytes, put, checked, get,
}

module _ (sha256_hex : Text → Text) where
  put-inv :
      (blobs after : Map Text) (key bytes : Text) (m : ObjectMetadata)
      → put sha256_hex blobs key bytes ≡ (ok m, after)
      → (validate_content_addressed_bytes sha256_hex key bytes ≡ ok tt)
        × (after ≡ insert key bytes blobs)
  unfolding put
  put-inv blobs after key bytes m h =
      go (validate_content_addressed_bytes sha256_hex key bytes) refl
    where
      go :
          (r : Result (Unit {0}))
          → validate_content_addressed_bytes sha256_hex key bytes ≡ r
          → (validate_content_addressed_bytes sha256_hex key bytes ≡ ok tt)
            × (after ≡ insert key bytes blobs)
      go (ok u) e = (e, ground (arith, h, e))
      go (err p) e = ground (arith, h, e)

  -- After a put that was accepted, the key gives the bytes, and every other key what it gave before.
  pub get-put :
      (blobs after : Map Text) (key bytes other : Text) (m : ObjectMetadata)
      → put sha256_hex blobs key bytes ≡ (ok m, after)
      → get sha256_hex after other
        ≡ (if eq key other then ok (some bytes) else get sha256_hex blobs other)
  unfolding get checked
  get-put blobs after key bytes other m h =
      let inv = put-inv blobs after key bytes m h in
      ground (arith, inv.0, inv.1, lookup-insert other key bytes blobs, eq→≡ key other)

  -- The key that is made of the type and the digest of some bytes is a valid key of these bytes.
  pub validate-content_addressed_key :
      (object_type : ObjectType) (bytes : Text)
      → validate_content_addressed_bytes sha256_hex
          (content_addressed_key sha256_hex object_type bytes)
          bytes
        ≡ ok tt
  unfolding validate_content_addressed_bytes validate_type content_addressed_key type_of_prefix
      type_name split_once lit eq
  validate-content_addressed_key rfc822 bytes = ground (arith, eq_refl (sha256_hex bytes))
  validate-content_addressed_key mime_part bytes = ground (arith, eq_refl (sha256_hex bytes))
  validate-content_addressed_key attachment bytes = ground (arith, eq_refl (sha256_hex bytes))
  validate-content_addressed_key cache bytes = ground (arith, eq_refl (sha256_hex bytes))
