-- ===== src/Storage/Tests.antt =====
-- The store in memory at a concrete object, with a digest that is the bytes themselves.
use imapped_lightmode.Base.{◌≡◌, refl, some, [], ◌∷◌, if◌then◌else◌, ok}
use imapped_lightmode.Text.{Text, lit, eq}
use imapped_lightmode.Text.Split.{split_once}
use imapped_lightmode.Text.Map.{insert, remove}
use imapped_lightmode.Storage.{
  ObjectMetadata, cache, type_name, type_of_prefix, content_addressed_key, validate_type,
  validate_content_addressed_bytes, put, get,
}
use imapped_lightmode.Storage.Laws.{get-put, validate-content_addressed_key}

abbrev digest : Text → Text
digest bytes = bytes

abbrev bytes : Text
bytes = b'x' ∷ []

abbrev key : Text
key = b'C' ∷ b'a' ∷ b'c' ∷ b'h' ∷ b'e' ∷ b'/' ∷ b'x' ∷ []

abbrev stored : ObjectMetadata
stored = record { key = key; sha256 = bytes; size_octets = 1 }

put_accepted : put digest [] key bytes ≡ (ok stored, (key, bytes) ∷ [])
unfolding put validate_content_addressed_bytes validate_type type_of_prefix content_addressed_key
    type_name split_once insert remove lit eq
put_accepted = refl

get-put_example :
    get digest ((key, bytes) ∷ []) key ≡ (if eq key key then ok (some bytes) else get digest [] key)
get-put_example = get-put digest [] ((key, bytes) ∷ []) key bytes key stored put_accepted

validate-content_addressed_key_example :
    validate_content_addressed_bytes digest (content_addressed_key digest cache bytes) bytes ≡ ok tt
validate-content_addressed_key_example = validate-content_addressed_key digest cache bytes
