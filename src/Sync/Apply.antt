-- ===== src/Sync/Apply.antt =====
-- crates/sync/src/lib.rs: `apply_append`, `apply_flag_update`, `apply_copy_message` and
-- `apply_move_message`, which send one queued change to the upstream server. The object store's `get`
-- and `parse_from_rfc3339` are parameters; the metric of the bytes that are read is left out.
pub mod Laws
use imapped_lightmode.Base.{
  ℕ, Bool, true, false, ◌≡◌, Option, none, some, List, [], ◌∷◌, ◌++◌, if◌then◌else◌, any, Error,
  parse_error, storage, Result, ok, err, ok_or,
}
use imapped_lightmode.Base.Int.{ℤ, wrap_i64, pos, negsuc}
use imapped_lightmode.Text.{Text, lit, eq}
use imapped_lightmode.Text.Case.{eq_ignore_ascii_case}
use imapped_lightmode.Text.Map.{lookup}
use imapped_lightmode.Protocol.Status.{show_ℤ}
use imapped_lightmode.Domain.Records.{
  Value, null, number, string, strings, Payload, PendingMutation,
}
use imapped_lightmode.Db.{Db, Done, done}
use imapped_lightmode.Db.UidMappings.{
  set_mailbox_message_upstream_uid, upstream_uid_for_mailbox_message,
}
use imapped_lightmode.ImapServer.SearchMatch.{as_u64}
use imapped_lightmode.Sync.Job.{Upstream, Job, pure, lift, on_db, on_upstream, ◌>>=◌, ◌>>◌}

-- `Value::as_i64`, `as_u64`, `as_str`, and `as_array` with the texts in it.
unfoldable pub as_i64 : Value → Option ℤ
as_i64 null = none
as_i64 (number n) = some n
as_i64 (string s) = none
as_i64 (strings ss) = none

unfoldable pub as_unsigned : Value → Option ℕ
as_unsigned null = none
as_unsigned (number (pos n)) = some n
as_unsigned (number (negsuc n)) = none
as_unsigned (string s) = none
as_unsigned (strings ss) = none

unfoldable pub as_str : Value → Option Text
as_str null = none
as_str (number n) = none
as_str (string s) = some s
as_str (strings ss) = none

unfoldable pub as_texts : Value → List Text
as_texts null = []
as_texts (number n) = []
as_texts (string s) = []
as_texts (strings ss) = ss

-- `payload_json.get(key).and_then(…)`.
unfoldable pub get_as : {A : Type 0} → (Value → Option A) → Option Value → Option A
get_as read none = none
get_as read (some value) = read value

unfoldable pub get_texts : Option Value → List Text
unfolding as_texts
get_texts none = []
get_texts (some value) = as_texts value

-- The member of the payload, or the error that says which change misses it.
unfoldable pub required : {A : Type 0} → (Value → Option A) → Text → Payload → Text → Result A
unfolding get_as
required read kind payload key =
    ok_or (get_as read (lookup key payload))
      (parse_error (kind ++ (lit " mutation missing " ++ key)))

unfoldable pub with_deleted : List Text → List Text
with_deleted flags =
    if any (λ flag. eq_ignore_ascii_case flag (lit "\\Deleted")) flags
    then flags
    else flags ++ lit "\\Deleted" ∷ []

abbrev pub missing_upstream_uid : Text → ℤ → ℤ → Error
missing_upstream_uid kind mailbox_id local_uid = storage (
    kind
    ++ (lit " mutation missing upstream uid for mailbox "
        ++ (show_ℤ mailbox_id ++ (lit " uid " ++ show_ℤ local_uid))))

-- `?` on an option inside a result.
unfoldable pub present : {A : Type 0} → Result (Option A) → Error → Result A
present (err e) missing = err e
present (ok a) missing = ok_or a missing

module _ (get : Text → Result (Option Text)) (parse_from_rfc3339 : Text → Result ℕ) {U : Type 0}
    (upstream : Upstream U) where
  unfoldable pub internal_date : Option Text → Result (Option ℕ)
  internal_date none = ok none
  internal_date (some value) = elim (parse_from_rfc3339 value) [
    | ok time ↦ ok (some time)
    | err e ↦ err e
  ]

  -- The UID that the server has given to the message is noted, if both UIDs are known.
  unfoldable pub note_append : ℤ → Option ℤ → Option ℕ → Job U Done
  unfolding set_mailbox_message_upstream_uid wrap_i64
  note_append mailbox_id (some local_uid) (some append_uid) =
      on_db (set_mailbox_message_upstream_uid mailbox_id local_uid (wrap_i64 append_uid))
  note_append mailbox_id (some local_uid) none = pure done
  note_append mailbox_id none append_uid = pure done

  unfoldable pub apply_append : Payload → Job U Done
  unfolding required get_as get_texts as_str as_i64 internal_date present note_append
  apply_append payload =
      lift (required as_str (lit "append") payload (lit "mailbox")) >>= λ mailbox.
      lift (required as_i64 (lit "append") payload (lit "mailbox_id")) >>= λ mailbox_id.
      lift (required as_str (lit "append") payload (lit "blob_key")) >>= λ blob_key.
      lift (internal_date (get_as as_str (lookup (lit "internal_date") payload))) >>= λ date.
      lift (present (get blob_key) (storage (lit "missing blob for append: " ++ blob_key)))
      >>= λ raw.
          on_upstream (
            upstream.append_with_internal_date mailbox (get_texts (lookup (lit "flags") payload))
              date raw)
          >>= note_append mailbox_id (get_as as_i64 (lookup (lit "local_uid") payload))

  -- The UID is the local one, and no mailbox is selected.
  unfoldable pub apply_flag_update : Payload → Job U Done
  unfolding required get_texts as_unsigned
  apply_flag_update payload =
      lift (required as_unsigned (lit "flag") payload (lit "local_uid")) >>= λ local_uid.
      on_upstream (upstream.uid_store_flags local_uid (get_texts (lookup (lit "flags") payload)))

  -- The copy itself, when the members of the payload are known.
  unfoldable pub copied : Text → ℤ → ℤ → Text → Text → ℤ → ℤ → Job U ℕ
  unfolding present upstream_uid_for_mailbox_message as_u64 set_mailbox_message_upstream_uid
      wrap_i64
  copied kind source_id local_uid source destination destination_id destination_uid =
      (λ s. (
        present (upstream_uid_for_mailbox_message source_id local_uid s.0)
            (missing_upstream_uid kind source_id local_uid),
        s,
      ))
      >>= λ source_uid.
          on_upstream (upstream.select source)
          >> on_upstream (upstream.uid_copy_message (as_u64 source_uid) destination)
          >>= λ copied_uid.
              on_db (
                set_mailbox_message_upstream_uid destination_id destination_uid
                  (wrap_i64 copied_uid))
              >> pure (as_u64 source_uid)

  -- What COPY and MOVE have in common: the message is copied upstream, and its new UID noted. The UID
  -- of the source comes out.
  unfoldable pub copy_upstream : Text → Payload → Job U ℕ
  unfolding required as_i64 as_str copied
  copy_upstream kind payload =
      lift (required as_i64 kind payload (lit "source_mailbox_id")) >>= λ source_id.
      lift (required as_str kind payload (lit "source_mailbox")) >>= λ source.
      lift (required as_str kind payload (lit "destination_mailbox")) >>= λ destination.
      lift (required as_i64 kind payload (lit "destination_mailbox_id")) >>= λ destination_id.
      lift (required as_i64 kind payload (lit "local_uid")) >>= λ local_uid.
      lift (required as_i64 kind payload (lit "destination_local_uid"))
      >>= copied kind source_id local_uid source destination destination_id

  unfoldable pub apply_copy_message : Payload → Job U Done
  unfolding copy_upstream
  apply_copy_message payload = copy_upstream (lit "copy") payload >> pure done

  unfoldable pub apply_move_message : Payload → Job U Done
  unfolding copy_upstream with_deleted get_texts
  apply_move_message payload = copy_upstream (lit "move") payload >>= λ source_uid.
      on_upstream (
        upstream.uid_store_flags source_uid
          (with_deleted (get_texts (lookup (lit "flags") payload))))
      >> on_upstream upstream.expunge_selected

  -- The `match` on the type of a change.
  unfoldable pub apply : Text → Payload → Job U Done
  unfolding apply_append apply_flag_update apply_copy_message apply_move_message
  apply mutation_type payload =
      if eq mutation_type (lit "append")
      then apply_append payload
      else if eq mutation_type (lit "store_flags")
      then apply_flag_update payload
      else if eq mutation_type (lit "copy_message")
      then apply_copy_message payload
      else if eq mutation_type (lit "move_message")
      then apply_move_message payload
      else lift (err (storage (lit "unsupported mutation type: " ++ mutation_type)))

  abbrev pub apply_mutation : PendingMutation → Job U Done
  apply_mutation m = apply m.mutation_type m.payload_json
