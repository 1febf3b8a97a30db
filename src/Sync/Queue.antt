-- ===== src/Sync/Queue.antt =====
-- crates/sync/src/lib.rs: `idempotency_key`, and the functions that queue a change that a client has
-- made. The text of a JSON object, and the hexadecimal SHA-256 of some bytes, are parameters.
use imapped_lightmode.Base.{◌/◌, ◌%◌, ◌^◌, Option, none, List, [], ◌∷◌, ◌++◌, map}
use imapped_lightmode.Base.Int.{ℤ, pos}
use imapped_lightmode.Text.{Text, lit}
use imapped_lightmode.Domain.{pending}
use imapped_lightmode.Domain.Records.{number, string, strings, Payload, PendingMutation}
use imapped_lightmode.Db.{Transaction}
use imapped_lightmode.Db.Mutations.{enqueue_mutation}
use imapped_lightmode.ImapServer.SearchMatch.{as_u64}

pub record Digest : Type 0 where
  pub json_text : Payload → Text
  pub sha256_hex : Text → Text

-- `to_be_bytes` of an `i64`.
unfoldable pub be_bytes : ℤ → Text
unfolding as_u64
be_bytes n = map (λ k. as_u64 n / 256 ^ k % 256) (7 ∷ 6 ∷ 5 ∷ 4 ∷ 3 ∷ 2 ∷ 1 ∷ 0 ∷ [])

module _ (digest : Digest) where
  unfoldable pub idempotency_key : ℤ → ℤ → Text → Payload → Text
  unfolding be_bytes
  idempotency_key account_id mailbox_id mutation_type payload_json = digest.sha256_hex (
      be_bytes account_id
      ++ (be_bytes mailbox_id ++ (mutation_type ++ digest.json_text payload_json)))

  -- The change that is put in, not yet tried.
  unfoldable pub new_mutation : ℤ → ℤ → Option ℤ → Text → Payload → PendingMutation
  unfolding idempotency_key
  new_mutation account_id mailbox_id message_id mutation_type payload = record {
    id = pos 0;
    account_id = account_id;
    mailbox_id = mailbox_id;
    message_id = message_id;
    mutation_type = mutation_type;
    payload_json = payload;
    status = pending;
    attempts = 0;
    next_attempt_at = none;
    idempotency_key = idempotency_key account_id mailbox_id mutation_type payload;
  }

  abbrev pub flag_payload : ℤ → List Text → Payload
  flag_payload local_uid flags =
      (lit "local_uid", number local_uid) ∷ (lit "flags", strings flags) ∷ []

  unfoldable pub queue_flag_update : ℤ → ℤ → Option ℤ → ℤ → List Text → Transaction PendingMutation
  unfolding new_mutation enqueue_mutation
  queue_flag_update account_id mailbox_id message_id local_uid flags = enqueue_mutation (
      new_mutation account_id mailbox_id message_id (lit "store_flags")
        (flag_payload local_uid flags))

  abbrev pub transfer_payload : ℤ → Text → ℤ → Text → ℤ → ℤ → List Text → Payload
  transfer_payload source_id source destination_id destination local_uid destination_uid flags =
      (lit "source_mailbox_id", number source_id)
      ∷ (lit "source_mailbox", string source)
      ∷ (lit "destination_mailbox_id", number destination_id)
      ∷ (lit "destination_mailbox", string destination)
      ∷ (lit "local_uid", number local_uid)
      ∷ (lit "destination_local_uid", number destination_uid)
      ∷ (lit "flags", strings flags)
      ∷ []

  unfoldable pub queue_copy_message :
      ℤ → ℤ → ℤ → Text → Text → ℤ → ℤ → List Text → Transaction PendingMutation
  unfolding new_mutation enqueue_mutation
  queue_copy_message account_id source_id destination_id source destination local_uid
        destination_uid flags =
      enqueue_mutation (
        new_mutation account_id source_id none (lit "copy_message") (
          transfer_payload source_id source destination_id destination local_uid destination_uid
            flags))

  unfoldable pub queue_move_message :
      ℤ → ℤ → ℤ → Text → Text → ℤ → ℤ → List Text → Transaction PendingMutation
  unfolding new_mutation enqueue_mutation
  queue_move_message account_id source_id destination_id source destination local_uid
        destination_uid flags =
      enqueue_mutation (
        new_mutation account_id source_id none (lit "move_message") (
          transfer_payload source_id source destination_id destination local_uid destination_uid
            flags))
