-- ===== src/Domain/Records.antt =====
-- crates/core/src/domain.rs: the rows that the repository keeps. The times of creation and of the last
-- update, which no modelled code reads, are left out.
use imapped_lightmode.Base.{ℕ, Bool, Option, List}
use imapped_lightmode.Base.Int.{ℤ}
use imapped_lightmode.Text.{Text}
use imapped_lightmode.Text.Map.{Map}
use imapped_lightmode.Domain.{MutationStatus}

pub record Mailbox : Type 0 where
  pub id : ℤ
  pub account_id : ℤ
  pub name : Text
  pub canonical_name : Text
  pub delimiter : Option Text
  pub attributes : List Text
  pub subscribed : Bool
  pub special_use : Option Text
  pub uidvalidity : Option ℤ
  pub uidnext : Option ℤ
  pub highestmodseq : Option ℤ
  pub exists_count : ℤ
  pub recent_count : ℤ
  pub unseen_count : ℤ

pub record MailboxMessage : Type 0 where
  pub id : ℤ
  pub mailbox_id : ℤ
  pub message_id : ℤ
  pub local_uid : ℤ
  pub upstream_uid : Option ℤ
  pub modseq : Option ℤ
  pub flags : List Text
  pub keywords : List Text
  pub is_expunged : Bool

-- The JSON values that a payload holds, and a payload: the object's keys with their values.
pub data Value : Type 0 where
  null : Value
  number : ℤ → Value
  string : Text → Value
  strings : List Text → Value

abbrev pub Payload : Type 0
Payload = Map Value

-- A time is a number of seconds.
pub record PendingMutation : Type 0 where
  pub id : ℤ
  pub account_id : ℤ
  pub mailbox_id : ℤ
  pub message_id : Option ℤ
  pub mutation_type : Text
  pub payload_json : Payload
  pub status : MutationStatus
  pub attempts : ℕ
  pub next_attempt_at : Option ℕ
  pub idempotency_key : Text

pub record SessionRecord : Type 0 where
  pub user_id : ℤ
  pub account_id : Option ℤ
  pub connection_id : Text
  pub remote_addr : Option Text

pub record UidMapping : Type 0 where
  pub mailbox_id : ℤ
  pub local_uid : ℤ
  pub upstream_uid : ℤ
  pub upstream_uidvalidity : ℤ

-- The content of a message: its headers, in JSON text where the column is JSON, and where its bytes are.
pub record Message : Type 0 where
  pub id : ℤ
  pub account_id : ℤ
  pub rfc822_blob_key : Text
  pub rfc822_sha256 : Text
  pub message_id_header : Option Text
  pub subject : Option Text
  pub from_json : Text
  pub to_json : Text
  pub cc_json : Text
  pub bcc_json : Text
  pub reply_to_json : Text
  pub envelope_json : Text
  pub bodystructure_json : Text
  pub internal_date : Option ℕ
  pub sent_date : Option ℕ
  pub size_octets : ℤ
  pub text_preview : Option Text

pub record MimePart : Type 0 where
  pub message_id : ℤ
  pub part_path : Text
  pub content_type : Text
  pub charset : Option Text
  pub disposition : Option Text
  pub filename : Option Text
  pub content_id : Option Text
  pub size_octets : ℤ
  pub blob_key : Text
  pub sha256 : Text
  pub transfer_encoding : Option Text
  pub metadata_json : Text

pub record Quota : Type 0 where
  pub account_id : Option ℤ
  pub max_bytes : ℤ
  pub used_bytes : ℤ

pub record SyncState : Type 0 where
  pub account_id : ℤ
  pub mailbox_id : Option ℤ
  pub state_json : Payload
  pub last_success_at : Option ℕ
  pub last_attempt_at : Option ℕ
  pub last_error : Option Text

-- The name, the address and the upstream server of the account are left out.
pub record MailAccount : Type 0 where
  pub id : ℤ
  pub user_id : ℤ
  pub disabled_at : Option ℕ
  pub last_sync_at : Option ℕ
  pub last_sync_error : Option Text
