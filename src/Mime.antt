-- ===== src/Mime.antt =====
-- crates/mime/src/lib.rs: what the parser of a message gives. A value of JSON is its text.
use imapped_lightmode.Base.{ℕ, Option, List}
use imapped_lightmode.Text.{Text}

pub record MimePartRecord : Type 0 where
  pub part_path : Text
  pub content_type : Text
  pub charset : Option Text
  pub disposition : Option Text
  pub filename : Option Text
  pub content_id : Option Text
  pub size_octets : ℕ
  pub blob_key : Text
  pub sha256 : Text
  pub transfer_encoding : Option Text
  pub metadata_json : Text
  pub raw_bytes : Text

pub record ParsedMessage : Type 0 where
  pub raw_sha256 : Text
  pub size_octets : ℕ
  pub message_id_header : Option Text
  pub subject : Option Text
  pub from_json : Text
  pub to_json : Text
  pub cc_json : Text
  pub bcc_json : Text
  pub reply_to_json : Text
  pub envelope_json : Text
  pub bodystructure_json : Text
  pub text_preview : Option Text
  pub mime_parts : List MimePartRecord
