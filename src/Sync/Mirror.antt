-- ===== src/Sync/Mirror.antt =====
-- What a synchronisation asks of the upstream server (`UpstreamClient` of crates/upstream/src/lib.rs), of the
-- object store, of the search index and of the parser of messages (crates/mime/src/lib.rs). `U` is the
-- state of these.
use imapped_lightmode.Base.{ℕ, Bool, Option, List, Result}
use imapped_lightmode.Base.Int.{ℤ}
use imapped_lightmode.Text.{Text}
use imapped_lightmode.Mime.{ParsedMessage}
use imapped_lightmode.Storage.{ObjectMetadata}
use imapped_lightmode.Db.{Done}

pub record SelectedMailboxInfo : Type 0 where
  pub flags : List Text
  pub exists : Option ℤ
  pub recent : Option ℤ
  pub uidvalidity : Option ℤ
  pub uidnext : Option ℤ
  pub highestmodseq : Option ℤ
  pub unseen : Option ℤ
  pub read_only : Bool

-- There may be no search index. The parser has no state.
pub record Mirror (U : Type 0) : Type 0 where
  pub list_mailboxes : U → Result (List Text) × U
  pub select_mailbox : Text → U → Result SelectedMailboxInfo × U
  pub uid_search_all : U → Result (List ℕ) × U
  pub uid_fetch_flags : ℕ → U → Result (List Text) × U
  pub uid_fetch_rfc822 : ℕ → U → Result Text × U
  pub put : Text → Text → U → Result ObjectMetadata × U
  pub index_message : Option (Text → ℤ → ParsedMessage → U → Result Done × U)
  pub parse_message : Text → Result ParsedMessage
