-- ===== src/Protocol.antt =====
-- crates/protocol/src/lib.rs: the session states, the parsed forms of requests, and the three
-- completion lines.
mod Tests
pub mod Tokenize
pub mod Command
pub mod NumberSet
pub mod Store
pub mod Status
pub mod Fetch
use imapped_lightmode.Base.{ℕ, Bool, Option, List, ◌++◌}
use imapped_lightmode.Text.{Text, lit}

pub data State : Type 0 where
  not_authenticated : State
  authenticated : State
  selected_mailbox : Bool → Text → State
  logout : State

pub record ParsedCommand : Type 0 where
  pub tag : Text
  pub name : Text
  pub args : List Text

pub data StoreMode : Type 0 where
  replace add remove : StoreMode

pub data FetchBodySection : Type 0 where
  full header text mime : FetchBodySection
  header_fields : List Text → Bool → FetchBodySection

pub data RawFetchSection : Type 0 where
  whole : FetchBodySection → RawFetchSection
  part : Text → FetchBodySection → RawFetchSection

pub record RawFetchRequest : Type 0 where
  pub label : Text
  pub section : RawFetchSection
  pub partial : Option (ℕ × Option ℕ)
  pub peek : Bool

unfoldable pub ok : Text → Text → Text
unfolding lit
ok tag message = tag ++ (lit " OK " ++ message)

unfoldable pub bad : Text → Text → Text
unfolding lit
bad tag message = tag ++ (lit " BAD " ++ message)

unfoldable pub no : Text → Text → Text → Text
unfolding lit
no tag code message = tag ++ (lit " NO [" ++ (code ++ (lit "] " ++ message)))
