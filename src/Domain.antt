-- ===== src/Domain.antt =====
-- crates/core/src/domain.rs: the enumerations that are stored as text, with `Display` and `FromStr`.
pub mod Laws
pub mod Records
use imapped_lightmode.Base.{Bool, ◌||◌, Option, none, some, if◌then◌else◌}
use imapped_lightmode.Text.{Text, lit, eq}
use imapped_lightmode.Text.Case.{to_ascii_lowercase}

pub data UpstreamTlsMode : Type 0 where
  plain start_tls tls : UpstreamTlsMode

pub data UpstreamAuthMethod : Type 0 where
  login oauth2 xoauth2 : UpstreamAuthMethod

pub data MutationStatus : Type 0 where
  pending in_flight succeeded failed dead_letter : MutationStatus

unfoldable pub show_tls_mode : UpstreamTlsMode → Text
show_tls_mode plain = lit "plain"
show_tls_mode start_tls = lit "starttls"
show_tls_mode tls = lit "tls"

-- `from_str` answers with a message where the model answers with `none`.
unfoldable pub read_tls_mode : Text → Option UpstreamTlsMode
read_tls_mode s =
    let lower = to_ascii_lowercase s in
    if eq lower (lit "plain")
    then some plain
    else if eq lower (lit "starttls")
    then some start_tls
    else if eq lower (lit "tls")
    then some tls
    else none

unfoldable pub show_auth_method : UpstreamAuthMethod → Text
show_auth_method login = lit "login"
show_auth_method oauth2 = lit "oauth2"
show_auth_method xoauth2 = lit "xoauth2"

unfoldable pub read_auth_method : Text → Option UpstreamAuthMethod
read_auth_method s =
    let lower = to_ascii_lowercase s in
    if eq lower (lit "login")
    then some login
    else if eq lower (lit "oauth2")
    then some oauth2
    else if eq lower (lit "xoauth2") || eq lower (lit "xoauth")
    then some xoauth2
    else none

unfoldable pub show_mutation_status : MutationStatus → Text
show_mutation_status pending = lit "pending"
show_mutation_status in_flight = lit "in_flight"
show_mutation_status succeeded = lit "succeeded"
show_mutation_status failed = lit "failed"
show_mutation_status dead_letter = lit "dead_letter"

unfoldable pub read_mutation_status : Text → Option MutationStatus
read_mutation_status s =
    let lower = to_ascii_lowercase s in
    if eq lower (lit "pending")
    then some pending
    else if eq lower (lit "in_flight") || eq lower (lit "inflight")
    then some in_flight
    else if eq lower (lit "succeeded")
    then some succeeded
    else if eq lower (lit "failed")
    then some failed
    else if eq lower (lit "dead_letter") || eq lower (lit "deadletter")
    then some dead_letter
    else none
