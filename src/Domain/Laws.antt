-- ===== src/Domain/Laws.antt =====
-- The texts of the enumerations of crates/core/src/domain.rs are read as what was written, in upper
-- case too.
use imapped_lightmode.Base.{◌≡◌, refl, some}
use imapped_lightmode.Text.{lit, eq}
use imapped_lightmode.Text.Case.{to_ascii_lowercase, to_ascii_uppercase}
use imapped_lightmode.Domain.{
  UpstreamTlsMode, plain, start_tls, tls, UpstreamAuthMethod, login, oauth2, xoauth2,
  MutationStatus, pending, in_flight, succeeded, failed, dead_letter, show_tls_mode, read_tls_mode,
  show_auth_method, read_auth_method, show_mutation_status, read_mutation_status,
}

-- A stored status of a queued change is read back, as it was written and in upper case.
read-show_mutation_status :
    (s : MutationStatus)
    → (read_mutation_status (show_mutation_status s) ≡ some s)
      × (read_mutation_status (to_ascii_uppercase (show_mutation_status s)) ≡ some s)
unfolding read_mutation_status show_mutation_status to_ascii_uppercase to_ascii_lowercase eq lit
read-show_mutation_status pending = (refl, refl)
read-show_mutation_status in_flight = (refl, refl)
read-show_mutation_status succeeded = (refl, refl)
read-show_mutation_status failed = (refl, refl)
read-show_mutation_status dead_letter = (refl, refl)

read-show_tls_mode : (m : UpstreamTlsMode) → read_tls_mode (show_tls_mode m) ≡ some m
unfolding read_tls_mode show_tls_mode to_ascii_lowercase eq lit
read-show_tls_mode plain = refl
read-show_tls_mode start_tls = refl
read-show_tls_mode tls = refl

read-show_auth_method : (a : UpstreamAuthMethod) → read_auth_method (show_auth_method a) ≡ some a
unfolding read_auth_method show_auth_method to_ascii_lowercase eq lit
read-show_auth_method login = refl
read-show_auth_method oauth2 = refl
read-show_auth_method xoauth2 = refl

-- A stored TLS mode and a stored method of authentication are read back as they were written.
read-show_connection :
    (m : UpstreamTlsMode) (a : UpstreamAuthMethod)
    → (read_tls_mode (show_tls_mode m) ≡ some m) × (read_auth_method (show_auth_method a) ≡ some a)
read-show_connection m a = (read-show_tls_mode m, read-show_auth_method a)
