-- ===== src/Auth/Authenticate.antt =====
-- `StaticAuthenticator::authenticate` of crates/auth/src/lib.rs: who is let in, and that guessing is
-- stopped by the lockout.
use imapped_lightmode.Base.{
  ℕ, ◌≡◌, refl, Bool, true, false, Option, none, some, arith, ◌↔◌, Result, ok, err,
}
use imapped_lightmode.Text.{Text, eq_iff}
use imapped_lightmode.Text.Case.{to_ascii_lowercase}
use imapped_lightmode.Text.Map.{lookup}
use imapped_lightmode.Auth.{
  AttemptState, MemoryLoginThrottle, is_blocked, is_blocked_state, set_attempts, AuthContext,
  StaticAuthenticator, record_failure, credentials, finish, authenticate,
}

is_blocked_state-limits :
    (t : MemoryLoginThrottle) (now : ℕ) (key : Text) (o : Option AttemptState)
    → ((is_blocked_state t now key o).1.max_failures ≡ t.max_failures)
      × ((is_blocked_state t now key o).1.lockout ≡ t.lockout)
unfolding is_blocked_state set_attempts
is_blocked_state-limits t now key none = (refl, refl)
is_blocked_state-limits t now key (some state) = ground arith

pub is_blocked-limits :
    (t : MemoryLoginThrottle) (now : ℕ) (name : Text)
    → ((is_blocked t now name).1.max_failures ≡ t.max_failures)
      × ((is_blocked t now name).1.lockout ≡ t.lockout)
unfolding is_blocked
is_blocked-limits t now name =
    is_blocked_state-limits t now (to_ascii_lowercase name)
      (lookup (to_ascii_lowercase name) t.attempts)

module _ (verify_password : Text → Text → Result Bool) where
  finish_iff :
      (auth : StaticAuthenticator) (t : MemoryLoginThrottle) (now : ℕ) (username : Text)
      (r : Result Bool) (context : AuthContext)
      → ((finish verify_password auth t now username r).0 ≡ ok (some context)) ↔ (
          (r ≡ ok true)
          × (context ≡ record { user_id = auth.user_id; account_id = none; username = username }))
  unfolding finish
  finish_iff auth t now username (err e) context = ground arith
  finish_iff auth t now username (ok true) context = ground arith
  finish_iff auth t now username (ok false) context = ground arith

  credentials_iff :
      (auth : StaticAuthenticator) (username password : Text)
      → (credentials verify_password auth username password ≡ ok true) ↔ (
          (username ≡ auth.expected_username)
          × (verify_password auth.expected_password_hash password ≡ ok true))
  unfolding credentials
  credentials_iff auth username password = ground (arith, eq_iff username auth.expected_username)

  -- A login is granted exactly when the name is not blocked, is the expected one letter by letter,
  -- and the password fits the hash; the context then carries the user and the name as given.
  pub authenticate_iff :
      (auth : StaticAuthenticator) (t : MemoryLoginThrottle) (now later : ℕ)
      (username password : Text) (context : AuthContext)
      → ((authenticate verify_password auth t now later username password).0 ≡ ok (some context))
        ↔ ((is_blocked t now username).0 ≡ false)
          × (username ≡ auth.expected_username)
          × (verify_password auth.expected_password_hash password ≡ ok true)
          × (context ≡ record { user_id = auth.user_id; account_id = none; username = username })
  unfolding authenticate
  authenticate_iff auth t now later username password context = ground (
    arith,
    finish_iff auth (is_blocked t now username).1 later username
        (credentials verify_password auth username password) context,
    credentials_iff auth username password,
  )

  pub authenticate-wrong :
      (auth : StaticAuthenticator) (t : MemoryLoginThrottle) (now later : ℕ) (name password : Text)
      → (is_blocked t now name).0 ≡ false
      → credentials verify_password auth name password ≡ ok false
      → (authenticate verify_password auth t now later name password).1
        ≡ record_failure (is_blocked t now name).1 later name
  unfolding authenticate finish
  authenticate-wrong auth t now later name password b w = ground arith

  -- While a name is blocked, no password is of any use: the login is refused.
  pub authenticate-blocked :
      (auth : StaticAuthenticator) (t : MemoryLoginThrottle) (now later : ℕ) (name password : Text)
      → (is_blocked t now name).0 ≡ true
      → (authenticate verify_password auth t now later name password).0 ≡ ok none
  unfolding authenticate
  authenticate-blocked auth t now later name password b = ground arith
