-- ===== src/Auth.antt =====
-- crates/auth/src/lib.rs: the throttle of failed logins that is kept in memory, and the
-- authenticator for one fixed user. An `Instant` is a number on the clock's scale; each call gets
-- the instant that `Instant::now()` returns in it. The mutex makes a call one step.
mod Tests
pub mod Throttle
pub mod Lockout
pub mod Guessing
pub mod Authenticate
use imapped_lightmode.Base.{
  ℕ, ◌+◌, ◌-◌, ◌^◌, min, Bool, true, false, ◌&&◌, Option, none, some, [], leb, ltb, if◌then◌else◌,
  Result, ok, err,
}
use imapped_lightmode.Base.Int.{ℤ}
use imapped_lightmode.Text.{Text, eq}
use imapped_lightmode.Text.Case.{to_ascii_lowercase}
use imapped_lightmode.Text.Map.{Map, lookup, insert, remove}

abbrev pub u32_max : ℕ
u32_max = 2 ^ 32 - 1

pub record AttemptState : Type 0 where
  pub failures : ℕ
  pub blocked_until : Option ℕ

pub record MemoryLoginThrottle : Type 0 where
  pub attempts : Map AttemptState
  pub max_failures : ℕ
  pub lockout : ℕ

unfoldable pub with_limits : ℕ → ℕ → MemoryLoginThrottle
with_limits max_failures lockout = record {
  attempts = [];
  max_failures = max_failures;
  lockout = lockout;
}

abbrev pub fresh : AttemptState
fresh = record { failures = 0; blocked_until = none }

-- Whether a lockout is in force at `now`.
unfoldable pub in_lockout : ℕ → Option ℕ → Bool
in_lockout now none = false
in_lockout now (some blocked_until) = ltb now blocked_until

-- The reset of a lockout that is over, which both operations do.
unfoldable pub expire : AttemptState → AttemptState
expire state = elim state.blocked_until [ none ↦ state | some blocked_until ↦ fresh ]

unfoldable pub set_attempts : MemoryLoginThrottle → Map AttemptState → MemoryLoginThrottle
set_attempts throttle attempts = record {
  attempts = attempts;
  max_failures = throttle.max_failures;
  lockout = throttle.lockout;
}

unfoldable pub is_blocked_state :
    MemoryLoginThrottle → ℕ → Text → Option AttemptState → Bool × MemoryLoginThrottle
unfolding expire in_lockout
is_blocked_state throttle now username none = (false, throttle)
is_blocked_state throttle now username (some state) =
    if in_lockout now state.blocked_until
    then (true, throttle)
    else (false, set_attempts throttle (insert username (expire state) throttle.attempts))

unfoldable pub is_blocked : MemoryLoginThrottle → ℕ → Text → Bool × MemoryLoginThrottle
unfolding is_blocked_state
is_blocked throttle now name =
    let username = to_ascii_lowercase name in
    is_blocked_state throttle now username (lookup username throttle.attempts)

-- `entry(username).or_insert(…)`.
unfoldable pub or_fresh : Option AttemptState → AttemptState
or_fresh none = fresh
or_fresh (some state) = state

-- One more failure; the failure that reaches the maximum starts a lockout.
unfoldable pub count_failure : MemoryLoginThrottle → ℕ → AttemptState → AttemptState
count_failure throttle now state =
    let failures = min (state.failures + 1) u32_max in
    if leb throttle.max_failures failures
    then record { failures = 0; blocked_until = some (now + throttle.lockout) }
    else record { failures = failures; blocked_until = state.blocked_until }

unfoldable pub fail_state : MemoryLoginThrottle → ℕ → AttemptState → AttemptState
unfolding expire count_failure in_lockout
fail_state throttle now state =
    if in_lockout now state.blocked_until then state else count_failure throttle now (expire state)

unfoldable pub record_failure : MemoryLoginThrottle → ℕ → Text → MemoryLoginThrottle
unfolding fail_state or_fresh
record_failure throttle now name =
    let username = to_ascii_lowercase name in
    set_attempts throttle (
      insert username (fail_state throttle now (or_fresh (lookup username throttle.attempts)))
        throttle.attempts)

unfoldable pub record_success : MemoryLoginThrottle → Text → MemoryLoginThrottle
record_success throttle name =
    set_attempts throttle (remove (to_ascii_lowercase name) throttle.attempts)

pub record AuthContext : Type 0 where
  pub user_id : ℤ
  pub account_id : Option ℤ
  pub username : Text

pub record StaticAuthenticator : Type 0 where
  pub expected_username : Text
  pub expected_password_hash : Text
  pub user_id : ℤ

-- `security::verify_password` checks an Argon2 hash; it is a parameter.
module _ (verify_password : Text → Text → Result Bool) where
  -- `username == expected && verify_password(…)?`: the hash is looked at for the right name only.
  unfoldable pub credentials : StaticAuthenticator → Text → Text → Result Bool
  credentials auth username password =
      if eq username auth.expected_username
      then verify_password auth.expected_password_hash password
      else ok false

  unfoldable pub finish :
      StaticAuthenticator
      → MemoryLoginThrottle
      → ℕ
      → Text
      → Result Bool
      → Result (Option AuthContext) × MemoryLoginThrottle
  finish auth throttle now username (err e) = (err e, throttle)
  finish auth throttle now username (ok true) = (
    ok (some (record { user_id = auth.user_id; account_id = none; username = username })),
    record_success throttle username,
  )
  finish auth throttle now username (ok false) = (ok none, record_failure throttle now username)

  -- `now` is the instant of the block test, `later` that of the recorded failure.
  unfoldable pub authenticate :
      StaticAuthenticator
      → MemoryLoginThrottle
      → ℕ
      → ℕ
      → Text
      → Text
      → Result (Option AuthContext) × MemoryLoginThrottle
  unfolding credentials finish
  authenticate auth throttle now later username password =
      let test = is_blocked throttle now username in
      if test.0
      then (ok none, test.1)
      else finish auth test.1 later username (credentials auth username password)
