-- ===== src/Auth/Throttle.antt =====
-- What the operations of the login throttle of crates/auth/src/lib.rs do to the state of each name.
use imapped_lightmode.Base.{
  ℕ, ◌≡◌, refl, Bool, true, Option, none, some, arith, if◌then◌else◌, Bool-cases, inl, inr,
}
use imapped_lightmode.Text.{Text, eq, eq→≡}
use imapped_lightmode.Text.Case.{to_ascii_lowercase}
use imapped_lightmode.Text.Map.{Map, lookup, lookup-insert, lookup-remove}
use imapped_lightmode.Auth.{
  AttemptState, MemoryLoginThrottle, fresh, in_lockout, expire, is_blocked_state, is_blocked,
  or_fresh, fail_state, record_failure, record_success, set_attempts,
}

-- The state of a name: that of its lower-case form, and a fresh one where there is none.
unfoldable pub state_of : MemoryLoginThrottle → Text → AttemptState
unfolding or_fresh
state_of throttle name = or_fresh (lookup (to_ascii_lowercase name) throttle.attempts)

-- Two names that the throttle does not tell apart.
abbrev pub same_name : Text → Text → Bool
same_name a b = eq (to_ascii_lowercase a) (to_ascii_lowercase b)

unfoldable pub after_test : ℕ → AttemptState → AttemptState
unfolding expire in_lockout
after_test now state = if in_lockout now state.blocked_until then state else expire state

is_blocked_state-test :
    (t : MemoryLoginThrottle) (now : ℕ) (key : Text) (o : Option AttemptState)
    → (is_blocked_state t now key o).0 ≡ in_lockout now (or_fresh o).blocked_until
unfolding is_blocked_state in_lockout or_fresh
is_blocked_state-test t now key none = refl
is_blocked_state-test t now key (some state) = ground arith

pub is_blocked-state_of :
    (t : MemoryLoginThrottle) (now : ℕ) (name : Text)
    → (is_blocked t now name).0 ≡ in_lockout now (state_of t name).blocked_until
unfolding is_blocked state_of
is_blocked-state_of t now name =
    is_blocked_state-test t now (to_ascii_lowercase name)
      (lookup (to_ascii_lowercase name) t.attempts)

pub record_failure-state_of :
    (t : MemoryLoginThrottle) (now : ℕ) (name other : Text)
    → state_of (record_failure t now name) other
      ≡ (if same_name name other then fail_state t now (state_of t name) else state_of t other)
unfolding record_failure state_of set_attempts or_fresh
record_failure-state_of t now name other = ground (
  arith,
  lookup-insert (to_ascii_lowercase other) (to_ascii_lowercase name)
      (fail_state t now (or_fresh (lookup (to_ascii_lowercase name) t.attempts))) t.attempts,
)

pub record_success-state_of :
    (t : MemoryLoginThrottle) (name other : Text)
    → state_of (record_success t name) other
      ≡ (if same_name name other then fresh else state_of t other)
unfolding record_success state_of set_attempts or_fresh
record_success-state_of t name other =
    ground (arith, lookup-remove (to_ascii_lowercase other) (to_ascii_lowercase name) t.attempts)

lookup-same :
    {V : Type 0} (key other : Text) (map : Map V)
    → eq key other ≡ true
    → lookup other map ≡ lookup key map
lookup-same key other map h = cc (eq→≡ key other h)

is_blocked_state-lookup :
    (t : MemoryLoginThrottle) (now : ℕ) (key other : Text) (o : Option AttemptState)
    → lookup key t.attempts ≡ o
    → or_fresh (lookup other (is_blocked_state t now key o).1.attempts)
      ≡ (if eq key other then after_test now (or_fresh o) else or_fresh (lookup other t.attempts))
unfolding is_blocked_state or_fresh set_attempts after_test
is_blocked_state-lookup t now key other none h = ground (arith, lookup-same key other t.attempts)
is_blocked_state-lookup t now key other (some state) h =
    elim (Bool-cases (in_lockout now state.blocked_until)) [
      | inl e ↦ rw e (ground (arith, lookup-same key other t.attempts))
      | inr e ↦ rw e (ground (arith, lookup-insert other key (expire state) t.attempts))
    ]

pub is_blocked-after :
    (t : MemoryLoginThrottle) (now : ℕ) (name other : Text)
    → state_of (is_blocked t now name).1 other
      ≡ (if same_name name other then after_test now (state_of t name) else state_of t other)
unfolding is_blocked state_of
is_blocked-after t now name other =
    is_blocked_state-lookup t now (to_ascii_lowercase name) (to_ascii_lowercase other)
      (lookup (to_ascii_lowercase name) t.attempts) refl
