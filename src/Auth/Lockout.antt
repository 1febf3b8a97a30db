-- ===== src/Auth/Lockout.antt =====
-- Runs of failed logins against the throttle of crates/auth/src/lib.rs: when a lockout begins, whom
-- it concerns, and how long it lasts.
use imapped_lightmode.Base.{
  ℕ, suc, ◌+◌, ◌≤◌, ◌<◌, ◌≡◌, refl, sym, ap, ◌∙◌, true, false, none, some, List, [], ◌∷◌, arith,
  ltb, length, min, leb,
}
use imapped_lightmode.Text.{Text, eq_refl, eq→≡}
use imapped_lightmode.Text.Case.{to_ascii_lowercase}
use imapped_lightmode.Text.Map.{lookup}
use imapped_lightmode.Auth.{
  u32_max, AttemptState, MemoryLoginThrottle, fresh, in_lockout, expire, is_blocked, set_attempts,
  or_fresh, count_failure, fail_state, record_failure,
}
use imapped_lightmode.Auth.Throttle.{
  state_of, same_name, is_blocked-state_of, record_failure-state_of,
}

-- The failures of `name` at the instants of the list, the first of them first.
unfoldable pub record_failures : MemoryLoginThrottle → Text → List ℕ → MemoryLoginThrottle
record_failures t name [] = t
record_failures t name (now ∷ nows) = record_failures (record_failure t now name) name nows

abbrev pub counted : ℕ → AttemptState
counted n = record { failures = n; blocked_until = none }

pub fail_state-counted :
    (t : MemoryLoginThrottle) (now n : ℕ)
    → suc n < t.max_failures
    → t.max_failures ≤ u32_max
    → fail_state t now (counted n) ≡ counted (suc n)
unfolding fail_state count_failure in_lockout expire
fail_state-counted t now n h k =
    let m : min (n + 1) u32_max ≡ suc n = omega arith in
    let l : leb t.max_failures (suc n) ≡ false = ground arith in rw (m, l) refl

pub fail_state-last :
    (t : MemoryLoginThrottle) (now n : ℕ)
    → suc n ≡ t.max_failures
    → t.max_failures ≤ u32_max
    → fail_state t now (counted n) ≡ record { failures = 0; blocked_until = some (now + t.lockout) }
unfolding fail_state count_failure in_lockout expire
fail_state-last t now n h k =
    let m : min (n + 1) u32_max ≡ suc n = omega arith in
    let l : leb t.max_failures (suc n) ≡ true = ground arith in rw (m, l) refl

same_name_refl : (a : Text) → same_name a a ≡ true
same_name_refl a = eq_refl (to_ascii_lowercase a)

pub record_failure_self :
    (t : MemoryLoginThrottle) (now : ℕ) (name : Text)
    → state_of (record_failure t now name) name ≡ fail_state t now (state_of t name)
record_failure_self t now name =
    ground (arith, record_failure-state_of t now name name, same_name_refl name)

record_failure-alias :
    (t : MemoryLoginThrottle) (now : ℕ) (name alias : Text)
    → same_name name alias ≡ true
    → state_of (record_failure t now name) alias ≡ fail_state t now (state_of t name)
record_failure-alias t now name alias a = ground (arith, record_failure-state_of t now name alias)

fail_state-locked :
    (t : MemoryLoginThrottle) (now : ℕ) (state : AttemptState)
    → in_lockout now state.blocked_until ≡ true
    → fail_state t now state ≡ state
unfolding fail_state
fail_state-locked t now state h = ground arith

state_of-same :
    (t : MemoryLoginThrottle) (name other : Text)
    → same_name name other ≡ true
    → state_of t other ≡ state_of t name
unfolding state_of
state_of-same t name other h =
    ap (λ k. or_fresh (lookup k t.attempts))
      (sym (eq→≡ (to_ascii_lowercase name) (to_ascii_lowercase other) h))

pub record_failure-limits :
    (t : MemoryLoginThrottle) (now : ℕ) (name : Text)
    → ((record_failure t now name).max_failures ≡ t.max_failures)
      × ((record_failure t now name).lockout ≡ t.lockout)
unfolding record_failure set_attempts
record_failure-limits t now name = (refl, refl)

record_failures-counted :
    (t : MemoryLoginThrottle) (name : Text) (nows : List ℕ) (n : ℕ)
    → state_of t name ≡ counted n
    → n + length nows < t.max_failures
    → t.max_failures ≤ u32_max
    → (state_of (record_failures t name nows) name ≡ counted (n + length nows))
      × ((record_failures t name nows).max_failures ≡ t.max_failures)
      × ((record_failures t name nows).lockout ≡ t.lockout)
unfolding record_failures
record_failures-counted t name [] n s h k = (s ∙ ap counted (omega arith), refl, refl)
record_failures-counted t name (now ∷ nows) n s h k =
    let limits = record_failure-limits t now name in
    let counted_once =
      record_failure_self t now name
      ∙ ap (fail_state t now) s
      ∙ fail_state-counted t now n (omega arith) k in
    let rest =
      record_failures-counted (record_failure t now name) name nows (suc n) counted_once
        (omega arith) (omega arith) in
    (rest.0 ∙ ap counted (omega arith), rest.1 ∙ limits.0, rest.2 ∙ limits.1)

-- From a name without failures on, fewer failures than the maximum, at whatever instants, do not
-- block the name, if the maximum fits `u32`.
is_blocked-record_failures_few :
    (t : MemoryLoginThrottle) (name : Text) (nows : List ℕ) (now : ℕ)
    → state_of t name ≡ fresh
    → length nows < t.max_failures
    → t.max_failures ≤ u32_max
    → (is_blocked (record_failures t name nows) now name).0 ≡ false
unfolding in_lockout
is_blocked-record_failures_few t name nows now s h k =
    let after = record_failures-counted t name nows 0 s (omega arith) k in
    is_blocked-state_of (record_failures t name nows) now name
    ∙ ap (λ (r : AttemptState). in_lockout now r.blocked_until) after.0

-- From a name without failures on, the failure that makes their number the maximum, which fits
-- `u32`, blocks the name, in any case of its letters, up to `lockout` after that failure and no
-- longer.
pub is_blocked-record_failures :
    (t : MemoryLoginThrottle) (name alias : Text) (nows : List ℕ) (last now : ℕ)
    → state_of t name ≡ fresh
    → suc (length nows) ≡ t.max_failures
    → t.max_failures ≤ u32_max
    → same_name name alias ≡ true
    → (is_blocked (record_failure (record_failures t name nows) last name) now alias).0
      ≡ ltb now (last + t.lockout)
unfolding in_lockout
is_blocked-record_failures t name alias nows last now s h k a =
    let u = record_failures t name nows in
    let after = record_failures-counted t name nows 0 s (omega arith) k in
    let state =
      record_failure-alias u last name alias a
      ∙ ap (fail_state u last) after.0
      ∙ fail_state-last u last (0 + length nows) (omega (arith, after.1))
          (omega (arith, after.1)) in
    is_blocked-state_of (record_failure u last name) now alias
    ∙ ap (λ (r : AttemptState). in_lockout now r.blocked_until) state
    ∙ ap (λ l. ltb now (last + l)) after.2

-- While a name is blocked, one more failure of it changes the state of no name: the lockout is not
-- prolonged.
record_failure-blocked :
    (t : MemoryLoginThrottle) (now : ℕ) (name other : Text)
    → (is_blocked t now name).0 ≡ true
    → state_of (record_failure t now name) other ≡ state_of t other
record_failure-blocked t now name other h =
    let locked =
      fail_state-locked t now (state_of t name) (sym (is_blocked-state_of t now name) ∙ h) in
    ground (arith, record_failure-state_of t now name other, locked, state_of-same t name other)
