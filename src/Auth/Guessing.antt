-- ===== src/Auth/Guessing.antt =====
-- Runs of `StaticAuthenticator::authenticate` of crates/auth/src/lib.rs with wrong passwords.
use imapped_lightmode.Base.{
  ℕ, suc, ◌+◌, ◌≤◌, ◌<◌, ◌≡◌, refl, ap, ◌∙◌, Bool, false, none, List, [], ◌∷◌, arith, lt→ltb,
  length, Result, ok, All,
}
use imapped_lightmode.Text.{Text, eq_refl}
use imapped_lightmode.Text.Case.{to_ascii_lowercase}
use imapped_lightmode.Auth.{
  u32_max, AttemptState, MemoryLoginThrottle, fresh, in_lockout, expire, is_blocked,
  StaticAuthenticator, fail_state, credentials, authenticate,
}
use imapped_lightmode.Auth.Throttle.{state_of, is_blocked-state_of, is_blocked-after, after_test}
use imapped_lightmode.Auth.Lockout.{
  counted, fail_state-counted, fail_state-last, record_failure_self, record_failure-limits,
}
use imapped_lightmode.Auth.Authenticate.{
  authenticate-wrong, is_blocked-limits, authenticate-blocked,
}

-- A login attempt: the two instants that the clock shows in it, and the password.
abbrev pub Attempt : Type 0
Attempt = ℕ × ℕ × Text

module _ (verify_password : Text → Text → Result Bool) (auth : StaticAuthenticator)
    (name : Text) where
  unfoldable pub authenticate_all : MemoryLoginThrottle → List Attempt → MemoryLoginThrottle
  authenticate_all t [] = t
  authenticate_all t ((now, later, password) ∷ attempts) =
      authenticate_all (authenticate verify_password auth t now later name password).1 attempts

  abbrev pub IsWrong : Text → Type 0
  IsWrong password = credentials verify_password auth name password ≡ ok false

  counted_not_blocked :
      (t : MemoryLoginThrottle) (now n : ℕ)
      → state_of t name ≡ counted n
      → (is_blocked t now name).0 ≡ false
  unfolding in_lockout
  counted_not_blocked t now n s =
      is_blocked-state_of t now name ∙ ap (λ (r : AttemptState). in_lockout now r.blocked_until) s

  counted_after_test :
      (t : MemoryLoginThrottle) (now n : ℕ)
      → state_of t name ≡ counted n
      → state_of (is_blocked t now name).1 name ≡ counted n
  unfolding after_test in_lockout expire
  counted_after_test t now n s =
      ground (arith, is_blocked-after t now name name, eq_refl (to_ascii_lowercase name))
      ∙ ap (after_test now) s

  state-wrong :
      (t : MemoryLoginThrottle) (now later n : ℕ) (password : Text)
      → state_of t name ≡ counted n
      → IsWrong password
      → state_of (authenticate verify_password auth t now later name password).1 name
        ≡ fail_state (is_blocked t now name).1 later (counted n)
  state-wrong t now later n password s w =
      ap (λ u. state_of u name)
        (authenticate-wrong verify_password auth t now later name password
          (counted_not_blocked t now n s) w)
      ∙ record_failure_self (is_blocked t now name).1 later name
      ∙ ap (fail_state (is_blocked t now name).1 later) (counted_after_test t now n s)

  limits-wrong :
      (t : MemoryLoginThrottle) (now later n : ℕ) (password : Text)
      → state_of t name ≡ counted n
      → IsWrong password
      → ((authenticate verify_password auth t now later name password).1.max_failures
          ≡ t.max_failures)
        × ((authenticate verify_password auth t now later name password).1.lockout ≡ t.lockout)
  limits-wrong t now later n password s w =
      let e =
        authenticate-wrong verify_password auth t now later name password
          (counted_not_blocked t now n s) w in
      let failed = record_failure-limits (is_blocked t now name).1 later name in
      let tested = is_blocked-limits t now name in
      (
        ap (λ (u : MemoryLoginThrottle). u.max_failures) e ∙ failed.0 ∙ tested.0,
        ap (λ (u : MemoryLoginThrottle). u.lockout) e ∙ failed.1 ∙ tested.1,
      )

  authenticate_all-counted :
      (t : MemoryLoginThrottle) (attempts : List Attempt) (n : ℕ)
      → state_of t name ≡ counted n
      → n + length attempts < t.max_failures
      → t.max_failures ≤ u32_max
      → All (λ (a : Attempt). IsWrong a.2) attempts
      → (state_of (authenticate_all t attempts) name ≡ counted (n + length attempts))
        × ((authenticate_all t attempts).max_failures ≡ t.max_failures)
        × ((authenticate_all t attempts).lockout ≡ t.lockout)
  unfolding authenticate_all
  authenticate_all-counted t [] n s h k ws = (s ∙ ap counted (omega arith), refl, refl)
  authenticate_all-counted t ((now, later, password) ∷ attempts) n s h k ws =
      let limits = limits-wrong t now later n password s ws.0 in
      let tested = is_blocked-limits t now name in
      let next = (authenticate verify_password auth t now later name password).1 in
      let state =
        state-wrong t now later n password s ws.0
        ∙ fail_state-counted (is_blocked t now name).1 later n (omega (arith, tested.0))
            (omega (arith, tested.0)) in
      let rest =
        authenticate_all-counted next attempts (suc n) state (omega (arith, limits.0))
          (omega (arith, limits.0)) ws.1 in
      (rest.0 ∙ ap counted (omega arith), rest.1 ∙ limits.0, rest.2 ∙ limits.1)

  -- Guessing is stopped: from a name without failures on, once `max_failures` attempts with wrong
  -- passwords were made, the next attempt is refused if it comes before `lockout` has passed since
  -- the last of them, also with the right password. The maximum fits `u32`.
  pub authenticate-guessing :
      (t : MemoryLoginThrottle) (attempts : List Attempt) (now later : ℕ) (wrong : Text)
      (then_now then_later : ℕ) (password : Text)
      → state_of t name ≡ fresh
      → suc (length attempts) ≡ t.max_failures
      → t.max_failures ≤ u32_max
      → All (λ (a : Attempt). IsWrong a.2) attempts
      → IsWrong wrong
      → then_now < later + t.lockout
      → (authenticate verify_password auth
          (authenticate verify_password auth (authenticate_all t attempts) now later name wrong).1
          then_now
          then_later
          name
          password).0
        ≡ ok none
  unfolding in_lockout
  authenticate-guessing t attempts now later wrong then_now then_later password s h k ws w d =
      let u = authenticate_all t attempts in
      let run = authenticate_all-counted t attempts 0 s (omega arith) k ws in
      let tested = is_blocked-limits u now name in
      let state =
        state-wrong u now later (0 + length attempts) wrong run.0 w
        ∙ fail_state-last (is_blocked u now name).1 later (0 + length attempts)
            (omega (arith, tested.0, run.1)) (omega (arith, tested.0, run.1)) in
      authenticate-blocked verify_password auth
        (authenticate verify_password auth u now later name wrong).1 then_now then_later name
        password
        (is_blocked-state_of (authenticate verify_password auth u now later name wrong).1 then_now
            name
          ∙ ap (λ (r : AttemptState). in_lockout then_now r.blocked_until) state
          ∙ lt→ltb then_now (later + (is_blocked u now name).1.lockout)
              (omega (arith, tested.1, run.2)))
