-- ===== src/Auth/Tests.antt =====
-- The properties of the login throttle and of the authenticator at concrete logins.
use imapped_lightmode.Base.{
  ◌+◌, ◌≡◌, refl, Bool, true, false, ◌↔◌, none, some, [], ◌∷◌, arith, ltb, Result, ok,
}
use imapped_lightmode.Base.Int.{pos}
use imapped_lightmode.Text.{Text, eq}
use imapped_lightmode.Text.Case.{to_ascii_lowercase}
use imapped_lightmode.Text.Map.{lookup}
use imapped_lightmode.Auth.{
  MemoryLoginThrottle, StaticAuthenticator, AuthContext, fresh, or_fresh, is_blocked,
  record_failure, authenticate, credentials,
}
use imapped_lightmode.Auth.Throttle.{state_of, same_name}
use imapped_lightmode.Auth.Lockout.{record_failures, is_blocked-record_failures}
use imapped_lightmode.Auth.Authenticate.{authenticate_iff}
use imapped_lightmode.Auth.Guessing.{authenticate_all, authenticate-guessing}

abbrev ann : Text
ann = b'a' ∷ b'n' ∷ b'n' ∷ []

abbrev ann_upper : Text
ann_upper = b'A' ∷ b'n' ∷ b'N' ∷ []

abbrev throttle : MemoryLoginThrottle
throttle = record { attempts = []; max_failures = 2; lockout = 60 }

throttle-fresh : state_of throttle ann ≡ fresh
unfolding state_of lookup or_fresh
throttle-fresh = refl

names_agree : same_name ann ann_upper ≡ true
unfolding eq to_ascii_lowercase
names_agree = refl

is_blocked-record_failures_example :
    (is_blocked (record_failure (record_failures throttle ann (5 ∷ [])) 7 ann) 66 ann_upper).0
    ≡ ltb 66 (7 + 60)
is_blocked-record_failures_example =
    is_blocked-record_failures throttle ann ann_upper (5 ∷ []) 7 66 throttle-fresh (omega arith)
      (omega arith) names_agree

abbrev blocked : MemoryLoginThrottle
blocked = record {
  attempts = (ann, record { failures = 0; blocked_until = some 67 }) ∷ [];
  max_failures = 2;
  lockout = 60;
}

blocked-is_blocked : (is_blocked blocked 20 ann).0 ≡ true
unfolding is_blocked lookup to_ascii_lowercase eq
blocked-is_blocked = refl

-- A hash that is the password itself.
abbrev verify : Text → Text → Result Bool
unfolding eq
verify hash password = ok (eq hash password)

abbrev auth : StaticAuthenticator
auth = record { expected_username = ann; expected_password_hash = b'p' ∷ []; user_id = pos 1 }

abbrev context : AuthContext
context = record { user_id = pos 1; account_id = none; username = ann }

authenticate_iff_example :
    ((authenticate verify auth throttle 5 6 ann (b'p' ∷ [])).0 ≡ ok (some context))
    ↔ ((is_blocked throttle 5 ann).0 ≡ false)
      × (ann ≡ ann)
      × (verify (b'p' ∷ []) (b'p' ∷ []) ≡ ok true)
      × (context ≡ context)
authenticate_iff_example = authenticate_iff verify auth throttle 5 6 ann (b'p' ∷ []) context

wrong_password : credentials verify auth ann (b'x' ∷ []) ≡ ok false
unfolding credentials eq
wrong_password = refl

authenticate-guessing_example :
    (authenticate verify auth
      (authenticate verify auth
        (authenticate_all verify auth ann throttle ((5, 6, b'x' ∷ []) ∷ []))
        7
        8
        ann
        (b'x' ∷ [])).1
      60
      61
      ann
      (b'p' ∷ [])).0
    ≡ ok none
authenticate-guessing_example =
    authenticate-guessing verify auth ann throttle ((5, 6, b'x' ∷ []) ∷ []) 7 8 (b'x' ∷ []) 60 61
      (b'p' ∷ []) throttle-fresh (omega arith) (omega arith) (wrong_password, tt) wrong_password
      (omega arith)
