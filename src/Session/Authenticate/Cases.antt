-- ===== src/Session/Authenticate/Cases.antt =====
-- AUTHENTICATE of crates/imap-server/src/imap.rs: what can come of it.
use imapped_lightmode.Base.{
  Bool, true, false, Option, none, some, List, [], ◌∷◌, if◌then◌else◌, Result,
}
use imapped_lightmode.Text.{Text, lit}
use imapped_lightmode.Text.Case.{to_ascii_uppercase}
use imapped_lightmode.Session.{Services, World, Reply}
use imapped_lightmode.Session.Authenticate.{
  Sasl, authenticate_as, authenticate_prompted, authenticate_by, authenticate_args,
  handle_authenticate_command,
}

-- What holds of a world, and of the worlds that `authenticate_as` gives, holds behind AUTHENTICATE.
module _ (sasl : Sasl) (services : Services) (P : World → Type 0) (tag : Text)
    (response : Option Text) (w : World) (same : P w)
    (given : (sent : List Text) (r : Result (Text × Text))
      → P (authenticate_as services tag sent w r).1) where
  if_cases : (b : Bool) (x y : Reply × World) → P x.1 → P y.1 → P (if b then x else y).1
  if_cases true x y hx hy = hx
  if_cases false x y hx hy = hy

  prompted_cases :
      (mechanism : Text) (line : Option Text)
      → P (authenticate_prompted sasl services tag mechanism line w).1
  unfolding authenticate_prompted
  prompted_cases mechanism none = same
  prompted_cases mechanism (some line) = if_cases _ _ _ same (given (lit "+ " ∷ []) _)

  by_cases :
      (mechanism : Text) (args : List Text)
      → P (authenticate_by sasl services tag mechanism args response w).1
  unfolding authenticate_by
  by_cases mechanism [] = prompted_cases mechanism response
  by_cases mechanism (initial ∷ []) = given [] _
  by_cases mechanism (initial ∷ next ∷ args) = same

  args_cases : (args : List Text) → P (authenticate_args sasl services tag args response w).1
  unfolding authenticate_args
  args_cases [] = same
  args_cases (mechanism ∷ args) = if_cases _ _ _ (by_cases (to_ascii_uppercase mechanism) args) same

  pub authenticate_cases :
      (name : Text) (args : List Text)
      → P
          (handle_authenticate_command sasl services
            (record { tag = tag; name = name; args = args })
            response
            w).1
  unfolding handle_authenticate_command
  authenticate_cases name args = if_cases _ _ _ (args_cases args) same
