-- ===== src/Session/Authenticate/Coherent.antt =====
-- AUTHENTICATE of crates/imap-server/src/imap.rs keeps a session coherent.
use imapped_lightmode.Base.{refl, Option, none, some, List, Result, ok, err}
use imapped_lightmode.Base.Int.{ℤ}
use imapped_lightmode.Text.{Text}
use imapped_lightmode.Auth.{AuthContext}
use imapped_lightmode.Session.{Services, World}
use imapped_lightmode.Session.Greeting.{count_login, activate_authenticated_session}
use imapped_lightmode.Session.Invariant.{
  snapshot_fits, IsCoherent, count_login-IsCoherent, record_session-IsCoherent,
}
use imapped_lightmode.Protocol.{ParsedCommand}
use imapped_lightmode.Session.Authenticate.{
  Sasl, authenticate_result, authenticate_as, handle_authenticate_command,
}
use imapped_lightmode.Session.Authenticate.Cases.{authenticate_cases}

module _ (base : ℤ) where
  authenticate_result-IsCoherent :
      (services : Services) (tag : Text) (sent : List Text) (w : World)
      (r : Result (Option AuthContext))
      → IsCoherent base w
      → IsCoherent base (authenticate_result services tag sent w r).1
  unfolding authenticate_result activate_authenticated_session snapshot_fits
  authenticate_result-IsCoherent services tag sent w (err e) c = c
  authenticate_result-IsCoherent services tag sent w (ok none) c = c
  authenticate_result-IsCoherent services tag sent w (ok (some context)) c =
      let counted_login = count_login-IsCoherent base w c in
      record {
        fits = refl;
        counts =
            (record_session-IsCoherent base services context (count_login w) counted_login).counts;
      }

  authenticate_as-IsCoherent :
      (services : Services) (tag : Text) (sent : List Text) (w : World) (r : Result (Text × Text))
      → IsCoherent base w
      → IsCoherent base (authenticate_as services tag sent w r).1
  unfolding authenticate_as
  authenticate_as-IsCoherent services tag sent w (err e) c = c
  authenticate_as-IsCoherent services tag sent w (ok (authcid, password)) c =
      authenticate_result-IsCoherent services tag sent w (services.authenticate authcid password) c

  pub authenticate-IsCoherent :
      (services : Services) (sasl : Sasl) (command : ParsedCommand) (response : Option Text)
      (w : World)
      → IsCoherent base w
      → IsCoherent base (handle_authenticate_command sasl services command response w).1
  authenticate-IsCoherent services sasl command response w c =
      authenticate_cases sasl services (IsCoherent base) command.tag response w c
        (λ sent r. authenticate_as-IsCoherent services command.tag sent w r c) command.name
        command.args
