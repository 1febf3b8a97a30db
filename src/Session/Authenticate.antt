-- ===== src/Session/Authenticate.antt =====
-- crates/imap-server/src/imap.rs: AUTHENTICATE PLAIN and AUTHENTICATE XOAUTH2. The line that the client sends on
-- the prompt `+ ` is an argument; there is none when the connection is closed. The reply to an error does
-- not repeat the prompt, which was sent before.
pub mod Cases
pub mod Coherent
use imapped_lightmode.Base.{
  ◌||◌, Option, none, some, List, [], ◌∷◌, ◌++◌, ◌==◌, if◌then◌else◌, ◌⊎◌, inl, inr, parse_error,
  Result, ok, err, ◌>>=◌,
}
use imapped_lightmode.Text.{Text, lit, eq}
use imapped_lightmode.Text.Case.{to_ascii_uppercase}
use imapped_lightmode.Text.Split.{split}
use imapped_lightmode.Text.Trim.{trim_end_where, strip_prefix}
use imapped_lightmode.Protocol
use imapped_lightmode.Protocol.{ParsedCommand, bad, no}
use imapped_lightmode.Auth.{AuthContext}
use imapped_lightmode.Session.{Services, World, Reply}
use imapped_lightmode.Session.Greeting.{is_not_authenticated, activate_authenticated_session}

-- What is used of other libraries: the decoder of base64, with the text of its error on the left, and
-- `std::str::from_utf8`.
pub record Sasl : Type 0 where
  pub decode : Text → Text ⊎ Text
  pub from_utf8 : Text → Result Text

unfoldable pub decoded : Text ⊎ Text → Result Text
decoded (inl problem) = err (parse_error (lit "invalid base64 SASL response: " ++ problem))
decoded (inr bytes) = ok bytes

-- The user and the bearer, of which the last that is given counts.
unfoldable pub read_segment : Text → Option Text × Option Text → Option Text × Option Text
unfolding strip_prefix
read_segment segment (username, bearer) = elim (strip_prefix (lit "user=") segment) [
  | some value ↦ (some value, bearer)
  | none ↦ elim (strip_prefix (lit "auth=Bearer ") segment) [
    | some value ↦ (username, some value)
    | none ↦ (username, bearer)
  ]
]

unfoldable pub read_segments : List Text → Option Text × Option Text → Option Text × Option Text
unfolding read_segment
read_segments [] found = found
read_segments (segment ∷ segments) found = read_segments segments (read_segment segment found)

unfoldable pub user_and_bearer : Option Text × Option Text → Result (Text × Text)
user_and_bearer (none, bearer) =
    err (parse_error (lit "AUTHENTICATE XOAUTH2 response missing user"))
user_and_bearer (some username, none) =
    err (parse_error (lit "AUTHENTICATE XOAUTH2 response missing bearer token"))
user_and_bearer (some username, some bearer) = ok (username, bearer)

unfoldable pub canceled : Text → List Text
unfolding bad
canceled tag = bad tag (lit "AUTHENTICATE canceled") ∷ []

unfoldable pub authenticate_result :
    Services → Text → List Text → World → Result (Option AuthContext) → Reply × World
unfolding activate_authenticated_session Protocol.ok no
authenticate_result services tag sent w (err e) = (err e, w)
authenticate_result services tag sent w (ok none) =
    (ok (sent ++ no tag (lit "AUTHENTICATIONFAILED") (lit "invalid credentials") ∷ []), w)
authenticate_result services tag sent w (ok (some context)) = (
  ok (sent ++ Protocol.ok tag (lit "AUTHENTICATE completed") ∷ []),
  activate_authenticated_session services context w,
)

unfoldable pub authenticate_as :
    Services → Text → List Text → World → Result (Text × Text) → Reply × World
unfolding authenticate_result
authenticate_as services tag sent w (err e) = (err e, w)
authenticate_as services tag sent w (ok (authcid, password)) =
    authenticate_result services tag sent w (services.authenticate authcid password)

module _ (sasl : Sasl) where
  unfoldable pub decode_sasl_response : Text → Result Text
  unfolding decoded
  decode_sasl_response value = decoded (sasl.decode value)

  -- The parts that a byte 0 separates.
  unfoldable pub plain_parts : List Text → Result (Text × Text)
  plain_parts (authzid ∷ authcid ∷ password ∷ parts) = do
    name ← sasl.from_utf8 authcid
    secret ← sasl.from_utf8 password
    ok (name, secret)
  plain_parts (authzid ∷ authcid ∷ []) =
      err (parse_error (lit "AUTHENTICATE PLAIN response missing password"))
  plain_parts (authzid ∷ []) = err (parse_error (lit "AUTHENTICATE PLAIN response missing authcid"))
  plain_parts [] = err (parse_error (lit "AUTHENTICATE PLAIN response missing authcid"))

  unfoldable pub parse_sasl_plain_auth : Text → Result (Text × Text)
  unfolding plain_parts
  parse_sasl_plain_auth auth_blob = plain_parts (split 0 auth_blob)

  unfoldable pub parse_sasl_xoauth2_auth : Text → Result (Text × Text)
  unfolding read_segments user_and_bearer
  parse_sasl_xoauth2_auth auth_blob = do
    text ← sasl.from_utf8 auth_blob
    user_and_bearer (read_segments (split 1 text) (none, none))

  unfoldable pub parse_sasl : Text → Text → Result (Text × Text)
  unfolding parse_sasl_plain_auth parse_sasl_xoauth2_auth
  parse_sasl mechanism auth_blob =
      if eq mechanism (lit "XOAUTH2")
      then parse_sasl_xoauth2_auth auth_blob
      else parse_sasl_plain_auth auth_blob

  -- The answer to the prompt.
  unfoldable pub authenticate_prompted :
      Services → Text → Text → Option Text → World → Reply × World
  unfolding authenticate_as canceled decode_sasl_response parse_sasl
  authenticate_prompted services tag mechanism none w = (ok (lit "+ " ∷ canceled tag), w)
  authenticate_prompted services tag mechanism (some line) w =
      let response = trim_end_where (λ c. c == b'\r' || c == b'\n') line in
      if eq response (lit "*")
      then (ok (lit "+ " ∷ canceled tag), w)
      else authenticate_as services tag (lit "+ " ∷ []) w
          (decode_sasl_response response >>= parse_sasl mechanism)

  -- The arguments behind the name of the mechanism, which is in upper case.
  unfoldable pub authenticate_by :
      Services → Text → Text → List Text → Option Text → World → Reply × World
  unfolding authenticate_prompted bad
  authenticate_by services tag mechanism [] response w =
      authenticate_prompted services tag mechanism response w
  authenticate_by services tag mechanism (initial ∷ []) response w =
      authenticate_as services tag [] w (
        (if eq initial (lit "=") then ok [] else decode_sasl_response initial)
        >>= parse_sasl mechanism)
  authenticate_by services tag mechanism (initial ∷ next ∷ args) response w =
      (ok (bad tag (lit "AUTHENTICATE accepts at most one initial response") ∷ []), w)

  unfoldable pub authenticate_args :
      Services → Text → List Text → Option Text → World → Reply × World
  unfolding authenticate_by bad no
  authenticate_args services tag [] response w =
      (ok (bad tag (lit "AUTHENTICATE requires a mechanism") ∷ []), w)
  authenticate_args services tag (mechanism ∷ args) response w =
      let upper = to_ascii_uppercase mechanism in
      if eq upper (lit "PLAIN") || eq upper (lit "XOAUTH2")
      then authenticate_by services tag upper args response w
      else (
        ok (
            no tag (lit "UNIMPLEMENTED")
              (lit "AUTHENTICATE " ++ (mechanism ++ lit " is not yet implemented"))
            ∷ []),
        w,
      )

  unfoldable pub handle_authenticate_command :
      Services → ParsedCommand → Option Text → World → Reply × World
  unfolding authenticate_args is_not_authenticated no
  handle_authenticate_command services command response w =
      if is_not_authenticated w.session.state
      then authenticate_args services command.tag command.args response w
      else (
        ok (
            no command.tag (lit "BADSTATE")
              (lit "AUTHENTICATE requires a not-authenticated session")
            ∷ []),
        w,
      )
