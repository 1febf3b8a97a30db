-- ===== src/Protocol/Command.antt =====
-- `parse_command` of crates/protocol/src/lib.rs.
pub mod Laws
use imapped_lightmode.Base.{
  ℕ, Bool, ◌||◌, Option, none, some, List, [], ◌∷◌, ◌++◌, ◌==◌, if◌then◌else◌, is_empty, Error,
  parse_error, Result, ok, err, ◌>>=◌,
}
use imapped_lightmode.Text.{Text, lit}
use imapped_lightmode.Text.Trim.{trim_end_where}
use imapped_lightmode.Protocol.{ParsedCommand}
use imapped_lightmode.Protocol.Tokenize.{tokenize}

unfoldable pub is_line_end : ℕ → Bool
is_line_end c = c == 13 || c == 10

-- The first two tokens and the rest.
unfoldable pub from_tokens : Text → List Text → Result (Option ParsedCommand)
from_tokens line (tag ∷ name ∷ args) = ok (some (record { tag = tag; name = name; args = args }))
from_tokens line few = err (parse_error (lit "expected tag and command: " ++ line))

unfoldable pub parse_trimmed : Text → Result (Option ParsedCommand)
unfolding from_tokens tokenize
parse_trimmed [] = ok none
parse_trimmed (c ∷ line) = do tokens ← tokenize (c ∷ line); from_tokens (c ∷ line) tokens

unfoldable pub parse_command : Text → Result (Option ParsedCommand)
unfolding parse_trimmed trim_end_where is_line_end
parse_command line = parse_trimmed (trim_end_where is_line_end line)
