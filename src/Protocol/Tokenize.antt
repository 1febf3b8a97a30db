-- ===== src/Protocol/Tokenize.antt =====
-- `tokenize` and `quote_imap_string` of crates/protocol/src/lib.rs. The cursor of the source is the
-- list of the characters that are left.
pub mod Laws
use imapped_lightmode.Base.{
  ℕ, zero, suc, ◌+◌, ◌-◌, ◌≡◌, refl, Bool, true, false, ◌&&◌, List, [], ◌∷◌, ◌++◌, ◌==◌,
  if◌then◌else◌, is_empty, length, Error, parse_error, external, Result, ok, err,
}
use imapped_lightmode.Text.{Text, lit, is_whitespace}
use imapped_lightmode.Text.Split.{replace_char}

abbrev pub quote : ℕ
quote = 34

abbrev pub backslash : ℕ
backslash = 92

unfoldable pub push : ℕ → Text × Text → Text × Text
push c (token, rest) = (c ∷ token, rest)

-- The loop behind an opening quote: the token, and what is left. `escaped` says that the last
-- character was a backslash, so that the next one is taken as it is.
unfoldable pub quoted : Bool → Text → Text × Text
unfolding push
quoted escaped [] = ([], [])
quoted true (c ∷ s) = push c (quoted false s)
quoted false (c ∷ s) =
    let after_escape = quoted true s in
    let after_char = push c (quoted false s) in
    if c == quote then ([], s) else if c == backslash then after_escape else after_char

unfoldable pub paren_step : ℕ → ℕ → ℕ
paren_step depth c = if c == b'(' then depth + 1 else if c == b')' then depth - 1 else depth

unfoldable pub bracket_step : ℕ → ℕ → ℕ
bracket_step depth c = if c == b'[' then depth + 1 else if c == b']' then depth - 1 else depth

-- The loop over an unquoted token: it ends before a whitespace outside all parentheses.
unfoldable pub atom : ℕ → ℕ → Text → Text × Text
unfolding push paren_step bracket_step
atom parens brackets [] = ([], [])
atom parens brackets (c ∷ s) =
    if is_whitespace c && parens == 0 && brackets == 0
    then ([], c ∷ s)
    else push c (atom (paren_step parens c) (bracket_step brackets c) s)

-- The outer loop, on fuel. Each round consumes a character, so more fuel than characters is enough;
-- running out has an error of its own, which belongs to the model only.
unfoldable pub token_loop : ℕ → Text → List Text → Text → Result (List Text)
token_loop fuel input out [] = ok out
token_loop zero input out (c ∷ s) = err (external (lit "out of fuel"))
token_loop (suc fuel) input out (c ∷ s) =
    let skip = token_loop fuel input out s in
    let (inside, behind) = quoted false s in
    let (token, rest) = atom 0 0 (c ∷ s) in
    let take_quoted = token_loop fuel input (out ++ inside ∷ []) behind in
    let take_atom = token_loop fuel input (out ++ token ∷ []) rest in
    if is_whitespace c
    then skip
    else if c == quote
    then take_quoted
    else if is_empty token
    then err (parse_error (lit "failed to tokenize IMAP command: " ++ input))
    else take_atom

unfoldable pub tokenize : Text → Result (List Text)
unfolding token_loop quoted atom
tokenize input = token_loop (suc (length input)) input [] input

unfoldable pub quote_imap_string : Text → Text
unfolding replace_char
quote_imap_string value =
    let escaped =
      replace_char quote (backslash ∷ quote ∷ [])
        (replace_char backslash (backslash ∷ backslash ∷ []) value) in
    quote ∷ (escaped ++ quote ∷ [])
