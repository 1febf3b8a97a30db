-- ===== src/Protocol/Command/Laws.antt =====
-- A command line is parsed to what it was written from.
use imapped_lightmode.Base.{
  ℕ, ◌≡◌, ◌≢◌, refl, ap, ◌∙◌, true, false, some, List, [], ◌∷◌, ◌++◌, arith, Result, All, le→leb,
  ◌≤◌, append-nil,
}
use imapped_lightmode.Text.{Text, is_whitespace}
use imapped_lightmode.Text.Trim.{
  trim_end_where, trim_end_where-append, trim_end_where-All, trim_end_where_self,
}
use imapped_lightmode.Protocol.Tokenize.{quote, quote_imap_string, tokenize}
use imapped_lightmode.Protocol.Tokenize.Laws.{
  space, is_plain, IsPlain, quoted_words, command_line, tokenize-command_line,
}
use imapped_lightmode.Protocol.Command.{is_line_end, parse_trimmed, parse_command}

control_is_whitespace : (c : ℕ) → 9 ≤ c → c ≤ 13 → is_whitespace c ≡ true
unfolding is_whitespace
control_is_whitespace c h k = rw (le→leb 9 c h, le→leb c 13 k)

plain_no_line_end : (c : ℕ) → is_plain c ≡ true → is_line_end c ≡ false
unfolding is_line_end
plain_no_line_end c h = ground (arith, control_is_whitespace c)

IsPlain-no_line_end : (s : Text) → IsPlain s → All (λ c. is_line_end c ≡ false) s
IsPlain-no_line_end [] h = tt
IsPlain-no_line_end (c ∷ s) h = (plain_no_line_end c h.0, IsPlain-no_line_end s h.1)

abbrev KeepsEnd : Text → Type 0
KeepsEnd s = trim_end_where is_line_end s ≡ s

KeepsEnd-append : (s t : Text) → t ≢ [] → KeepsEnd t → KeepsEnd (s ++ t)
KeepsEnd-append s [] n h = absurd (n refl)
KeepsEnd-append s (c ∷ t) n h = trim_end_where-append is_line_end s c t h

quote_imap_string-KeepsEnd : (s : Text) → KeepsEnd (quote_imap_string s)
unfolding quote_imap_string
quote_imap_string-KeepsEnd s =
    KeepsEnd-append (quote ∷ _) (quote ∷ []) (λ e. cc) (unfold trim_end_where is_line_end in refl)

quoted_words-KeepsEnd : (ts : List Text) → KeepsEnd (quoted_words ts)
quoted_words-KeepsEnd [] = unfold trim_end_where in refl
quoted_words-KeepsEnd (t ∷ []) = rw (append-nil (quote_imap_string t)) (
    KeepsEnd-append (space ∷ []) (quote_imap_string t) (unfold quote_imap_string in λ e. cc)
      (quote_imap_string-KeepsEnd t))
quoted_words-KeepsEnd (t ∷ u ∷ ts) =
    KeepsEnd-append (space ∷ quote_imap_string t) (quoted_words (u ∷ ts)) (λ e. cc)
      (quoted_words-KeepsEnd (u ∷ ts))

name-KeepsEnd :
    (name : Text) (args : List Text) → IsPlain name → KeepsEnd (name ++ quoted_words args)
name-KeepsEnd name [] p =
    rw (append-nil name) (trim_end_where_self is_line_end name (IsPlain-no_line_end name p))
name-KeepsEnd name (t ∷ ts) p =
    KeepsEnd-append name (quoted_words (t ∷ ts)) (λ e. cc) (quoted_words-KeepsEnd (t ∷ ts))

abbrev crlf : Text
crlf = 13 ∷ 10 ∷ []

command_line-KeepsEnd :
    (tag name : Text) (args : List Text)
    → IsPlain name
    → name ≢ []
    → KeepsEnd (command_line tag name args)
command_line-KeepsEnd tag [] args p n = absurd (n refl)
command_line-KeepsEnd tag (c ∷ name) args p n =
    KeepsEnd-append tag (space ∷ ((c ∷ name) ++ quoted_words args)) (λ e. cc)
      (KeepsEnd-append (space ∷ []) ((c ∷ name) ++ quoted_words args) (λ e. cc)
        (name-KeepsEnd (c ∷ name) args p))

trim-command_line :
    (tag name : Text) (args : List Text)
    → IsPlain name
    → name ≢ []
    → trim_end_where is_line_end (command_line tag name args ++ crlf) ≡ command_line tag name args
trim-command_line tag name args p n =
    trim_end_where-All is_line_end (command_line tag name args) crlf
      (unfold is_line_end in (refl, (refl, tt)))
    ∙ command_line-KeepsEnd tag name args p n

parse_trimmed-tokens :
    (line : Text) (tag name : Text) (args : List Text)
    → line ≢ []
    → tokenize line ≡ Result.ok (tag ∷ name ∷ args)
    → parse_trimmed line ≡ Result.ok (some (record { tag = tag; name = name; args = args }))
unfolding parse_trimmed
parse_trimmed-tokens [] tag name args n h = absurd (n refl)
parse_trimmed-tokens (c ∷ line) tag name args n h = rw h

command_line-ne-nil : (tag name : Text) (args : List Text) → command_line tag name args ≢ []
command_line-ne-nil [] name args e = cc
command_line-ne-nil (c ∷ tag) name args e = cc

-- A line that a client writes, a tag and a name of plain characters and any quoted arguments, ended
-- by CR LF, is parsed to that tag, that name and the arguments as they were before quoting.
pub parse_command-command_line :
    (tag name : Text) (args : List Text)
    → tag ≢ []
    → name ≢ []
    → IsPlain tag
    → IsPlain name
    → parse_command (command_line tag name args ++ crlf)
      ≡ Result.ok (some (record { tag = tag; name = name; args = args }))
unfolding parse_command
parse_command-command_line tag name args m n p q =
    ap parse_trimmed (trim-command_line tag name args q n)
    ∙ parse_trimmed-tokens (command_line tag name args) tag name args
        (command_line-ne-nil tag name args) (tokenize-command_line tag name args m n p q)
