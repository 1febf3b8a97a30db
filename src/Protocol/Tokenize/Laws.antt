-- ===== src/Protocol/Tokenize/Laws.antt =====
-- Tokenizing never fails, and reads quoted strings back.
use imapped_lightmode.Base.{
  ℕ, zero, suc, ◌+◌, ◌-◌, ◌≤◌, ◌<◌, ◌≡◌, refl, ap, sym, ◌∙◌, ◌≢◌, not, All, append-nil, Bool, true,
  false, ◌&&◌, List, [], ◌∷◌, ◌++◌, arith, ◌==◌, length, ok, inl, inr, Bool-cases, append_assoc,
  length-append,
}
use imapped_lightmode.Text.{Text, is_whitespace}
use imapped_lightmode.Text.Split.{replace_char}
use imapped_lightmode.Protocol.Tokenize.{
  quote, backslash, quoted, paren_step, bracket_step, atom, token_loop, tokenize, quote_imap_string,
}

length-quoted : (escaped : Bool) (s : Text) → length (quoted escaped s).1 ≤ length s
unfolding quoted
length-quoted escaped [] = omega arith
length-quoted true (c ∷ s) = ground (arith, length-quoted false s)
length-quoted false (c ∷ s) = ground (arith, length-quoted false s, length-quoted true s)

length-atom : (p b : ℕ) (s : Text) → length (atom p b s).1 ≤ length s
unfolding atom
length-atom p b [] = omega arith
length-atom p b (c ∷ s) = ground (arith, length-atom (paren_step p c) (bracket_step b c) s)

-- The first round of an unquoted token takes its character, since that is no whitespace.
atom_first :
    (c : ℕ) (s : Text)
    → is_whitespace c ≡ false
    → atom 0 0 (c ∷ s) ≡ (
      c ∷ (atom (paren_step 0 c) (bracket_step 0 c) s).0,
      (atom (paren_step 0 c) (bracket_step 0 c) s).1,
    )
unfolding atom
atom_first c s h = ground arith

token_loop_total :
    (fuel : ℕ) (input s : Text) (out : List Text)
    → length s < fuel
    → (ts : List Text) × (token_loop fuel input out s ≡ ok ts)
unfolding token_loop
token_loop_total fuel input [] out h = (out, refl)
token_loop_total zero input (c ∷ s) out h = absurd (omega arith)
token_loop_total (suc fuel) input (c ∷ s) out h = elim (Bool-cases (is_whitespace c)) [
  | inl space ↦ rw space (token_loop_total fuel input s out (omega arith))
  | inr other ↦
      rw (other, atom_first c s other)
        (elim (Bool-cases (c == quote)) [
          | inl opening ↦ rw opening (
              token_loop_total fuel input (quoted false s).1 (out ++ (quoted false s).0 ∷ [])
                (omega (arith, length-quoted false s)))
          | inr char ↦ rw char (
              token_loop_total fuel input (atom (paren_step 0 c) (bracket_step 0 c) s).1
                (out ++ (c ∷ (atom (paren_step 0 c) (bracket_step 0 c) s).0) ∷ [])
                (omega (arith, length-atom (paren_step 0 c) (bracket_step 0 c) s)))
        ])
]

-- Every line is tokenized: the error of `tokenize` is never raised, and the fuel is enough.
pub tokenize_total : (input : Text) → (ts : List Text) × (tokenize input ≡ ok ts)
unfolding tokenize
tokenize_total input = token_loop_total (suc (length input)) input input [] (omega arith)

-- The text between the quotes, as `quote_imap_string` writes it.
escape : Text → Text
escape s =
    replace_char quote (backslash ∷ quote ∷ [])
      (replace_char backslash (backslash ∷ backslash ∷ []) s)

quoted-escape : (s rest : Text) → quoted false (escape s ++ quote ∷ rest) ≡ (s, rest)
unfolding quoted escape replace_char
quoted-escape [] rest = refl
quoted-escape (c ∷ s) rest = ground (arith, quoted-escape s rest)

quote-quoted : (s rest : Text) → quote_imap_string s ++ rest ≡ quote ∷ (escape s ++ quote ∷ rest)
unfolding quote_imap_string escape
quote-quoted s rest = ap (λ t. quote ∷ t) (append_assoc (escape s) (quote ∷ []) rest)

token_loop-quoted :
    (fuel : ℕ) (input s rest : Text) (out : List Text)
    → token_loop (suc fuel) input out (quote_imap_string s ++ rest)
      ≡ token_loop fuel input (out ++ s ∷ []) rest
unfolding token_loop
token_loop-quoted fuel input s rest out =
    rw (quote-quoted s rest, quoted-escape s rest) (unfold is_whitespace in refl)

-- The words of a command line: a quoted string, or characters that need no quotes.
abbrev pub space : ℕ
space = 32

abbrev pub is_plain : ℕ → Bool
is_plain c =
    not (is_whitespace c)
    && not (c == quote)
    && not (c == b'(')
    && not (c == b')')
    && not (c == b'[')
    && not (c == b']')

abbrev pub IsPlain : Text → Type 0
IsPlain s = All (λ c. is_plain c ≡ true) s

space-is_whitespace : is_whitespace space ≡ true
unfolding is_whitespace
space-is_whitespace = refl

atom-IsPlain : (s rest : Text) → IsPlain s → atom 0 0 (s ++ space ∷ rest) ≡ (s, space ∷ rest)
unfolding atom
atom-IsPlain [] rest h = rw space-is_whitespace
atom-IsPlain (c ∷ s) rest h = ground (arith, atom-IsPlain s rest h.1)

atom_last-IsPlain : (s : Text) → IsPlain s → atom 0 0 s ≡ (s, [])
unfolding atom
atom_last-IsPlain [] h = refl
atom_last-IsPlain (c ∷ s) h = ground (arith, atom_last-IsPlain s h.1)

token_loop-space :
    (fuel : ℕ) (input rest : Text) (out : List Text)
    → token_loop (suc fuel) input out (space ∷ rest) ≡ token_loop fuel input out rest
unfolding token_loop is_whitespace
token_loop-space fuel input rest out = refl

-- A word is one token, whatever separated text follows it.
token_loop-plain :
    (fuel : ℕ) (input s rest : Text) (out : List Text)
    → s ≢ []
    → IsPlain s
    → token_loop (suc fuel) input out (s ++ space ∷ rest)
      ≡ token_loop fuel input (out ++ s ∷ []) (space ∷ rest)
unfolding token_loop
token_loop-plain fuel input [] rest out n h = absurd (n refl)
token_loop-plain fuel input (c ∷ s) rest out n h = ground (arith, atom-IsPlain (c ∷ s) rest h)

token_loop-plain_last :
    (fuel : ℕ) (input s : Text) (out : List Text)
    → s ≢ []
    → IsPlain s
    → token_loop (suc fuel) input out s ≡ token_loop fuel input (out ++ s ∷ []) []
unfolding token_loop
token_loop-plain_last fuel input [] out n h = absurd (n refl)
token_loop-plain_last fuel input (c ∷ s) out n h = ground (arith, atom_last-IsPlain (c ∷ s) h)

-- Quoted words behind spaces.
abbrev pub quoted_words : List Text → Text
quoted_words [] = []
quoted_words (t ∷ ts) = space ∷ (quote_imap_string t ++ quoted_words ts)

token_loop-quoted_words :
    (fuel : ℕ) (input : Text) (ts out : List Text)
    → length ts + length ts ≤ fuel
    → token_loop fuel input out (quoted_words ts) ≡ ok (out ++ ts)
token_loop-quoted_words fuel input [] out h = unfold token_loop in ap ok (sym (append-nil out))
token_loop-quoted_words zero input (t ∷ ts) out h = absurd (omega arith)
token_loop-quoted_words (suc zero) input (t ∷ ts) out h = absurd (omega arith)
token_loop-quoted_words (suc (suc fuel)) input (t ∷ ts) out h =
    token_loop-space (suc fuel) input (quote_imap_string t ++ quoted_words ts) out
    ∙ token_loop-quoted fuel input t (quoted_words ts) out
    ∙ token_loop-quoted_words fuel input ts (out ++ t ∷ []) (omega arith)
    ∙ ap ok (append_assoc out (t ∷ []) ts)

length-quoted_words : (ts : List Text) → length ts + length ts ≤ length (quoted_words ts)
unfolding quote_imap_string
length-quoted_words [] = omega arith
length-quoted_words (t ∷ ts) =
    omega (arith, length-quoted_words ts, length-append (quote_imap_string t) (quoted_words ts))

token_loop-name :
    (fuel : ℕ) (input name : Text) (args out : List Text)
    → name ≢ []
    → IsPlain name
    → length args + length args ≤ fuel
    → token_loop (suc fuel) input out (name ++ quoted_words args) ≡ ok ((out ++ name ∷ []) ++ args)
token_loop-name fuel input name [] out n p h = rw (append-nil name) (
    token_loop-plain_last fuel input name out n p
    ∙ token_loop-quoted_words fuel input [] (out ++ name ∷ []) h)
token_loop-name fuel input name (t ∷ ts) out n p h =
    token_loop-plain fuel input name (quote_imap_string t ++ quoted_words ts) out n p
    ∙ token_loop-quoted_words fuel input (t ∷ ts) (out ++ name ∷ []) h

-- A command line: a tag, a name and quoted arguments.
abbrev pub command_line : Text → Text → List Text → Text
command_line tag name args = tag ++ space ∷ (name ++ quoted_words args)

token_loop-command_line :
    (fuel : ℕ) (input tag name : Text) (args : List Text)
    → tag ≢ []
    → name ≢ []
    → IsPlain tag
    → IsPlain name
    → length args + length args ≤ fuel
    → token_loop (suc (suc (suc fuel))) input [] (command_line tag name args)
      ≡ ok (tag ∷ name ∷ args)
token_loop-command_line fuel input tag name args m n p q h =
    token_loop-plain (suc (suc fuel)) input tag (name ++ quoted_words args) [] m p
    ∙ token_loop-space (suc fuel) input (name ++ quoted_words args) (tag ∷ [])
    ∙ token_loop-name fuel input name args (tag ∷ []) n q h

length_pos : (s : Text) → s ≢ [] → 0 < length s
length_pos [] n = absurd (n refl)
length_pos (c ∷ s) n = omega arith

-- The tokens of a command line are its tag, its name and the arguments as they were before quoting.
pub tokenize-command_line :
    (tag name : Text) (args : List Text)
    → tag ≢ []
    → name ≢ []
    → IsPlain tag
    → IsPlain name
    → tokenize (command_line tag name args) ≡ ok (tag ∷ name ∷ args)
tokenize-command_line tag name args m n p q =
    tokenize_lem (command_line tag name args)
    ∙ ap (λ k. token_loop k (command_line tag name args) [] (command_line tag name args)) fuel_eq
    ∙ token_loop-command_line fuel (command_line tag name args) tag name args m n p q enough
  where
    fuel : ℕ
    fuel = length (command_line tag name args) - 2

    tokenize_lem : (s : Text) → tokenize s ≡ token_loop (suc (length s)) s [] s
    tokenize_lem s = unfold tokenize in refl

    length_line :
        length (command_line tag name args)
        ≡ length tag + suc (length name + length (quoted_words args))
    length_line = omega (
      arith,
      length-append tag (space ∷ (name ++ quoted_words args)),
      length-append name (quoted_words args),
    )

    fuel_eq : suc (length (command_line tag name args)) ≡ suc (suc (suc fuel))
    fuel_eq = omega (arith, length_line, length_pos tag m, length_pos name n)

    enough : length args + length args ≤ fuel
    enough =
        omega (arith, length_line, length_pos tag m, length_pos name n, length-quoted_words args)
