-- ===== src/Search/Parser/Laws.antt =====
-- The recursion of `ImapSearchParser` of crates/search/src/lib.rs: what a term takes of the tokens, and
-- that the fuel does not matter once it exceeds their number.
use imapped_lightmode.Base.{
  ℕ, zero, suc, ◌≡◌, ◌≢◌, ◌<◌, ◌≤◌, ◌-◌, refl, subst, ap, ◌∙◌, Bool, true, false, Option, List, [],
  ◌∷◌, arith, length, if◌then◌else◌, Error, Result, ok, err, ◌>>=◌, ok_or,
}
use imapped_lightmode.Text.{Text, lit}
use imapped_lightmode.Text.Case.{to_ascii_uppercase, eq_ignore_ascii_case}
use imapped_lightmode.Text.Decimal.{parse_u64}
use imapped_lightmode.Search.{Criteria, SearchExpr, or, negation, SearchQuery, all_query}
use imapped_lightmode.Search.UidRange.{parse_uid_set}
use imapped_lightmode.Search.Parser.{
  Parsed, next_or, expect_term, with_term, text_key, header_key, size_key, date_key,
  parse_imap_date, parse_key, uid_key, as_leaf, parse_term, parse_terms, add_term, add_terms,
  from_imap_args, finish_query, query,
}

-- What is left is no longer than `n`, if the parse succeeds.
pub data Leaves {A : Type 0} (n : ℕ) : Parsed A → Type 0 where
  failed : {e : Error} → Leaves n (err e)
  left : {r : A × List Text} → length r.1 ≤ n → Leaves n (ok r)

Leaves-if :
    {A : Type 0} {n : ℕ} (b : Bool) {x y : Parsed A}
    → Leaves n x
    → Leaves n y
    → Leaves n (if b then x else y)
Leaves-if true hx hy = hx
Leaves-if false hx hy = hy

Leaves-bind :
    {A B : Type 0} {n : ℕ} {m : Parsed A} {f : A × List Text → Parsed B}
    → Leaves n m
    → ((r : A × List Text) → length r.1 ≤ n → Leaves n (f r))
    → Leaves n (m >>= f)
Leaves-bind failed k = failed
Leaves-bind (left {r} h) k = k r h

Leaves-pure :
    {A C : Type 0} {n : ℕ} (m : Result C) (g : C → A) (tokens : List Text)
    → length tokens ≤ n
    → Leaves n (m >>= λ c. ok (g c, tokens))
Leaves-pure (err e) g tokens h = failed
Leaves-pure (ok c) g tokens h = left h

Leaves-weaken :
    {A : Type 0} {m n : ℕ} {parsed : Parsed A} → Leaves m parsed → m ≤ n → Leaves n parsed
Leaves-weaken failed k = failed
Leaves-weaken (left h) k = left (omega arith)

Leaves-left : {A : Type 0} {n : ℕ} (r : A × List Text) → Leaves n (ok r) → length r.1 ≤ n
Leaves-left r (left h) = h

Leaves-ok :
    {A : Type 0} {n : ℕ} {a : A} {tokens : List Text}
    → length tokens ≤ n
    → Leaves n (ok (a, tokens))
Leaves-ok h = left h

Leaves-next_or :
    {n : ℕ} (problem : Error) (tokens : List Text)
    → length tokens ≤ n
    → Leaves n (next_or problem tokens)
unfolding next_or
Leaves-next_or problem [] h = failed
Leaves-next_or problem (t ∷ tokens) h = left (omega arith)

Leaves-expect_term :
    {n : ℕ} (tokens : List Text) → length tokens ≤ n → Leaves n (expect_term tokens)
unfolding expect_term
Leaves-expect_term tokens h = Leaves-next_or _ tokens h

Leaves-with_term :
    {n : ℕ} (f : Text → Criteria) (tokens : List Text)
    → length tokens ≤ n
    → Leaves n (with_term f tokens)
unfolding with_term
Leaves-with_term f tokens h = Leaves-bind (Leaves-expect_term tokens h) (λ r k. Leaves-ok k)

Leaves-text_key :
    {n : ℕ} (field : Text) (tokens : List Text)
    → length tokens ≤ n
    → Leaves n (text_key field tokens)
unfolding text_key
Leaves-text_key field tokens h = Leaves-with_term _ tokens h

Leaves-header_key : {n : ℕ} (tokens : List Text) → length tokens ≤ n → Leaves n (header_key tokens)
unfolding header_key
Leaves-header_key tokens h =
    Leaves-bind (Leaves-expect_term tokens h)
      (λ r k. Leaves-bind (Leaves-expect_term r.1 k) (λ s l. Leaves-ok l))

Leaves-size_key :
    {n : ℕ} (message : Text) (f : ℕ → Criteria) (tokens : List Text)
    → length tokens ≤ n
    → Leaves n (size_key message f tokens)
unfolding size_key
Leaves-size_key message f tokens h =
    Leaves-bind (Leaves-expect_term tokens h) (λ r k. Leaves-pure (ok_or (parse_u64 r.0) _) f r.1 k)

Leaves-uid_key : {n : ℕ} (tokens : List Text) → length tokens ≤ n → Leaves n (uid_key tokens)
unfolding uid_key
Leaves-uid_key tokens h =
    Leaves-bind (Leaves-next_or _ tokens h) (λ r k. Leaves-pure (parse_uid_set r.0) _ r.1 k)

Leaves-as_leaf : {n : ℕ} (parsed : Parsed Criteria) → Leaves n parsed → Leaves n (as_leaf parsed)
unfolding as_leaf
Leaves-as_leaf parsed h = Leaves-bind h (λ r k. Leaves-ok k)

module _ (parse_from_str : Text → Option ℕ) where
  Leaves-date_key :
      {n : ℕ} (f : ℕ → Criteria) (tokens : List Text)
      → length tokens ≤ n
      → Leaves n (date_key parse_from_str f tokens)
  unfolding date_key
  Leaves-date_key f tokens h =
      Leaves-bind (Leaves-expect_term tokens h)
        (λ r k. Leaves-pure (parse_imap_date parse_from_str r.0) f r.1 k)

  Leaves-parse_key :
      {n : ℕ} (key : Text) (tokens : List Text)
      → length tokens ≤ n
      → Leaves n (parse_key parse_from_str key tokens)
  unfolding parse_key
  Leaves-parse_key key tokens h =
      search
        (
          Leaves-if, Leaves-ok, Leaves-with_term, Leaves-text_key, Leaves-header_key,
          Leaves-size_key, Leaves-date_key, h,
        )
        depth 40

  pub Leaves-parse_term :
      (fuel : ℕ) (tokens : List Text)
      → Leaves (length tokens - 1) (parse_term parse_from_str fuel tokens)
  unfolding parse_term
  Leaves-parse_term zero tokens = failed
  Leaves-parse_term (suc fuel) [] = failed
  Leaves-parse_term (suc fuel) (token ∷ tokens) =
      let inner : Leaves (length tokens) (parse_term parse_from_str fuel tokens) =
        Leaves-weaken (Leaves-parse_term fuel tokens) (omega arith) in
      let here : length tokens ≤ suc (length tokens) - 1 = omega arith in
      Leaves-weaken
        (Leaves-if (eq_ignore_ascii_case token (lit "NOT")) (Leaves-bind inner (λ r k. left k)) (
          Leaves-if (eq_ignore_ascii_case token (lit "OR"))
            (Leaves-bind inner (λ r k.
              Leaves-bind (Leaves-weaken (Leaves-parse_term fuel r.1) (omega arith))
                (λ s l. left l)))
            (Leaves-if (eq_ignore_ascii_case token (lit "UID"))
              (Leaves-as_leaf (uid_key tokens) (Leaves-uid_key tokens (omega arith)))
              (Leaves-as_leaf (parse_key parse_from_str (to_ascii_uppercase token) tokens)
                (Leaves-parse_key (to_ascii_uppercase token) tokens (omega arith))))))
        here

  -- Binding a parse by two continuations that agree where it leaves at most `n` tokens.
  bind-agree :
      {A B : Type 0} {n : ℕ} {m : Parsed A} (f g : A × List Text → Parsed B)
      → Leaves n m
      → ((r : A × List Text) → length r.1 ≤ n → f r ≡ g r)
      → (m >>= f) ≡ (m >>= g)
  bind-agree f g failed k = refl
  bind-agree f g (left {r} h) k = k r h

  join_or : SearchExpr → SearchExpr × List Text → Parsed SearchExpr
  join_or first second = ok (or first second.0, second.1)

  -- The second operand of OR.
  right_of : ℕ → SearchExpr × List Text → Parsed SearchExpr
  right_of fuel first = parse_term parse_from_str fuel first.1 >>= join_or first.0

  -- Every amount of fuel above the number of the tokens gives the same term.
  parse_term_enough :
      (f g : ℕ) (tokens : List Text)
      → length tokens < f
      → length tokens < g
      → parse_term parse_from_str f tokens ≡ parse_term parse_from_str g tokens
  unfolding parse_term right_of join_or
  parse_term_enough zero g tokens h k = absurd (omega arith)
  parse_term_enough (suc f) zero tokens h k = absurd (omega arith)
  parse_term_enough (suc f) (suc g) [] h k = refl
  parse_term_enough (suc f) (suc g) (token ∷ tokens) h k =
      let inner : parse_term parse_from_str f tokens ≡ parse_term parse_from_str g tokens =
        parse_term_enough f g tokens (omega arith) (omega arith) in
      let both =
        ap (λ m. m >>= right_of f) inner
        ∙ bind-agree (right_of f) (right_of g) (Leaves-parse_term g tokens) (λ r l.
          ap (λ m. m >>= join_or r.0) (parse_term_enough f g r.1 (omega arith) (omega arith))) in
      λ j.
        if eq_ignore_ascii_case token (lit "NOT")
        then inner j >>= (λ (r : SearchExpr × List Text). ok (negation r.0, r.1))
        else if eq_ignore_ascii_case token (lit "OR")
        then both j
        else if eq_ignore_ascii_case token (lit "UID")
        then as_leaf (uid_key tokens)
        else as_leaf (parse_key parse_from_str (to_ascii_uppercase token) tokens)

  -- The terms that the tokens read as, one after the other.
  pub data Terms : List Text → List SearchExpr → Type 0 where
    done : Terms [] []
    next :
        {token : Text} {tokens rest : List Text} {e : SearchExpr} {es : List SearchExpr}
        → parse_term parse_from_str (suc (suc (length tokens))) (token ∷ tokens) ≡ ok (e, rest)
        → Terms rest es
        → Terms (token ∷ tokens) (e ∷ es)

  pub parse_term-shorter :
      (fuel : ℕ) (token : Text) (tokens rest : List Text) (e : SearchExpr)
      → parse_term parse_from_str fuel (token ∷ tokens) ≡ ok (e, rest)
      → length rest ≤ length tokens
  parse_term-shorter fuel token tokens rest e h = omega (
    arith,
    Leaves-left (e, rest)
        (subst (Leaves (suc (length tokens) - 1)) h (Leaves-parse_term fuel (token ∷ tokens))),
  )

  -- The loop of the parser gathers exactly these terms.
  pub parse_terms-Terms :
      (fuel : ℕ) (acc : Criteria × List SearchExpr) {tokens : List Text} {es : List SearchExpr}
      → Terms tokens es
      → length tokens ≤ fuel
      → parse_terms parse_from_str fuel acc tokens ≡ ok (add_terms acc es)
  unfolding parse_terms add_terms
  parse_terms-Terms fuel acc done h = refl
  parse_terms-Terms zero acc (next {token} {tokens} {rest} {e} {es} p t) h = absurd (omega arith)
  parse_terms-Terms (suc fuel) acc (next {token} {tokens} {rest} {e} {es} p t) h =
      let term =
        parse_term_enough (suc (suc fuel)) (suc (suc (length tokens))) (token ∷ tokens)
          (omega arith) (omega arith)
        ∙ p in
      let shorter = parse_term-shorter (suc (suc (length tokens))) token tokens rest e p in
      rw term (parse_terms-Terms fuel (add_term e acc) t (omega arith))

  -- Tokens that read as terms are a request, and the query of these terms is its result.
  pub from_imap_args-Terms :
      {tokens : List Text} {es : List SearchExpr}
      → Terms tokens es
      → (q : SearchQuery) × (from_imap_args parse_from_str tokens ≡ ok q)
        × (es ≢ [] → q ≡ finish_query (add_terms (query, []) es))
        × (es ≡ [] → q ≡ all_query)
  unfolding from_imap_args
  from_imap_args-Terms done = (all_query, refl, λ n. absurd (n refl), λ e. refl)
  from_imap_args-Terms (next {token} {tokens} {rest} {e} {es} p t) =
      let run = parse_terms-Terms (suc (length tokens)) (query, []) (next p t) (omega arith) in
      (finish_query (add_terms (query, []) (e ∷ es)), rw run refl, λ n. refl, λ n. cc)
