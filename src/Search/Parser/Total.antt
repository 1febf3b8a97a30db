-- ===== src/Search/Parser/Total.antt =====
-- `ImapSearchParser` of crates/search/src/lib.rs comes to an end: the fuel of the model is enough.
use imapped_lightmode.Base.{
  ℕ, zero, suc, ◌≡◌, ◌<◌, ◌≤◌, ◌⊎◌, inl, inr, refl, Bool, true, false, Option, none, some, List, [],
  ◌∷◌, arith, length, if◌then◌else◌, parse_error, Result, ok, err, ◌>>=◌, ok_or,
}
use imapped_lightmode.Text.{Text, lit}
use imapped_lightmode.Text.Case.{to_ascii_uppercase, eq_ignore_ascii_case}
use imapped_lightmode.Text.Decimal.{u64_max, parse_u64}
use imapped_lightmode.Text.Split.{split, split_once}
use imapped_lightmode.Search.{UidSet, Criteria, SearchExpr, SearchQuery, push}
use imapped_lightmode.Search.UidRange.{
  numeric_bound, parse_uid_bound, unwrap_or, push_part, push_parts, parse_uid_set,
}
use imapped_lightmode.Search.Parser.{
  Parsed, next_or, expect_term, with_term, text_key, header_key, size_key, date_key,
  parse_imap_date, parse_key, uid_key, as_leaf, parse_term, parse_terms, add_term, from_imap_args,
  query,
}
use imapped_lightmode.Search.Parser.Laws.{Leaves, failed, left, Leaves-parse_term}

-- A value, or an error of the parser's own.
data Reads {A : Type 0} : Result A → Type 0 where
  read : {a : A} → Reads (ok a)
  refused : {message : Text} → Reads (err (parse_error message))

Reads-if : {A : Type 0} (b : Bool) {x y : Result A} → Reads x → Reads y → Reads (if b then x else y)
Reads-if true hx hy = hx
Reads-if false hx hy = hy

Reads-bind :
    {A B : Type 0} {m : Result A} {f : A → Result B}
    → Reads m
    → ((a : A) → Reads (f a))
    → Reads (m >>= f)
Reads-bind (read {a}) k = k a
Reads-bind refused k = refused

-- The same where the continuation has only to deal with what the parse can leave.
Reads-after :
    {A B : Type 0} {n : ℕ} {m : Parsed A} {f : A × List Text → Result B}
    → Leaves n m
    → Reads m
    → ((r : A × List Text) → length r.1 ≤ n → Reads (f r))
    → Reads (m >>= f)
Reads-after (left {r} h) read k = k r h
Reads-after failed refused k = refused

Reads-ok_or : {A : Type 0} (o : Option A) (message : Text) → Reads (ok_or o (parse_error message))
Reads-ok_or none message = refused
Reads-ok_or (some a) message = read

Reads-next_or : (message : Text) (tokens : List Text) → Reads (next_or (parse_error message) tokens)
unfolding next_or
Reads-next_or message [] = refused
Reads-next_or message (token ∷ tokens) = read

Reads-expect_term : (tokens : List Text) → Reads (expect_term tokens)
unfolding expect_term
Reads-expect_term tokens = Reads-next_or _ tokens

Reads-with_term : (f : Text → Criteria) (tokens : List Text) → Reads (with_term f tokens)
unfolding with_term
Reads-with_term f tokens = Reads-bind (Reads-expect_term tokens) (λ r. read)

Reads-text_key : (field : Text) (tokens : List Text) → Reads (text_key field tokens)
unfolding text_key
Reads-text_key field tokens = Reads-with_term _ tokens

Reads-header_key : (tokens : List Text) → Reads (header_key tokens)
unfolding header_key
Reads-header_key tokens =
    Reads-bind (Reads-expect_term tokens) (λ r. Reads-bind (Reads-expect_term r.1) (λ s. read))

Reads-size_key :
    (message : Text) (f : ℕ → Criteria) (tokens : List Text) → Reads (size_key message f tokens)
unfolding size_key
Reads-size_key message f tokens =
    Reads-bind (Reads-expect_term tokens)
      (λ r. Reads-bind (Reads-ok_or (parse_u64 r.0) message) (λ n. read))

Reads-numeric_bound : (value : Text) (n : Option ℕ) → Reads (numeric_bound value n)
unfolding numeric_bound
Reads-numeric_bound value none = refused
Reads-numeric_bound value (some n) = read

Reads-parse_uid_bound : (value : Text) → Reads (parse_uid_bound value)
unfolding parse_uid_bound
Reads-parse_uid_bound value = Reads-if _ read (Reads-numeric_bound value (parse_u64 value))

Reads-part :
    (set : UidSet) (part : Text) (halves : Option (Text × Text))
    → Reads {A = UidSet} (elim halves [
      | some (start, end) ↦ do
        start_bound ← parse_uid_bound start
        end_bound ← parse_uid_bound end
        ok (push set (unwrap_or start_bound 1) (unwrap_or end_bound u64_max))
      | none ↦ do
        bound ← parse_uid_bound part
        uid ← ok_or bound (parse_error (lit "UID must be numeric"))
        ok (push set uid uid)
    ])
Reads-part set part none =
    Reads-bind (Reads-parse_uid_bound part)
      (λ bound. Reads-bind (Reads-ok_or bound (lit "UID must be numeric")) (λ uid. read))
Reads-part set part (some (start, end)) =
    Reads-bind (Reads-parse_uid_bound start)
      (λ s. Reads-bind (Reads-parse_uid_bound end) (λ e. read))

Reads-push_parts : (set : UidSet) (parts : List Text) → Reads (push_parts set parts)
unfolding push_parts push_part
Reads-push_parts set [] = read
Reads-push_parts set (part ∷ parts) =
    Reads-bind (Reads-part set part (split_once b':' part)) (λ next. Reads-push_parts next parts)

Reads-uid_key : (tokens : List Text) → Reads (uid_key tokens)
unfolding uid_key parse_uid_set
Reads-uid_key tokens =
    Reads-bind (Reads-next_or _ tokens)
      (λ r. Reads-bind (Reads-push_parts _ (split b',' r.0)) (λ set. read))

Reads-as_leaf : (parsed : Parsed Criteria) → Reads parsed → Reads (as_leaf parsed)
unfolding as_leaf
Reads-as_leaf parsed h = Reads-bind h (λ r. read)

module _ (parse_from_str : Text → Option ℕ) where
  Reads-date_key :
      (f : ℕ → Criteria) (tokens : List Text) → Reads (date_key parse_from_str f tokens)
  unfolding date_key parse_imap_date
  Reads-date_key f tokens =
      Reads-bind (Reads-expect_term tokens)
        (λ r. Reads-bind (Reads-ok_or (parse_from_str r.0) _) (λ d. read))

  Reads-parse_key : (key : Text) (tokens : List Text) → Reads (parse_key parse_from_str key tokens)
  unfolding parse_key
  Reads-parse_key key tokens =
      search
        (
          Reads-if, read, Reads-with_term, Reads-text_key, Reads-header_key, Reads-size_key,
          Reads-date_key,
        )
        depth 40

  -- More fuel than tokens is enough for a term.
  Reads-parse_term :
      (fuel : ℕ) (tokens : List Text)
      → length tokens < fuel
      → Reads (parse_term parse_from_str fuel tokens)
  unfolding parse_term
  Reads-parse_term zero tokens h = absurd (omega arith)
  Reads-parse_term (suc fuel) [] h = refused
  Reads-parse_term (suc fuel) (token ∷ tokens) h =
      let inner = Reads-parse_term fuel tokens (omega arith) in
      Reads-if (eq_ignore_ascii_case token (lit "NOT")) (Reads-bind inner (λ r. read)) (
        Reads-if (eq_ignore_ascii_case token (lit "OR"))
          (Reads-after (Leaves-parse_term parse_from_str fuel tokens) inner
            (λ r k. Reads-bind (Reads-parse_term fuel r.1 (omega arith)) (λ s. read)))
          (Reads-if (eq_ignore_ascii_case token (lit "UID"))
            (Reads-as_leaf (uid_key tokens) (Reads-uid_key tokens))
            (Reads-as_leaf (parse_key parse_from_str (to_ascii_uppercase token) tokens)
              (Reads-parse_key (to_ascii_uppercase token) tokens))))

  -- Every term takes a token.
  Reads-parse_terms :
      (fuel : ℕ) (acc : Criteria × List SearchExpr) (tokens : List Text)
      → length tokens ≤ fuel
      → Reads (parse_terms parse_from_str fuel acc tokens)
  unfolding parse_terms
  Reads-parse_terms fuel acc [] h = read
  Reads-parse_terms zero acc (token ∷ tokens) h = absurd (omega arith)
  Reads-parse_terms (suc fuel) acc (token ∷ tokens) h =
      Reads-after (Leaves-parse_term parse_from_str (suc (suc fuel)) (token ∷ tokens))
        (Reads-parse_term (suc (suc fuel)) (token ∷ tokens) (omega arith))
        (λ r k. Reads-parse_terms fuel (add_term r.0 acc) r.1 (omega arith))

  Reads-from_imap_args : (tokens : List Text) → Reads (from_imap_args parse_from_str tokens)
  unfolding from_imap_args
  Reads-from_imap_args [] = read
  Reads-from_imap_args (token ∷ tokens) =
      Reads-bind
        (Reads-parse_terms (suc (length tokens)) (query, []) (token ∷ tokens) (omega arith))
        (λ acc. read)

answer :
    {A : Type 0} {r : Result A}
    → Reads r
    → ((a : A) × (r ≡ ok a)) ⊎ ((message : Text) × (r ≡ err (parse_error message)))
answer (read {a}) = inl (a, refl)
answer (refused {message}) = inr (message, refl)

-- The parser of search criteria comes to an end for all arguments: it gives a query or an error of its own
-- with a message, and never runs out of the fuel of the model.
pub from_imap_args_total :
    (parse_from_str : Text → Option ℕ) (tokens : List Text)
    → ((q : SearchQuery) × (from_imap_args parse_from_str tokens ≡ ok q))
      ⊎ ((message : Text) × (from_imap_args parse_from_str tokens ≡ err (parse_error message)))
from_imap_args_total parse_from_str tokens = answer (Reads-from_imap_args parse_from_str tokens)
