-- ===== src/Search/Parser.antt =====
-- `ImapSearchParser` of crates/search/src/lib.rs. The parser's index is the list of the tokens that
-- are left. `NaiveDate::parse_from_str` with the format `%d-%b-%Y` is a parameter.
pub mod Laws
pub mod Total
use imapped_lightmode.Base.{
  ℕ, zero, suc, Bool, true, false, ◌||◌, Option, none, some, List, [], ◌∷◌, ◌++◌, ◌==◌,
  if◌then◌else◌, any, is_empty, length, Error, parse_error, external, Result, ok, err, ◌>>=◌, ok_or,
}
use imapped_lightmode.Text.{Text, lit, eq, is_whitespace}
use imapped_lightmode.Text.Case.{to_ascii_uppercase, to_ascii_lowercase, eq_ignore_ascii_case}
use imapped_lightmode.Text.Split.{replace_char}
use imapped_lightmode.Text.Decimal.{parse_u64}
use imapped_lightmode.Search.{
  UidSet, Criteria, SearchExpr, leaf, and, or, negation, SearchExprs, nil, cons, SearchQuery,
  all_criteria, all_query,
}
use imapped_lightmode.Search.UidRange.{parse_uid_set}
use imapped_lightmode.Search.Merge.{is_identity, merge_query_fields}

abbrev double_quote : ℕ
double_quote = 34

abbrev back_slash : ℕ
back_slash = 92

unfoldable pub needs_quotes : ℕ → Bool
needs_quotes c =
    is_whitespace c || c == b':' || c == double_quote || c == b'(' || c == b')' || c == back_slash

unfoldable pub quote_query : Text → Text
unfolding needs_quotes
quote_query term =
    if any needs_quotes term
    then double_quote
      ∷ (replace_char double_quote (back_slash ∷ double_quote ∷ [])
            (replace_char back_slash (back_slash ∷ back_slash ∷ []) term)
          ++ double_quote ∷ [])
    else term

unfoldable pub header_field : Text → Option Text
header_field field =
    if eq field (lit "subject")
    then some (lit "subject")
    else if eq field (lit "from")
    then some (lit "from")
    else if eq field (lit "to")
    then some (lit "to")
    else if eq field (lit "cc")
    then some (lit "cc")
    else if eq field (lit "bcc")
    then some (lit "bcc")
    else if eq field (lit "message-id") || eq field (lit "message_id")
    then some (lit "message_id")
    else if eq field (lit "reply-to") || eq field (lit "reply_to")
    then some (lit "reply_to")
    else none

unfoldable pub header_query_string : Text → Text → Option Text
header_query_string field value = elim (header_field field) [
  | some query_field ↦ some (query_field ++ b':' ∷ quote_query value)
  | none ↦ none
]

-- The tokens, and what is left of them.
abbrev pub Parsed : Type 0 → Type 0
Parsed A = Result (A × List Text)

-- `next_token` with the error of the caller.
unfoldable pub next_or : Error → List Text → Parsed Text
next_or problem [] = err problem
next_or problem (token ∷ tokens) = ok (token, tokens)

unfoldable pub expect_term : List Text → Parsed Text
unfolding next_or
expect_term tokens = next_or (parse_error (lit "missing SEARCH term")) tokens

-- `query` of a key that stands alone, is followed by a term, by a number, or by a date; `match_all`
-- is false for all of these.
abbrev pub query : Criteria
query = record all_criteria { match_all = false }

abbrev require : Text → Criteria
require flag = record query { required_flags = flag ∷ [] }

abbrev forbid : Text → Criteria
forbid flag = record query { forbidden_flags = flag ∷ [] }

unfoldable pub with_term : (Text → Criteria) → List Text → Parsed Criteria
with_term f tokens = expect_term tokens >>= λ (r : Text × List Text). ok (f r.0, r.1)

unfoldable pub text_key : Text → List Text → Parsed Criteria
text_key field =
    with_term (λ term. record query { query_string = some (field ++ b':' ∷ quote_query term) })

unfoldable pub body_query : Text → Text
body_query term =
    lit "body:"
    ++ (term
        ++ (lit " OR subject:"
            ++ (term
                ++ (lit " OR from:"
                    ++ (term
                        ++ (lit " OR to:"
                            ++ (term ++ (lit " OR cc:" ++ (term ++ (lit " OR bcc:" ++ term))))))))))

unfoldable pub header_key : List Text → Parsed Criteria
unfolding header_query_string
header_key tokens = do
  field ← expect_term tokens
  value ← expect_term field.1
  ok (
    record query {
      header_filters = (to_ascii_lowercase field.0, value.0) ∷ [];
      query_string = header_query_string (to_ascii_lowercase field.0) value.0;
    },
    value.1,
  )

unfoldable pub size_key : Text → (ℕ → Criteria) → List Text → Parsed Criteria
size_key message f tokens = do
  term ← expect_term tokens
  value ← ok_or (parse_u64 term.0) (parse_error message)
  ok (f value, term.1)

unfoldable pub uid_key : List Text → Parsed Criteria
unfolding next_or
uid_key tokens = do
  value ← next_or (parse_error (lit "UID requires a sequence set")) tokens
  set ← parse_uid_set value.0
  ok (record query { uid_filter = some set }, value.1)

unfoldable pub as_leaf : Parsed Criteria → Parsed SearchExpr
as_leaf parsed = parsed >>= λ (r : Criteria × List Text). ok (leaf r.0, r.1)

-- What one term adds to the flat query and to the terms.
unfoldable pub add_term : SearchExpr → Criteria × List SearchExpr → Criteria × List SearchExpr
add_term (leaf fragment) (flat, terms) =
    (if is_identity fragment then flat else merge_query_fields flat fragment, terms)
add_term (and children) (flat, terms) = (flat, terms ++ and children ∷ [])
add_term (or left right) (flat, terms) = (flat, terms ++ or left right ∷ [])
add_term (negation inner) (flat, terms) = (flat, terms ++ negation inner ∷ [])

-- All terms, the first of them first.
unfoldable pub add_terms : Criteria × List SearchExpr → List SearchExpr → Criteria × List SearchExpr
add_terms acc [] = acc
add_terms acc (e ∷ es) = add_terms (add_term e acc) es

unfoldable pub exprs_of : List SearchExpr → SearchExprs
exprs_of [] = nil
exprs_of (e ∷ es) = cons e (exprs_of es)

-- The query behind the loop.
unfoldable pub finish_query : Criteria × List SearchExpr → SearchQuery
unfolding exprs_of
finish_query (flat, []) =
    if is_identity flat then all_query else record { criteria = flat; expr = none }
finish_query (flat, term ∷ []) = record {
  criteria = record flat { match_all = false };
  expr = some term;
}
finish_query (flat, term ∷ next ∷ terms) = record {
  criteria = record flat { match_all = false };
  expr = some (and (exprs_of (term ∷ next ∷ terms)));
}

module _ (parse_from_str : Text → Option ℕ) where
  unfoldable pub parse_imap_date : Text → Result ℕ
  parse_imap_date value =
      ok_or (parse_from_str value) (parse_error (lit "invalid IMAP date: " ++ value))

  unfoldable pub date_key : (ℕ → Criteria) → List Text → Parsed Criteria
  unfolding parse_imap_date
  date_key f tokens = do
    term ← expect_term tokens
    date ← parse_imap_date term.0
    ok (f date, term.1)

  -- The keys other than NOT, OR and UID, in upper case.
  unfoldable pub parse_key : Text → List Text → Parsed Criteria
  unfolding date_key
  parse_key key tokens =
      if eq key (lit "ALL")
      then ok (all_criteria, tokens)
      else if eq key (lit "SUBJECT")
      then text_key (lit "subject") tokens
      else if eq key (lit "FROM")
      then text_key (lit "from") tokens
      else if eq key (lit "TO")
      then text_key (lit "to") tokens
      else if eq key (lit "CC")
      then text_key (lit "cc") tokens
      else if eq key (lit "BCC")
      then text_key (lit "bcc") tokens
      else if eq key (lit "HEADER")
      then header_key tokens
      else if eq key (lit "RECENT")
      then ok (record query { recent_only = true }, tokens)
      else if eq key (lit "NEW")
      then ok (record query { recent_only = true; forbidden_flags = lit "\\Seen" ∷ [] }, tokens)
      else if eq key (lit "OLD")
      then ok (record query { old_only = true }, tokens)
      else if eq key (lit "BODY") || eq key (lit "TEXT")
      then with_term (λ term. record query { query_string = some (body_query (quote_query term)) })
          tokens
      else if eq key (lit "SEEN")
      then ok (require (lit "\\Seen"), tokens)
      else if eq key (lit "UNSEEN")
      then ok (forbid (lit "\\Seen"), tokens)
      else if eq key (lit "ANSWERED")
      then ok (require (lit "\\Answered"), tokens)
      else if eq key (lit "UNANSWERED")
      then ok (forbid (lit "\\Answered"), tokens)
      else if eq key (lit "FLAGGED")
      then ok (require (lit "\\Flagged"), tokens)
      else if eq key (lit "UNFLAGGED")
      then ok (forbid (lit "\\Flagged"), tokens)
      else if eq key (lit "DELETED")
      then ok (require (lit "\\Deleted"), tokens)
      else if eq key (lit "UNDELETED")
      then ok (forbid (lit "\\Deleted"), tokens)
      else if eq key (lit "KEYWORD")
      then with_term (λ term. record query { required_keywords = term ∷ [] }) tokens
      else if eq key (lit "UNKEYWORD")
      then with_term (λ term. record query { forbidden_keywords = term ∷ [] }) tokens
      else if eq key (lit "LARGER")
      then size_key (lit "LARGER requires a numeric size")
          (λ n. record query { larger_than = some n }) tokens
      else if eq key (lit "SMALLER")
      then size_key (lit "SMALLER requires a numeric size")
          (λ n. record query { smaller_than = some n }) tokens
      else if eq key (lit "BEFORE")
      then date_key (λ d. record query { internal_date_before = some d }) tokens
      else if eq key (lit "SINCE")
      then date_key (λ d. record query { internal_date_since = some d }) tokens
      else if eq key (lit "ON")
      then date_key (λ d. record query { internal_date_on = some d }) tokens
      else if eq key (lit "SENTBEFORE")
      then date_key (λ d. record query { sent_date_before = some d }) tokens
      else if eq key (lit "SENTSINCE")
      then date_key (λ d. record query { sent_date_since = some d }) tokens
      else if eq key (lit "SENTON")
      then date_key (λ d. record query { sent_date_on = some d }) tokens
      else ok (record query { query_string = some key }, tokens)

  -- `parse_term`, on fuel: every call takes a token, so more fuel than tokens is enough.
  unfoldable pub parse_term : ℕ → List Text → Parsed SearchExpr
  unfolding as_leaf
  parse_term zero tokens = err (external (lit "out of fuel"))
  parse_term (suc fuel) [] = err (parse_error (lit "unexpected end of SEARCH criteria"))
  parse_term (suc fuel) (token ∷ tokens) =
      let inner = parse_term fuel tokens in
      let negated = inner >>= λ (r : SearchExpr × List Text). ok (negation r.0, r.1) in
      let either = inner >>= λ (left : SearchExpr × List Text).
      parse_term fuel left.1 >>= λ (right : SearchExpr × List Text).
      ok (or left.0 right.0, right.1) in
      if eq_ignore_ascii_case token (lit "NOT")
      then negated
      else if eq_ignore_ascii_case token (lit "OR")
      then either
      else if eq_ignore_ascii_case token (lit "UID")
      then as_leaf (uid_key tokens)
      else as_leaf (parse_key (to_ascii_uppercase token) tokens)

  -- The loop of `parse`.
  unfoldable pub parse_terms :
      ℕ → Criteria × List SearchExpr → List Text → Result (Criteria × List SearchExpr)
  unfolding parse_term add_term
  parse_terms fuel acc [] = ok acc
  parse_terms zero acc (token ∷ tokens) = err (external (lit "out of fuel"))
  parse_terms (suc fuel) acc (token ∷ tokens) =
      parse_term (suc (suc fuel)) (token ∷ tokens) >>= λ (r : SearchExpr × List Text).
      parse_terms fuel (add_term r.0 acc) r.1

  -- `from_imap_args`. `parse` on no tokens is never called.
  unfoldable pub from_imap_args : List Text → Result SearchQuery
  unfolding parse_terms finish_query
  from_imap_args [] = ok all_query
  from_imap_args (token ∷ tokens) =
      parse_terms (suc (length tokens)) (query, []) (token ∷ tokens)
      >>= λ (acc : Criteria × List SearchExpr). ok (finish_query acc)
