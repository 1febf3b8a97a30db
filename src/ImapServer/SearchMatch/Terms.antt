-- ===== src/ImapServer/SearchMatch/Terms.antt =====
-- The terms of a SEARCH request, as `ImapSearchParser::parse` of crates/search/src/lib.rs gathers
-- them, and the messages that fit the query that comes of it.
use imapped_lightmode.Base.{
  ℕ, ◌≡◌, refl, ap, ◌∙◌, Bool, true, false, not, ◌&&◌, Option, none, some, List, [], ◌∷◌, ◌++◌,
  arith, all, any, leb, ◌==◌, all-append, is_empty, if◌then◌else◌, Bool-cases, inl, inr,
}
use imapped_lightmode.Text.{Text}
use imapped_lightmode.Search.{
  UidSet, Criteria, SearchExpr, leaf, and, or, negation, all_criteria, all_query, contains,
}
use imapped_lightmode.Search.Merge.{merge_query_fields, is_none, is_identity}
use imapped_lightmode.Search.Parser.{add_term, add_terms, finish_query, exprs_of, query}
use imapped_lightmode.ImapServer.SearchMatch.{
  MailboxMessageView, given, conditions, matches_search_leaf, matches_search_expr, matches_all,
  matches_search_view, matches_header_filters, as_u64, internal_day, sent_day,
  contains_case_insensitive, json_contains, header_value,
}
use imapped_lightmode.ImapServer.SearchMatch.Fields.{
  Mergeable, matches_search_leaf-merge_query_fields,
}

-- Each leaf that asks for something can be merged with those before it, which are gathered in the query.
abbrev pub Separate : Criteria → List SearchExpr → Type 0
Separate flat [] = Unit
Separate flat (leaf q ∷ es) =
    Mergeable flat q × Separate (if is_identity q then flat else merge_query_fields flat q) es
Separate flat (and children ∷ es) = Separate flat es
Separate flat (or left right ∷ es) = Separate flat es
Separate flat (negation inner ∷ es) = Separate flat es

given-none : {A : Type 0} (test : A → Bool) (o : Option A) → is_none o ≡ true → given test o ≡ true
unfolding is_none given
given-none test none h = refl
given-none test (some a) h = cc

all-empty : {A : Type 0} (p : A → Bool) (xs : List A) → is_empty xs ≡ true → all p xs ≡ true
all-empty p [] h = refl
all-empty p (x ∷ xs) h = cc

any-empty : {A : Type 0} (p : A → Bool) (xs : List A) → is_empty xs ≡ true → any p xs ≡ false
any-empty p [] h = refl
any-empty p (x ∷ xs) h = cc

module _ (json_string : Text → Text) (view : MailboxMessageView) where
  abbrev pub fits : SearchExpr → Bool
  fits = matches_search_expr json_string view

  identity-fits :
      (q : Criteria) → is_identity q ≡ true → matches_search_leaf json_string view q ≡ true
  unfolding is_identity matches_search_leaf matches_header_filters
  identity-fits q h = ground (
    arith,
    given-none (λ (set : UidSet). contains set (as_u64 view.local_uid)) q.uid_filter,
    all-empty (contains_case_insensitive view.flags) q.required_flags,
    any-empty (contains_case_insensitive view.flags) q.forbidden_flags,
    all-empty (contains_case_insensitive view.keywords) q.required_keywords,
    any-empty (contains_case_insensitive view.keywords) q.forbidden_keywords,
    all-empty (λ (f : Text × Text). json_contains f.1 (header_value json_string view f.0))
        q.header_filters,
    given-none (λ (size : ℕ). not (leb (as_u64 view.size_octets) size)) q.larger_than,
    given-none (λ (size : ℕ). not (leb size (as_u64 view.size_octets))) q.smaller_than,
    given-none (λ (day : ℕ). not (leb day (internal_day view))) q.internal_date_before,
    given-none (λ (day : ℕ). internal_day view == day) q.internal_date_on,
    given-none (λ (day : ℕ). leb day (internal_day view)) q.internal_date_since,
    given-none (λ (day : ℕ). not (leb day (sent_day view))) q.sent_date_before,
    given-none (λ (day : ℕ). sent_day view == day) q.sent_date_on,
    given-none (λ (day : ℕ). leb day (sent_day view)) q.sent_date_since,
  )

  meaning : Criteria × List SearchExpr → Bool
  meaning acc = matches_search_leaf json_string view acc.0 && all fits acc.1

  meaning-add_leaf :
      (flat q : Criteria) (terms : List SearchExpr)
      → Mergeable flat q
      → meaning (add_term (leaf q) (flat, terms)) ≡ (meaning (flat, terms) && fits (leaf q))
  unfolding meaning add_term matches_search_expr
  meaning-add_leaf flat q terms m = elim (Bool-cases (is_identity q)) [
    | inl e ↦ rw e (ground (arith, identity-fits q e))
    | inr e ↦
        rw e (ground (arith, matches_search_leaf-merge_query_fields json_string view flat q m))
  ]

  meaning-snoc :
      (flat : Criteria) (terms : List SearchExpr) (e : SearchExpr)
      → meaning (flat, terms ++ e ∷ []) ≡ (meaning (flat, terms) && fits e)
  unfolding meaning
  meaning-snoc flat terms e = ground (arith, all-append fits terms (e ∷ []))

  meaning-add_terms :
      (flat : Criteria) (terms es : List SearchExpr)
      → Separate flat es
      → meaning (add_terms (flat, terms) es) ≡ (meaning (flat, terms) && all fits es)
  unfolding add_terms add_term
  meaning-add_terms flat terms [] h = ground arith
  meaning-add_terms flat terms (leaf q ∷ es) h =
      meaning-add_terms (if is_identity q then flat else merge_query_fields flat q) terms es h.1
      ∙ ground (arith, meaning-add_leaf flat q terms h.0)
  meaning-add_terms flat terms (and children ∷ es) h =
      meaning-add_terms flat (terms ++ and children ∷ []) es h
      ∙ ground (arith, meaning-snoc flat terms (and children))
  meaning-add_terms flat terms (or left right ∷ es) h =
      meaning-add_terms flat (terms ++ or left right ∷ []) es h
      ∙ ground (arith, meaning-snoc flat terms (or left right))
  meaning-add_terms flat terms (negation inner ∷ es) h =
      meaning-add_terms flat (terms ++ negation inner ∷ []) es h
      ∙ ground (arith, meaning-snoc flat terms (negation inner))

  matches_all-exprs_of :
      (es : List SearchExpr) → matches_all json_string view (exprs_of es) ≡ all fits es
  unfolding exprs_of matches_search_expr
  matches_all-exprs_of [] = refl
  matches_all-exprs_of (e ∷ es) = ap (λ b. fits e && b) (matches_all-exprs_of es)

  leaf-match_all :
      (q : Criteria)
      → matches_search_leaf json_string view (record q { match_all = false })
        ≡ matches_search_leaf json_string view q
  unfolding matches_search_leaf conditions
  leaf-match_all q = refl

  pub all_query-fits : matches_search_view json_string view all_query ≡ true
  unfolding matches_search_view is_identity is_none given
  all_query-fits = ground (arith, identity-fits all_criteria refl)

  meaning-finish_query :
      (acc : Criteria × List SearchExpr)
      → matches_search_view json_string view (finish_query acc) ≡ meaning acc
  unfolding finish_query meaning matches_search_view matches_search_expr given
  meaning-finish_query (flat, []) = elim (Bool-cases (is_identity flat)) [
    | inl e ↦ rw e (ground (arith, all_query-fits, identity-fits flat e))
    | inr e ↦ rw e (ground arith)
  ]
  meaning-finish_query (flat, term ∷ []) = ground (arith, leaf-match_all flat)
  meaning-finish_query (flat, term ∷ next ∷ terms) =
      ground (arith, leaf-match_all flat, matches_all-exprs_of (term ∷ next ∷ terms))

  -- A message fits the query of terms that can be merged exactly when it fits every term.
  pub fits-finish_query :
      (es : List SearchExpr)
      → Separate query es
      → matches_search_view json_string view (finish_query (add_terms (query, []) es)) ≡ all fits es
  unfolding meaning is_identity is_none
  fits-finish_query es h =
      meaning-finish_query (add_terms (query, []) es)
      ∙ meaning-add_terms query [] es h
      ∙ ground (arith, identity-fits query refl)
