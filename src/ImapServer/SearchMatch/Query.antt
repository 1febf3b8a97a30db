-- ===== src/ImapServer/SearchMatch/Query.antt =====
-- SEARCH from the tokens of the request, parsed by `SearchQuery::from_imap_args` of
-- crates/search/src/lib.rs, to the messages that `matches_search_view` of
-- crates/imap-server/src/imap.rs lets through.
use imapped_lightmode.Base.{
  ℕ, suc, ◌≡◌, refl, ap, ◌∙◌, ◌&&◌, ◌||◌, Option, none, some, List, [], ◌∷◌, ◌++◌, arith, all, leb,
  any-append, ok,
}
use imapped_lightmode.Text.{Text, lit, eq}
use imapped_lightmode.Text.Case.{to_ascii_lowercase, eq_ignore_ascii_case}
use imapped_lightmode.Search.{UidSet, SearchExpr, leaf, SearchQuery, contains}
use imapped_lightmode.Search.UidRange.{parse_uid_set}
use imapped_lightmode.Search.Merge.{merge_query_fields, is_identity, is_none}
use imapped_lightmode.Search.Parser.{
  from_imap_args, query, parse_term, uid_key, as_leaf, next_or, finish_query, add_terms, add_term,
}
use imapped_lightmode.Search.Parser.Laws.{Terms, done, next, from_imap_args-Terms}
use imapped_lightmode.ImapServer.SearchMatch.{
  MailboxMessageView, matches_search_leaf, matches_search_expr, matches_search_view, as_u64, given,
  matches_header_filters,
}
use imapped_lightmode.ImapServer.SearchMatch.Terms.{Separate, fits-finish_query, all_query-fits}

module _ (parse_from_str : Text → Option ℕ) (json_string : Text → Text)
    (view : MailboxMessageView) where
  -- If the tokens of a request read as terms, and no leaf among them asks for UIDs, for a day of
  -- arrival or for a day of sending when one before it did, the request is accepted, and a message
  -- fits the resulting query exactly when it fits every term.
  pub from_imap_args-fits :
      (tokens : List Text) (es : List SearchExpr)
      → Terms parse_from_str tokens es
      → Separate query es
      → (q : SearchQuery) × (from_imap_args parse_from_str tokens ≡ ok q)
        × (matches_search_view json_string view q ≡ all (matches_search_expr json_string view) es)
  from_imap_args-fits tokens [] t s =
      let parsed = from_imap_args-Terms parse_from_str t in
      (
        parsed.0,
        parsed.1,
        ap (matches_search_view json_string view) (parsed.3 refl) ∙ all_query-fits json_string view,
      )
  from_imap_args-fits tokens (e ∷ es) t s =
      let parsed = from_imap_args-Terms parse_from_str t in
      (
        parsed.0,
        parsed.1,
        ap (matches_search_view json_string view) (parsed.2 (λ n. cc))
            ∙ fits-finish_query json_string view (e ∷ es) s,
      )

  uid_leaf : UidSet → SearchExpr
  uid_leaf set = leaf (record query { uid_filter = some set })

  uid_term :
      (fuel : ℕ) (value : Text) (rest : List Text) (set : UidSet)
      → parse_uid_set value ≡ ok set
      → parse_term parse_from_str (suc fuel) (lit "UID" ∷ value ∷ rest) ≡ ok (uid_leaf set, rest)
  unfolding parse_term uid_key as_leaf next_or uid_leaf eq_ignore_ascii_case to_ascii_lowercase lit
      eq
  uid_term fuel value rest set h = rw h refl

  uid_fits :
      (set : UidSet)
      → matches_search_leaf json_string view (record query { uid_filter = some set })
        ≡ contains set (as_u64 view.local_uid)
  unfolding matches_search_leaf given matches_header_filters
  uid_fits set = ground arith

  both_uids : UidSet → UidSet → UidSet
  both_uids s t = record { ranges = s.ranges ++ t.ranges }

  two_uids :
      (s t : UidSet)
      → finish_query (add_terms (query, []) (uid_leaf s ∷ uid_leaf t ∷ []))
        ≡ record { criteria = record query { uid_filter = some (both_uids s t) }; expr = none }
  unfolding finish_query add_terms add_term is_identity is_none merge_query_fields uid_leaf
      both_uids
  two_uids s t = refl

  contains-both_uids :
      (s t : UidSet) (uid : ℕ) → contains (both_uids s t) uid ≡ (contains s uid || contains t uid)
  unfolding contains both_uids
  contains-both_uids s t uid =
      any-append (λ (r : ℕ × ℕ). leb r.0 uid && leb uid r.1) s.ranges t.ranges

  two_uids-fit :
      (s t : UidSet)
      → matches_search_view json_string view
          (finish_query (add_terms (query, []) (uid_leaf s ∷ uid_leaf t ∷ [])))
        ≡ (contains s (as_u64 view.local_uid) || contains t (as_u64 view.local_uid))
  unfolding matches_search_view given
  two_uids-fit s t =
      ap (matches_search_view json_string view) (two_uids s t)
      ∙ ground (arith, uid_fits (both_uids s t), contains-both_uids s t (as_u64 view.local_uid))

  -- The terms of a request are joined by "and"; but of two terms `UID` a message has to be in one of
  -- the two sets only.
  pub from_imap_args-uid_union :
      (first second : Text) (s t : UidSet)
      → parse_uid_set first ≡ ok s
      → parse_uid_set second ≡ ok t
      → (q : SearchQuery) × (from_imap_args parse_from_str
            (lit "UID" ∷ first ∷ lit "UID" ∷ second ∷ [])
          ≡ ok q)
        × (matches_search_view json_string view q
            ≡ (contains s (as_u64 view.local_uid) || contains t (as_u64 view.local_uid)))
  from_imap_args-uid_union first second s t h k =
      let terms : Terms parse_from_str (lit "UID" ∷ first ∷ lit "UID" ∷ second ∷ [])
          (uid_leaf s ∷ uid_leaf t ∷ []) =
        next (uid_term 4 first (lit "UID" ∷ second ∷ []) s h)
          (next (uid_term 2 second [] t k) done) in
      let parsed = from_imap_args-Terms parse_from_str terms in
      (
        parsed.0,
        parsed.1,
        ap (matches_search_view json_string view) (parsed.2 (λ n. cc)) ∙ two_uids-fit s t,
      )
