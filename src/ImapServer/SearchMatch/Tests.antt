-- ===== src/ImapServer/SearchMatch/Tests.antt =====
-- The properties of SEARCH at concrete requests and for one message.
use imapped_lightmode.Base.{
  ℕ, ◌≡◌, refl, ◌&&◌, ◌||◌, Option, none, some, List, [], ◌∷◌, all, ok, ◌⊎◌, err, parse_error,
}
use imapped_lightmode.Base.Int.{pos}
use imapped_lightmode.Text.{Text, lit, eq}
use imapped_lightmode.Text.Case.{to_ascii_lowercase, to_ascii_uppercase, eq_ignore_ascii_case}
use imapped_lightmode.Text.Split.{split, split_where, push_first, split_once}
use imapped_lightmode.Text.Decimal.{
  parse_u64, parse_unsigned, parse_digits, scan_digits, is_digit, at_most,
}
use imapped_lightmode.Search.{UidSet, Criteria, leaf, SearchQuery, contains, push}
use imapped_lightmode.Search.UidRange.{
  parse_uid_set, push_parts, push_part, parse_uid_bound, numeric_bound,
}
use imapped_lightmode.Search.Merge.{merge_query_fields, is_none}
use imapped_lightmode.Search.Parser.{from_imap_args, query, parse_term, as_leaf, parse_key}
use imapped_lightmode.Search.Parser.Laws.{Terms, done, next}
use imapped_lightmode.Search.Parser.Total.{from_imap_args_total}
use imapped_lightmode.ImapServer.SearchMatch.{
  MailboxMessageView, matches_search_leaf, matches_search_expr, matches_search_view, as_u64,
}
use imapped_lightmode.ImapServer.SearchMatch.Fields.{matches_search_leaf-merge_query_fields}
use imapped_lightmode.ImapServer.SearchMatch.Query.{from_imap_args-fits, from_imap_args-uid_union}

abbrev no_date : Text → Option ℕ
no_date s = none

abbrev quoted_json : Text → Text
quoted_json s = 34 ∷ s

abbrev view : MailboxMessageView
view = record {
  local_uid = pos 7;
  flags = [];
  keywords = [];
  size_octets = pos 100;
  subject = none;
  internal_date = none;
  sent_date = none;
  created_at = 0;
  envelope = λ field. none;
}

abbrev deleted : Criteria
deleted = record query { required_flags = lit "\\Deleted" ∷ [] }

abbrev small : Criteria
small = record query { smaller_than = some 50 }

matches_search_leaf-merge_query_fields_example :
    matches_search_leaf quoted_json view (merge_query_fields deleted small)
    ≡ (matches_search_leaf quoted_json view deleted && matches_search_leaf quoted_json view small)
matches_search_leaf-merge_query_fields_example =
    matches_search_leaf-merge_query_fields quoted_json view deleted small
      (unfold is_none in (refl, refl, refl))

abbrev tokens : List Text
tokens = lit "DELETED" ∷ []

tokens-Terms : Terms no_date tokens (leaf deleted ∷ [])
unfolding parse_term as_leaf parse_key eq_ignore_ascii_case to_ascii_lowercase to_ascii_uppercase
    lit eq
tokens-Terms = next refl done

from_imap_args-fits_example :
    (q : SearchQuery) × (from_imap_args no_date tokens ≡ ok q)
    × (matches_search_view quoted_json view q
        ≡ all (matches_search_expr quoted_json view) (leaf deleted ∷ []))
from_imap_args-fits_example =
    from_imap_args-fits no_date quoted_json view tokens (leaf deleted ∷ []) tokens-Terms
      (unfold is_none in (refl, refl, refl), tt)

abbrev one_uid : ℕ → UidSet
one_uid n = record { ranges = (n, n) ∷ [] }

uid_five : parse_uid_set (b'5' ∷ []) ≡ ok (one_uid 5)
unfolding parse_uid_set push_parts push_part parse_uid_bound numeric_bound push split split_where
    push_first split_once parse_u64 parse_unsigned parse_digits scan_digits is_digit at_most eq lit
uid_five = refl

from_imap_args-uid_union_example :
    (q : SearchQuery) × (from_imap_args no_date
        (lit "UID" ∷ (b'5' ∷ []) ∷ lit "UID" ∷ (b'5' ∷ []) ∷ [])
      ≡ ok q)
    × (matches_search_view quoted_json view q ≡ (
        contains (one_uid 5) (as_u64 view.local_uid)
        || contains (one_uid 5) (as_u64 view.local_uid)))
from_imap_args-uid_union_example =
    from_imap_args-uid_union no_date quoted_json view (b'5' ∷ []) (b'5' ∷ []) (one_uid 5)
      (one_uid 5) uid_five uid_five

from_imap_args_total_example :
    ((q : SearchQuery) × (from_imap_args no_date (lit "NOT" ∷ lit "OR" ∷ lit "SEEN" ∷ []) ≡ ok q))
    ⊎ ((message : Text) × (from_imap_args no_date (lit "NOT" ∷ lit "OR" ∷ lit "SEEN" ∷ [])
          ≡ err (parse_error message)))
from_imap_args_total_example = from_imap_args_total no_date (lit "NOT" ∷ lit "OR" ∷ lit "SEEN" ∷ [])
