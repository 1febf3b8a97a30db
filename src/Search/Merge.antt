-- ===== src/Search/Merge.antt =====
-- `is_identity_query`, `merge_query_fields` and `union_uid_sets` of crates/search/src/lib.rs.
use imapped_lightmode.Base.{
  ℕ, min, max, Bool, true, false, not, ◌&&◌, ◌||◌, Option, none, some, ◌∷◌, ◌++◌, is_empty,
}
use imapped_lightmode.Text.{Text}
use imapped_lightmode.Search.{UidSet, Criteria}

unfoldable pub is_none : {A : Type 0} → Option A → Bool
is_none none = true
is_none (some a) = false

-- `is_identity_query` of a query without `expr`: it asks for nothing. It does not look at `match_all`.
unfoldable pub is_identity : Criteria → Bool
unfolding is_none
is_identity q =
    is_none q.query_string
    && is_none q.uid_filter
    && is_empty q.required_flags
    && is_empty q.forbidden_flags
    && is_empty q.required_keywords
    && is_empty q.forbidden_keywords
    && is_empty q.header_filters
    && not q.recent_only
    && not q.old_only
    && is_none q.larger_than
    && is_none q.smaller_than
    && is_none q.internal_date_before
    && is_none q.internal_date_on
    && is_none q.internal_date_since
    && is_none q.sent_date_before
    && is_none q.sent_date_on
    && is_none q.sent_date_since

-- Two bounds joined by `f`, where there are two.
unfoldable pub join_bounds : (ℕ → ℕ → ℕ) → Option ℕ → Option ℕ → Option ℕ
join_bounds f (some existing) (some next) = some (f existing next)
join_bounds f none (some next) = some next
join_bounds f (some existing) none = some existing
join_bounds f none none = none

-- `Option::or`.
unfoldable pub first_of : Option ℕ → Option ℕ → Option ℕ
first_of (some existing) next = some existing
first_of none next = next

unfoldable pub merge_query_string : Option Text → Option Text → Option Text
merge_query_string existing none = existing
merge_query_string none (some next) = some next
merge_query_string (some existing) (some next) = some (existing ++ 32 ∷ next)

unfoldable pub union_uid_sets : Option UidSet → UidSet → Option UidSet
union_uid_sets none set = some set
union_uid_sets (some acc) set = some (record { ranges = acc.ranges ++ set.ranges })

unfoldable pub merge_uid_filter : Option UidSet → Option UidSet → Option UidSet
unfolding union_uid_sets
merge_uid_filter (some existing) (some next) = union_uid_sets (some existing) next
merge_uid_filter none (some next) = some next
merge_uid_filter (some existing) none = some existing
merge_uid_filter none none = none

unfoldable pub merge_query_fields : Criteria → Criteria → Criteria
unfolding join_bounds first_of merge_query_string merge_uid_filter
merge_query_fields acc fragment = record {
  match_all = false;
  query_string = merge_query_string acc.query_string fragment.query_string;
  uid_filter = merge_uid_filter acc.uid_filter fragment.uid_filter;
  recent_only = acc.recent_only || fragment.recent_only;
  old_only = acc.old_only || fragment.old_only;
  header_filters = acc.header_filters ++ fragment.header_filters;
  required_flags = acc.required_flags ++ fragment.required_flags;
  forbidden_flags = acc.forbidden_flags ++ fragment.forbidden_flags;
  required_keywords = acc.required_keywords ++ fragment.required_keywords;
  forbidden_keywords = acc.forbidden_keywords ++ fragment.forbidden_keywords;
  larger_than = join_bounds max acc.larger_than fragment.larger_than;
  smaller_than = join_bounds min acc.smaller_than fragment.smaller_than;
  internal_date_before = join_bounds min acc.internal_date_before fragment.internal_date_before;
  internal_date_on = first_of acc.internal_date_on fragment.internal_date_on;
  internal_date_since = join_bounds max acc.internal_date_since fragment.internal_date_since;
  sent_date_before = join_bounds min acc.sent_date_before fragment.sent_date_before;
  sent_date_on = first_of acc.sent_date_on fragment.sent_date_on;
  sent_date_since = join_bounds max acc.sent_date_since fragment.sent_date_since;
}
