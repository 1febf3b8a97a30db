-- ===== src/ImapServer/SearchMatch/Fields.antt =====
-- What merging two queries field by field means for the messages that fit: each condition of
-- `matches_search_leaf` on the result of `merge_query_fields` of crates/search/src/lib.rs.
use imapped_lightmode.Base.{
  ℕ, min, max, ◌≡◌, refl, ap, ◌∙◌, Bool, true, not, ◌&&◌, ◌||◌, Option, none, some, List, [], ◌∷◌,
  ◌++◌, arith, leb, ◌==◌, any, all, any-append, all-append,
}
use imapped_lightmode.Text.{Text}
use imapped_lightmode.Search.{UidSet, Criteria, contains}
use imapped_lightmode.Search.Merge.{
  join_bounds, first_of, merge_uid_filter, merge_query_fields, is_none,
}
use imapped_lightmode.ImapServer.SearchMatch.{
  MailboxMessageView, given, conditions, matches_search_leaf, matches_header_filters, internal_day,
  sent_day, as_u64, contains_case_insensitive, json_contains, header_value,
}

-- One of the two queries does not ask for this field.
abbrev pub Alone : {A : Type 0} → Option A → Option A → Type 0
Alone a b = (is_none a || is_none b) ≡ true

-- The two queries do not both ask for UIDs, nor both for a day on which a message arrived, nor both
-- for a day on which it was sent.
abbrev pub Mergeable : Criteria → Criteria → Type 0
Mergeable a b =
    Alone a.uid_filter b.uid_filter
    × Alone a.internal_date_on b.internal_date_on
    × Alone a.sent_date_on b.sent_date_on

zip_and : List Bool → List Bool → List Bool
zip_and [] ys = []
zip_and (x ∷ xs) [] = []
zip_and (x ∷ xs) (y ∷ ys) = (x && y) ∷ zip_and xs ys

and_exchange : (a b c d : Bool) → ((a && b) && (c && d)) ≡ ((a && c) && (b && d))
and_exchange a b c d = ground arith

SameLength : List Bool → List Bool → Type 0
SameLength [] [] = Unit
SameLength [] (y ∷ ys) = ⊥
SameLength (x ∷ xs) [] = ⊥
SameLength (x ∷ xs) (y ∷ ys) = SameLength xs ys

all-zip_and :
    (xs ys : List Bool)
    → SameLength xs ys
    → all (λ b. b) (zip_and xs ys) ≡ (all (λ b. b) xs && all (λ b. b) ys)
unfolding zip_and SameLength
all-zip_and [] [] h = refl
all-zip_and [] (y ∷ ys) h = absurd h
all-zip_and (x ∷ xs) [] h = absurd h
all-zip_and (x ∷ xs) (y ∷ ys) h =
    ap (λ r. (x && y) && r) (all-zip_and xs ys h)
    ∙ and_exchange x y (all (λ b. b) xs) (all (λ b. b) ys)

given-Alone :
    {A : Type 0} (test : A → Bool) (f : Option A → Option A → Option A) (a b : Option A)
    → Alone a b
    → ((o : Option A) → f none o ≡ o)
    → ((o : Option A) → f o none ≡ o)
    → given test (f a b) ≡ (given test a && given test b)
unfolding given is_none
given-Alone test f none b h left right = ap (given test) (left b)
given-Alone test f (some a) none h left right = ap (given test) (right (some a)) ∙ ground arith
given-Alone test f (some a) (some b) h left right = cc

-- A bound that is the stricter of two is met exactly when both are.
given-join_bounds :
    (test : ℕ → Bool) (f : ℕ → ℕ → ℕ) (a b : Option ℕ)
    → ((m n : ℕ) → test (f m n) ≡ (test m && test n))
    → given test (join_bounds f a b) ≡ (given test a && given test b)
unfolding given join_bounds
given-join_bounds test f none none h = refl
given-join_bounds test f none (some b) h = refl
given-join_bounds test f (some a) none h = ground arith
given-join_bounds test f (some a) (some b) h = h a b

above_max : (v m n : ℕ) → not (leb v (max m n)) ≡ (not (leb v m) && not (leb v n))
above_max v m n = ground arith

below_min : (v m n : ℕ) → not (leb (min m n) v) ≡ (not (leb m v) && not (leb n v))
below_min v m n = ground arith

since_max : (v m n : ℕ) → leb (max m n) v ≡ (leb m v && leb n v)
since_max v m n = ground arith

not-any-append :
    {A : Type 0} (p : A → Bool) (xs ys : List A)
    → not (any p (xs ++ ys)) ≡ (not (any p xs) && not (any p ys))
not-any-append p xs ys = ground (arith, any-append p xs ys)

first_of-none : (o : Option ℕ) → first_of none o ≡ o
unfolding first_of
first_of-none o = refl

first_of-none_right : (o : Option ℕ) → first_of o none ≡ o
unfolding first_of
first_of-none_right none = refl
first_of-none_right (some n) = refl

merge-none : (o : Option UidSet) → merge_uid_filter none o ≡ o
unfolding merge_uid_filter
merge-none none = refl
merge-none (some s) = refl

merge-none_right : (o : Option UidSet) → merge_uid_filter o none ≡ o
unfolding merge_uid_filter
merge-none_right none = refl
merge-none_right (some s) = refl

module _ (json_string : Text → Text) (view : MailboxMessageView) where
  conditions-SameLength :
      (a b : Criteria) → SameLength (conditions json_string view a) (conditions json_string view b)
  unfolding conditions SameLength
  conditions-SameLength a b = tt

  filters-append :
      (xs ys : List (Text × Text))
      → matches_header_filters json_string view (xs ++ ys)
        ≡ (matches_header_filters json_string view xs && matches_header_filters json_string view ys)
  unfolding matches_header_filters
  filters-append xs ys =
      all-append (λ (f : Text × Text). json_contains f.1 (header_value json_string view f.0)) xs ys

  conditions-merge :
      (a b : Criteria)
      → Mergeable a b
      → conditions json_string view (merge_query_fields a b)
        ≡ zip_and (conditions json_string view a) (conditions json_string view b)
  unfolding conditions zip_and merge_query_fields
  conditions-merge a b m = cc (
    given-Alone (λ set. contains set (as_u64 view.local_uid)) merge_uid_filter a.uid_filter
        b.uid_filter m.0 merge-none merge-none_right,
    all-append (contains_case_insensitive view.flags) a.required_flags b.required_flags,
    not-any-append (contains_case_insensitive view.flags) a.forbidden_flags b.forbidden_flags,
    all-append (contains_case_insensitive view.keywords) a.required_keywords b.required_keywords,
    not-any-append (contains_case_insensitive view.keywords) a.forbidden_keywords
        b.forbidden_keywords,
    filters-append a.header_filters b.header_filters,
    given-join_bounds (λ size. not (leb (as_u64 view.size_octets) size)) max a.larger_than
        b.larger_than (above_max (as_u64 view.size_octets)),
    given-join_bounds (λ size. not (leb size (as_u64 view.size_octets))) min a.smaller_than
        b.smaller_than (below_min (as_u64 view.size_octets)),
    given-join_bounds (λ day. not (leb day (internal_day view))) min a.internal_date_before
        b.internal_date_before (below_min (internal_day view)),
    given-Alone (λ day. internal_day view == day) first_of a.internal_date_on b.internal_date_on m.1
        first_of-none first_of-none_right,
    given-join_bounds (λ day. leb day (internal_day view)) max a.internal_date_since
        b.internal_date_since (since_max (internal_day view)),
    given-join_bounds (λ day. not (leb day (sent_day view))) min a.sent_date_before
        b.sent_date_before (below_min (sent_day view)),
    given-Alone (λ day. sent_day view == day) first_of a.sent_date_on b.sent_date_on m.2
        first_of-none first_of-none_right,
    given-join_bounds (λ day. leb day (sent_day view)) max a.sent_date_since b.sent_date_since
        (since_max (sent_day view)),
  )

  -- A message fits the merge of two queries that do not both ask for UIDs, for a day of arrival or for
  -- a day of sending, exactly when it fits both.
  pub matches_search_leaf-merge_query_fields :
      (a b : Criteria)
      → Mergeable a b
      → matches_search_leaf json_string view (merge_query_fields a b)
        ≡ (matches_search_leaf json_string view a && matches_search_leaf json_string view b)
  unfolding matches_search_leaf
  matches_search_leaf-merge_query_fields a b m =
      ap (all (λ b. b)) (conditions-merge a b m)
      ∙ all-zip_and (conditions json_string view a) (conditions json_string view b)
          (conditions-SameLength a b)
