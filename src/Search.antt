-- ===== src/Search.antt =====
-- crates/search/src/lib.rs: the query that SEARCH criteria are turned into. A `NaiveDate` is its
-- number in the order of the days.
pub mod UidRange
pub mod Merge
pub mod Parser
use imapped_lightmode.Base.{
  ℕ, min, max, Bool, true, false, ◌&&◌, Option, none, some, List, [], ◌∷◌, ◌++◌, leb, any,
}
use imapped_lightmode.Text.{Text}

pub record UidSet : Type 0 where
  pub ranges : List (ℕ × ℕ)

unfoldable pub contains : UidSet → ℕ → Bool
contains set uid = any (λ (r : ℕ × ℕ). leb r.0 uid && leb uid r.1) set.ranges

unfoldable pub push : UidSet → ℕ → ℕ → UidSet
push set start end = record { ranges = set.ranges ++ (min start end, max start end) ∷ [] }

-- `SearchQuery` without its field `expr`.
pub record Criteria : Type 0 where
  pub match_all : Bool
  pub query_string : Option Text
  pub uid_filter : Option UidSet
  pub recent_only : Bool
  pub old_only : Bool
  pub header_filters : List (Text × Text)
  pub required_flags : List Text
  pub forbidden_flags : List Text
  pub required_keywords : List Text
  pub forbidden_keywords : List Text
  pub larger_than : Option ℕ
  pub smaller_than : Option ℕ
  pub internal_date_before : Option ℕ
  pub internal_date_on : Option ℕ
  pub internal_date_since : Option ℕ
  pub sent_date_before : Option ℕ
  pub sent_date_on : Option ℕ
  pub sent_date_since : Option ℕ

-- The `expr` of a leaf is left out: the parser leaves it empty, and matching a leaf does not read it.
mutual
  pub data SearchExpr : Type 0 where
    leaf : Criteria → SearchExpr
    and : SearchExprs → SearchExpr
    or : SearchExpr → SearchExpr → SearchExpr
    negation : SearchExpr → SearchExpr

  pub data SearchExprs : Type 0 where
    nil : SearchExprs
    cons : SearchExpr → SearchExprs → SearchExprs

pub record SearchQuery : Type 0 where
  pub criteria : Criteria
  pub expr : Option SearchExpr

abbrev pub all_criteria : Criteria
all_criteria = record {
  match_all = true;
  query_string = none;
  uid_filter = none;
  recent_only = false;
  old_only = false;
  header_filters = [];
  required_flags = [];
  forbidden_flags = [];
  required_keywords = [];
  forbidden_keywords = [];
  larger_than = none;
  smaller_than = none;
  internal_date_before = none;
  internal_date_on = none;
  internal_date_since = none;
  sent_date_before = none;
  sent_date_on = none;
  sent_date_since = none;
}

-- `SearchQuery::all`.
abbrev pub all_query : SearchQuery
all_query = record { criteria = all_criteria; expr = none }
