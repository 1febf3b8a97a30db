-- ===== src/ImapServer/SearchMatch.antt =====
-- `matches_search_view`, `matches_search_expr`, `matches_search_leaf` and `matches_header_filters` of
-- crates/imap-server/src/imap.rs: whether a message fits a SEARCH query.
mod Tests
pub mod Fields
pub mod Terms
pub mod Query
use imapped_lightmode.Base.{
  ℕ, ◌-◌, ◌/◌, ◌^◌, Bool, true, false, not, ◌&&◌, ◌||◌, Option, none, some, List, [], ◌∷◌, leb,
  ◌==◌, if◌then◌else◌, any, all,
}
use imapped_lightmode.Base.Int.{ℤ, pos, negsuc}
use imapped_lightmode.Text.{Text, lit, eq}
use imapped_lightmode.Text.Case.{to_ascii_lowercase, eq_ignore_ascii_case}
use imapped_lightmode.Text.Find
use imapped_lightmode.Search.{
  UidSet, Criteria, SearchExpr, leaf, and, or, negation, SearchExprs, nil, cons, SearchQuery,
  contains,
}

-- `value as u64` of an `i64`.
unfoldable pub as_u64 : ℤ → ℕ
as_u64 (pos n) = n
as_u64 (negsuc n) = 2 ^ 64 - 1 - n

-- The fields of a message that the search reads. A `DateTime<Utc>` is the number of its second, from
-- the start of the first day of `NaiveDate`. `envelope` gives the JSON text of a field of `envelope_json`.
pub record MailboxMessageView : Type 0 where
  pub local_uid : ℤ
  pub flags : List Text
  pub keywords : List Text
  pub size_octets : ℤ
  pub subject : Option Text
  pub internal_date : Option ℕ
  pub sent_date : Option ℕ
  pub created_at : ℕ
  pub envelope : Text → Option Text

unfoldable pub date_naive : ℕ → ℕ
date_naive time = time / 86400

unfoldable pub or_else : Option ℕ → ℕ → ℕ
or_else none default = default
or_else (some time) default = time

unfoldable pub internal_day : MailboxMessageView → ℕ
unfolding date_naive or_else
internal_day view = date_naive (or_else view.internal_date view.created_at)

unfoldable pub sent_day : MailboxMessageView → ℕ
unfolding date_naive or_else
sent_day view = date_naive (or_else view.sent_date (or_else view.internal_date view.created_at))

unfoldable pub contains_case_insensitive : List Text → Text → Bool
contains_case_insensitive values needle = any (λ value. eq_ignore_ascii_case value needle) values

-- A condition on a value that is only tested if it is given.
unfoldable pub given {ℓ} : {A : Type ℓ} → (A → Bool) → Option A → Bool
given test none = true
given test (some a) = test a

unfoldable pub json_contains : Text → Option Text → Bool
json_contains needle none = false
json_contains needle (some value) =
    Find.contains (to_ascii_lowercase needle) (to_ascii_lowercase value)

-- `serde_json::to_string` of a string is a parameter.
module _ (json_string : Text → Text) where
  unfoldable pub json_of_subject : Option Text → Option Text
  json_of_subject none = none
  json_of_subject (some subject) = some (json_string subject)

  unfoldable pub header_value : MailboxMessageView → Text → Option Text
  unfolding json_of_subject
  header_value view field =
      if eq field (lit "subject")
      then json_of_subject view.subject
      else if eq field (lit "reply-to") || eq field (lit "reply_to")
      then view.envelope (lit "reply_to")
      else if eq field (lit "message-id") || eq field (lit "message_id")
      then view.envelope (lit "message_id")
      else view.envelope field

  unfoldable pub matches_header_filters : MailboxMessageView → List (Text × Text) → Bool
  unfolding json_contains
  matches_header_filters view filters =
      all (λ (f : Text × Text). json_contains f.1 (header_value view f.0)) filters

  -- The conditions, in order: where one fails, the source returns `false`.
  unfoldable pub conditions : MailboxMessageView → Criteria → List Bool
  unfolding given
  conditions view q =
      given (λ set. contains set (as_u64 view.local_uid)) q.uid_filter
      ∷ all (contains_case_insensitive view.flags) q.required_flags
      ∷ not (any (contains_case_insensitive view.flags) q.forbidden_flags)
      ∷ all (contains_case_insensitive view.keywords) q.required_keywords
      ∷ not (any (contains_case_insensitive view.keywords) q.forbidden_keywords)
      ∷ matches_header_filters view q.header_filters
      ∷ given (λ size. not (leb (as_u64 view.size_octets) size)) q.larger_than
      ∷ given (λ size. not (leb size (as_u64 view.size_octets))) q.smaller_than
      ∷ given (λ day. not (leb day (internal_day view))) q.internal_date_before
      ∷ given (λ day. internal_day view == day) q.internal_date_on
      ∷ given (λ day. leb day (internal_day view)) q.internal_date_since
      ∷ given (λ day. not (leb day (sent_day view))) q.sent_date_before
      ∷ given (λ day. sent_day view == day) q.sent_date_on
      ∷ given (λ day. leb day (sent_day view)) q.sent_date_since
      ∷ []

  unfoldable pub matches_search_leaf : MailboxMessageView → Criteria → Bool
  unfolding conditions
  matches_search_leaf view q = all (λ b. b) (conditions view q)

  unfoldable mutual
    pub matches_search_expr : MailboxMessageView → SearchExpr → Bool
    matches_search_expr view (leaf q) = matches_search_leaf view q
    matches_search_expr view (and children) = matches_all view children
    matches_search_expr view (or left right) =
        matches_search_expr view left || matches_search_expr view right
    matches_search_expr view (negation inner) = not (matches_search_expr view inner)

    pub matches_all : MailboxMessageView → SearchExprs → Bool
    matches_all view nil = true
    matches_all view (cons child children) =
        matches_search_expr view child && matches_all view children

  unfoldable pub matches_search_view : MailboxMessageView → SearchQuery → Bool
  unfolding given
  matches_search_view view q =
      matches_search_leaf view q.criteria && given (matches_search_expr view) q.expr
