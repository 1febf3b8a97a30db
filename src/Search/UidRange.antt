-- ===== src/Search/UidRange.antt =====
-- `parse_uid_set` and `parse_uid_bound` of crates/search/src/lib.rs.
use imapped_lightmode.Base.{
  ℕ, Option, none, some, List, [], ◌∷◌, ◌++◌, if◌then◌else◌, parse_error, Result, ok, err, ◌>>=◌,
  ok_or,
}
use imapped_lightmode.Text.{Text, lit, eq}
use imapped_lightmode.Text.Split.{split, split_once}
use imapped_lightmode.Text.Decimal.{u64_max, parse_u64}
use imapped_lightmode.Search.{UidSet, push}

unfoldable pub numeric_bound : Text → Option ℕ → Result (Option ℕ)
numeric_bound value none = err (parse_error (lit "invalid UID bound: " ++ value))
numeric_bound value (some n) = ok (some n)

-- `*` is no number.
unfoldable pub parse_uid_bound : Text → Result (Option ℕ)
unfolding numeric_bound
parse_uid_bound value =
    if eq value (lit "*") then ok none else numeric_bound value (parse_u64 value)

unfoldable pub unwrap_or : Option ℕ → ℕ → ℕ
unwrap_or none default = default
unwrap_or (some n) default = n

-- One round of the loop.
unfoldable pub push_part : UidSet → Text → Result UidSet
unfolding parse_uid_bound unwrap_or
push_part set part = elim (split_once b':' part) [
  | some (start, end) ↦ do
    start_bound ← parse_uid_bound start
    end_bound ← parse_uid_bound end
    ok (push set (unwrap_or start_bound 1) (unwrap_or end_bound u64_max))
  | none ↦ do
    bound ← parse_uid_bound part
    uid ← ok_or bound (parse_error (lit "UID must be numeric"))
    ok (push set uid uid)
]

unfoldable pub push_parts : UidSet → List Text → Result UidSet
push_parts set [] = ok set
push_parts set (part ∷ parts) = push_part set part >>= λ next. push_parts next parts

unfoldable pub parse_uid_set : Text → Result UidSet
unfolding push_parts
parse_uid_set value = push_parts (record { ranges = [] }) (split b',' value)
