-- ===== src/ImapServer/SearchRequest.antt =====
-- crates/imap-server/src/imap.rs: the arguments of SEARCH and SORT before their criteria, and the reply
-- of an extended SEARCH. `NaiveDate::parse_from_str` is a parameter, as it is of the search parser.
mod Tests
use imapped_lightmode.Base.{
  ℕ, Bool, true, false, ◌||◌, Option, none, some, List, [], ◌∷◌, ◌++◌, ◌==◌, ltb, length,
  if◌then◌else◌, Result, ok, err, ◌>>=◌, parse_error, imap_command,
}
use imapped_lightmode.Text.{Text, lit, eq}
use imapped_lightmode.Text.Case.{to_ascii_uppercase, eq_ignore_ascii_case}
use imapped_lightmode.Text.Trim.{trim, strip_prefix, strip_suffix, trim_start_where, trim_end_where}
use imapped_lightmode.Text.Split.{split_whitespace}
use imapped_lightmode.Text.Decimal.{show}
use imapped_lightmode.Search.{SearchQuery}
use imapped_lightmode.Search.Parser.{from_imap_args}
use imapped_lightmode.Protocol.NumberSet.{format_number_set}

pub record SearchReturnOptions : Type 0 where
  pub count : Bool
  pub min : Bool
  pub max : Bool
  pub all : Bool

abbrev pub default_options : SearchReturnOptions
default_options = record { count = false; min = false; max = false; all = false }

abbrev or_self : Text → Option Text → Text
or_self s none = s
or_self s (some stripped) = stripped

-- One token of the options.
unfoldable pub add_option : Text → SearchReturnOptions → Result SearchReturnOptions
add_option token options =
    if eq token (lit "COUNT")
    then ok (record options { count = true })
    else if eq token (lit "MIN")
    then ok (record options { min = true })
    else if eq token (lit "MAX")
    then ok (record options { max = true })
    else if eq token (lit "ALL")
    then ok (record options { all = true })
    else err (parse_error (lit "unsupported ESEARCH return option: " ++ token))

unfoldable pub add_options : List Text → SearchReturnOptions → Result SearchReturnOptions
unfolding add_option
add_options [] options = ok options
add_options (token ∷ tokens) options =
    add_option (to_ascii_uppercase token) options >>= add_options tokens

-- One parenthesis at each end is taken away, if it is there.
unfoldable pub without_parens : Text → Text
without_parens s =
    let opened = or_self s (strip_prefix (lit "(") s) in
    or_self opened (strip_suffix (lit ")") opened)

unfoldable pub parse_search_return_options : Text → Result SearchReturnOptions
unfolding add_options without_parens
parse_search_return_options value =
    add_options (split_whitespace (without_parens (trim value))) default_options

unfoldable pub is_supported_charset : Text → Bool
is_supported_charset charset =
    eq (to_ascii_uppercase charset) (lit "UTF-8")
    || eq (to_ascii_uppercase charset) (lit "US-ASCII")

-- The loop over RETURN and CHARSET: the options and the arguments that are left.
unfoldable pub search_prefix :
    Option SearchReturnOptions → List Text → Result (Option SearchReturnOptions × List Text)
unfolding parse_search_return_options is_supported_charset
search_prefix options [] = ok (options, [])
search_prefix options (arg ∷ []) =
    if eq_ignore_ascii_case arg (lit "RETURN")
    then err (parse_error (lit "RETURN requires options"))
    else if eq_ignore_ascii_case arg (lit "CHARSET")
    then err (parse_error (lit "CHARSET requires a value"))
    else ok (options, arg ∷ [])
search_prefix options (arg ∷ value ∷ args) =
    let charset = search_prefix options args in
    let with_options = λ (found : SearchReturnOptions). search_prefix (some found) args in
    if eq_ignore_ascii_case arg (lit "RETURN")
    then parse_search_return_options value >>= with_options
    else if eq_ignore_ascii_case arg (lit "CHARSET")
    then if is_supported_charset value
      then charset
      else err (imap_command (lit "BADCHARSET unsupported SEARCH charset: " ++ value))
    else ok (options, arg ∷ value ∷ args)

-- The numbers are the `u64` of the results; `min` and `max` of an empty list are none.
unfoldable pub min_of : List ℕ → Option ℕ
min_of [] = none
min_of (n ∷ ns) = least n (min_of ns)
  where
    least : ℕ → Option ℕ → Option ℕ
    least n none = some n
    least n (some m) = if ltb m n then some m else some n

unfoldable pub max_of : List ℕ → Option ℕ
max_of [] = none
max_of (n ∷ ns) = greatest n (max_of ns)
  where
    greatest : ℕ → Option ℕ → Option ℕ
    greatest n none = some n
    greatest n (some m) = if ltb n m then some m else some n

unfoldable pub summary_part : Text → Option ℕ → Text
summary_part name none = []
summary_part name (some n) = name ++ show n

unfoldable pub format_esearch_summary : List ℕ → SearchReturnOptions → Text
unfolding summary_part min_of max_of
format_esearch_summary results options =
    (if options.count then lit " COUNT " ++ show (length results) else [])
    ++ ((if options.min then summary_part (lit " MIN ") (min_of results) else [])
        ++ ((if options.max then summary_part (lit " MAX ") (max_of results) else [])
            ++ (if options.all then lit " ALL " ++ format_number_set results else [])))

pub data SortKey : Type 0 where
  date : SortKey
  subject : SortKey
  from : SortKey
  to : SortKey
  cc : SortKey
  size : SortKey
  arrival : SortKey
  uid : SortKey

-- The key that a token names; REVERSE is none.
unfoldable pub sort_key : Text → Result (Option SortKey)
sort_key token =
    if eq token (lit "DATE")
    then ok (some SortKey.date)
    else if eq token (lit "SUBJECT")
    then ok (some SortKey.subject)
    else if eq token (lit "FROM")
    then ok (some SortKey.from)
    else if eq token (lit "TO")
    then ok (some SortKey.to)
    else if eq token (lit "CC")
    then ok (some SortKey.cc)
    else if eq token (lit "SIZE")
    then ok (some SortKey.size)
    else if eq token (lit "ARRIVAL")
    then ok (some SortKey.arrival)
    else if eq token (lit "UID")
    then ok (some SortKey.uid)
    else if eq token (lit "REVERSE")
    then ok none
    else err (parse_error (lit "unsupported SORT key: " ++ token))

abbrev add_key : Option SortKey → List SortKey × Bool → List SortKey × Bool
add_key none keys = (keys.0, true)
add_key (some key) keys = (key ∷ keys.0, keys.1)

-- The loop over the tokens: the keys in their order, and whether REVERSE is among the tokens.
unfoldable pub sort_keys : List Text → Result (List SortKey × Bool)
unfolding sort_key
sort_keys [] = ok ([], false)
sort_keys (token ∷ tokens) = sort_key (to_ascii_uppercase token) >>= λ key.
    sort_keys tokens >>= λ keys. ok (add_key key keys)

unfoldable pub sort_tokens : Text → List Text
sort_tokens s =
    split_whitespace (trim_end_where (λ c. c == b')') (trim_start_where (λ c. c == b'(') (trim s)))

unfoldable pub required_keys : List Text → Result (List SortKey × Bool)
unfolding sort_keys
required_keys [] = err (parse_error (lit "SORT requires at least one sort key"))
required_keys (token ∷ tokens) = sort_keys (token ∷ tokens)

module _ (parse_from_str : Text → Option ℕ) where
  unfoldable pub parse_search_request :
      List Text → Result (SearchQuery × Option SearchReturnOptions)
  unfolding search_prefix
  parse_search_request args = search_prefix none args >>= λ prefix.
      from_imap_args parse_from_str prefix.1 >>= λ query. ok (query, prefix.0)

  -- The charset, which is the second argument, is not read.
  unfoldable pub parse_sort_request :
      List Text → Result (Option (List SortKey × Bool × SearchQuery))
  unfolding required_keys sort_tokens
  parse_sort_request (keys ∷ charset ∷ criterion ∷ args) =
      required_keys (sort_tokens keys) >>= λ found.
      from_imap_args parse_from_str (criterion ∷ args) >>= λ query.
      ok (some (found.0, found.1, query))
  parse_sort_request (keys ∷ charset ∷ []) = ok none
  parse_sort_request (keys ∷ []) = ok none
  parse_sort_request [] = ok none
