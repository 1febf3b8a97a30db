-- ===== src/ImapServer/SearchRequest/Tests.antt =====
-- The requests of SEARCH and SORT at concrete arguments.
use imapped_lightmode.Base.{◌≡◌, refl, true, false, none, [], ◌∷◌, ok, err, parse_error}
use imapped_lightmode.Text.{lit, eq, is_whitespace, join}
use imapped_lightmode.Text.Case.{to_ascii_uppercase, eq_ignore_ascii_case}
use imapped_lightmode.Text.Trim.{trim, strip_prefix, strip_suffix}
use imapped_lightmode.Text.Split.{split_whitespace}
use imapped_lightmode.Text.Decimal.{show}
use imapped_lightmode.Base.Sort.{sort, dedup}
use imapped_lightmode.Base.Sort.Orders.{nat_ord}
use imapped_lightmode.Protocol.NumberSet.{format_number_set, format_sorted, group, format_range}
use imapped_lightmode.ImapServer.SearchRequest.{
  parse_search_return_options, format_esearch_summary, sort_keys, SortKey, search_prefix,
}

all_options :
    parse_search_return_options (lit " (count MIN Max)")
    ≡ ok (record { count = true; min = true; max = true; all = false })
unfolding parse_search_return_options split_whitespace strip_suffix strip_prefix lit trim
    is_whitespace to_ascii_uppercase
all_options = refl

summary :
    format_esearch_summary
      (3 ∷ 2 ∷ 5 ∷ [])
      (record { count = true; min = true; max = true; all = true })
    ≡ lit " COUNT 3 MIN 2 MAX 5 ALL 2:3,5"
unfolding format_esearch_summary lit show format_number_set format_sorted dedup sort nat_ord join
    group format_range
summary = refl

reverse_anywhere :
    sort_keys (lit "date" ∷ lit "REVERSE" ∷ lit "size" ∷ [])
    ≡ ok (SortKey.date ∷ SortKey.size ∷ [], true)
unfolding sort_keys eq to_ascii_uppercase lit
reverse_anywhere = refl

return_alone :
    search_prefix none (lit "charset" ∷ lit "utf-8" ∷ lit "return" ∷ [])
    ≡ err (parse_error (lit "RETURN requires options"))
unfolding search_prefix eq_ignore_ascii_case lit to_ascii_uppercase
return_alone = refl
