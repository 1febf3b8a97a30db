-- ===== src/Protocol/Fetch/Laws.antt =====
-- `BODY[…]` and `BODY.PEEK[…]` in `parse_raw_fetch_request` of crates/protocol/src/lib.rs.
use mathlib.Core.Option
use imapped_lightmode.Base.{
  ◌≡◌, refl, Bool, true, false, Option, none, some, ◌++◌, arith, Option-cases,
}
use imapped_lightmode.Text.{Text, lit}
use imapped_lightmode.Text.Find.{starts_with}
use imapped_lightmode.Protocol.{RawFetchSection, RawFetchRequest}
use imapped_lightmode.Protocol.Fetch.{
  Partial, section_of, request_of, normalize, split_partial, finish_request,
  parse_raw_fetch_request,
}

-- What is asked for, apart from the label and whether the message is marked as seen.
abbrev pub asked_for : RawFetchRequest → RawFetchSection × Partial
asked_for r = (r.section, r.partial)

request_of-asked_for :
    (label other item : Text) (peek peek_other : Bool) (partial : Partial)
    → Option.map asked_for (request_of label peek item partial)
      ≡ Option.map asked_for (request_of other peek_other item partial)
unfolding request_of
request_of-asked_for label other item peek peek_other partial =
    ground (arith, Option-cases (section_of item))

finish_request-asked_for :
    (label other : Text) (peek peek_other : Bool) (o : Option (Text × Partial))
    → Option.map asked_for (finish_request label peek o)
      ≡ Option.map asked_for (finish_request other peek_other o)
unfolding finish_request
finish_request-asked_for label other peek peek_other none = refl
finish_request-asked_for label other peek peek_other (some (rest, partial)) =
    request_of-asked_for label other rest peek peek_other partial

-- `BODY.PEEK[` and `BODY[` ask for the same section and the same range, or are both refused: the
-- requests differ in the label and in `peek` only.
pub parse_raw_fetch_request-peek :
    (rest : Text)
    → Option.map asked_for (parse_raw_fetch_request (lit "BODY.PEEK[" ++ rest))
      ≡ Option.map asked_for (parse_raw_fetch_request (lit "BODY[" ++ rest))
unfolding parse_raw_fetch_request normalize starts_with lit
parse_raw_fetch_request-peek rest =
    finish_request-asked_for (lit "BODY.PEEK[" ++ rest) (lit "BODY[" ++ rest) true false
      (split_partial (lit "BODY[" ++ rest))
