-- ===== src/ImapServer/Tests.antt =====
-- The properties of the server's pure functions at concrete requests.
use imapped_lightmode.Base.{
  ◌≡◌, true, ◌↔◌, some, List, [], ◌∷◌, ◌++◌, arith, take, drop, if◌then◌else◌,
}
use imapped_lightmode.Text.{Text, lit, eq}
use imapped_lightmode.Text.Case.{to_ascii_lowercase, eq_ignore_ascii_case}
use imapped_lightmode.Text.Find.{contains}
use imapped_lightmode.Protocol.{add, header, text}
use imapped_lightmode.ImapServer.ListPattern.{imap_list_pattern_matches, delimiter_char}
use imapped_lightmode.ImapServer.ListPattern.Laws.{imap_list_pattern_matches_iff, Matches}
use imapped_lightmode.ImapServer.StoreFlags.{apply_store_flags, has_flag}
use imapped_lightmode.ImapServer.StoreFlags.Laws.{
  has_flag-apply_store_flags, apply_store_flags-IsDistinct, IsDistinct, expected,
}
use imapped_lightmode.ImapServer.FetchBytes.{crlf, raw_fetch_bytes, apply_partial, header_blocks}
use imapped_lightmode.ImapServer.FetchBytes.Laws.{header-append-text, apply_partial-take-drop}
use imapped_lightmode.ImapServer.FetchBytes.Blocks.{header_blocks-unlines, unlines, IsLine}

imap_list_pattern_matches_iff_example :
    (imap_list_pattern_matches (lit "work/%") (lit "Work/2024") (lit "/") ≡ true)
    ↔ Matches
        (delimiter_char (lit "/"))
        (to_ascii_lowercase (lit "work/%"))
        (to_ascii_lowercase (lit "Work/2024"))
imap_list_pattern_matches_iff_example =
    imap_list_pattern_matches_iff (lit "work/%") (lit "Work/2024") (lit "/")

abbrev current : List Text
current = (b'a' ∷ []) ∷ (b'b' ∷ []) ∷ []

abbrev requested : List Text
requested = (b'B' ∷ []) ∷ (b'c' ∷ []) ∷ (b'C' ∷ []) ∷ []

has_flag-apply_store_flags_example :
    has_flag (apply_store_flags current add requested) (b'C' ∷ [])
    ≡ expected add (has_flag current (b'C' ∷ [])) (has_flag requested (b'C' ∷ []))
has_flag-apply_store_flags_example = has_flag-apply_store_flags current add requested (b'C' ∷ [])

current-IsDistinct : IsDistinct current
unfolding has_flag eq_ignore_ascii_case to_ascii_lowercase eq
current-IsDistinct = ground arith

apply_store_flags-IsDistinct_example : IsDistinct (apply_store_flags current add requested)
apply_store_flags-IsDistinct_example =
    apply_store_flags-IsDistinct current add requested current-IsDistinct

abbrev message : Text
message = b'A' ∷ b':' ∷ 13 ∷ 10 ∷ 13 ∷ 10 ∷ b'x' ∷ []

header-append-text_example :
    raw_fetch_bytes (λ s. s) message header ++ raw_fetch_bytes (λ s. s) message text
    ≡ (if contains (crlf ++ crlf) message then message else message ++ crlf)
header-append-text_example = header-append-text (λ s. s) message

apply_partial-take-drop_example :
    apply_partial message (some (4, some 100)) ≡ take 100 (drop 4 message)
apply_partial-take-drop_example = apply_partial-take-drop message 4 100 (omega arith)

abbrev subject : Text
subject = b'S' ∷ b':' ∷ []

subject-IsLine : IsLine subject
subject-IsLine = ground arith

header_blocks-unlines_example :
    header_blocks (unlines ((subject ∷ []) ++ subject ∷ []))
    ≡ (subject ∷ []) ++ subject ∷ (subject ++ crlf) ∷ []
header_blocks-unlines_example =
    header_blocks-unlines (subject ∷ []) subject (subject-IsLine, tt) subject-IsLine
