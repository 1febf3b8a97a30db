-- ===== src/ImapServer/FetchBytes.antt =====
-- The bytes that a FETCH of a body section returns: `split_rfc822` to `apply_partial` of
-- crates/imap-server/src/imap.rs. A slice of the source is the list of its bytes.
pub mod Laws
pub mod Blocks
use mathlib.Core.Bool.{xor}
use imapped_lightmode.Base.{
  ℕ, suc, ◌+◌, ◌-◌, ◌^◌, min, Bool, true, false, not, ◌&&◌, ◌||◌, Option, none, some, List, [], ◌∷◌,
  ◌++◌, leb, ltb, ◌==◌, if◌then◌else◌, is_empty, length, any, retain, take, drop,
}
use imapped_lightmode.Text.{Text, lit}
use imapped_lightmode.Text.Case.{to_ascii_uppercase, eq_ignore_ascii_case}
use imapped_lightmode.Text.Trim.{trim}
use imapped_lightmode.Text.Split.{split_once}
use imapped_lightmode.Text.Find.{find}
use imapped_lightmode.Text.Decimal.{u64_max}
use imapped_lightmode.Protocol.{FetchBodySection, full, header, text, mime, header_fields}

abbrev pub crlf : Text
crlf = 13 ∷ 10 ∷ []

-- The header section, with the line end of its last line, and the body behind the empty line.
unfoldable pub split_rfc822 : Text → Text × Text
split_rfc822 raw = elim (find (crlf ++ crlf) raw) [
  | some (before, rest) ↦ (before ++ crlf, drop 4 rest)
  | none ↦ (raw, [])
]

unfoldable pub push_nonempty : Text → List Text → List Text
push_nonempty block blocks = if is_empty block then blocks else block ∷ blocks

-- The loop of `header_blocks` and the push behind it. `block` is `headers[start..index]`, and the
-- second argument `headers[index..]`. At a line end that is the end of the headers the loop breaks
-- with `start` unchanged.
unfoldable pub block_loop : Text → Text → List Text
unfolding push_nonempty
block_loop block [] = push_nonempty block []
block_loop block (a ∷ []) = (block ++ a ∷ []) ∷ []
block_loop block (a ∷ b ∷ []) =
    if a == 13 && b == 10
    then push_nonempty block ((block ++ a ∷ b ∷ []) ∷ [])
    else block_loop (block ++ a ∷ []) (b ∷ [])
block_loop block (a ∷ b ∷ c ∷ rest) =
    let continued = block_loop (block ++ a ∷ b ∷ []) (c ∷ rest) in
    let next = block ∷ block_loop [] (c ∷ rest) in
    let inside = block_loop (block ++ a ∷ []) (b ∷ c ∷ rest) in
    if a == 13 && b == 10 then (if c == 32 || c == 9 then continued else next) else inside

unfoldable pub header_blocks : Text → List Text
unfolding block_loop
header_blocks headers = retain (λ block. not (is_empty block)) (block_loop [] headers)

unfoldable pub first_line : Text → Text
first_line block = elim (find crlf block) [ some (before, rest) ↦ before | none ↦ block ]

unfoldable pub apply_partial : Text → Option (ℕ × Option ℕ) → Text
apply_partial bytes none = bytes
apply_partial bytes (some (offset, count)) = if leb (length bytes) offset then [] else elim count [
  | some n ↦ take (min (min (offset + n) u64_max) (length bytes) - offset) (drop offset bytes)
  | none ↦ take (length bytes - offset) (drop offset bytes)
]

-- The fields of a MIME part that its synthetic header is made of; `description` is the text at that
-- key of the part's `metadata_json`.
pub record MimePart : Type 0 where
  pub content_type : Text
  pub charset : Option Text
  pub disposition : Option Text
  pub filename : Option Text
  pub content_id : Option Text
  pub transfer_encoding : Option Text
  pub description : Option Text

unfoldable pub field_line : Text → Option Text → Text → Text
field_line before none after = []
field_line before (some value) after = before ++ (value ++ after)

unfoldable pub disposition_lines : Option Text → Option Text → Text
unfolding lit
disposition_lines none none = []
disposition_lines (some disposition) none = lit "Content-Disposition: " ++ (disposition ++ crlf)
disposition_lines (some disposition) (some filename) =
    lit "Content-Disposition: "
    ++ (disposition
        ++ (lit ";" ++ (crlf ++ (9 ∷ (lit "filename=\"" ++ (filename ++ (34 ∷ crlf)))))))
disposition_lines none (some filename) =
    lit "Content-Disposition: attachment;"
    ++ (crlf ++ (9 ∷ (lit "filename=\"" ++ (filename ++ (34 ∷ crlf)))))

unfoldable pub synthesize_mime_part_headers : MimePart → Text
unfolding lit field_line disposition_lines
synthesize_mime_part_headers part =
    lit "Content-Type: "
    ++ (part.content_type
        ++ (field_line (lit "; charset=\"") part.charset (34 ∷ [])
            ++ (crlf
                ++ (field_line (lit "Content-Transfer-Encoding: ") part.transfer_encoding crlf
                    ++ (field_line (lit "Content-ID: <") part.content_id (lit ">" ++ crlf)
                        ++ (field_line (lit "Content-Description: ") part.description crlf
                            ++ (disposition_lines part.disposition part.filename ++ crlf)))))))

-- `String::from_utf8_lossy`, which is the identity on ASCII, is a parameter.
module _ (from_utf8_lossy : Text → Text) where
  unfoldable pub header_name : Text → Option Text
  unfolding first_line
  header_name block = elim (split_once b':' (first_line block)) [
    | some (name, value) ↦ some (to_ascii_uppercase (trim (from_utf8_lossy name)))
    | none ↦ none
  ]

  unfoldable pub is_named : List Text → Text → Bool
  unfolding header_name
  is_named names block = elim (header_name block) [
    | some name ↦ any (λ candidate. eq_ignore_ascii_case candidate name) names
    | none ↦ any (λ candidate. eq_ignore_ascii_case candidate []) names
  ]

  unfoldable pub write_blocks : List Text → Bool → List Text → Text
  unfolding is_named
  write_blocks names negated [] = []
  write_blocks names negated (block ∷ blocks) =
      let rest = write_blocks names negated blocks in
      if xor (is_named names block) negated then block ++ (crlf ++ rest) else rest

  unfoldable pub select_header_blocks : Text → List Text → Bool → Text
  unfolding write_blocks header_blocks
  select_header_blocks headers names negated =
      write_blocks names negated (header_blocks headers) ++ crlf

  unfoldable pub raw_fetch_bytes : Text → FetchBodySection → Text
  unfolding split_rfc822 select_header_blocks
  raw_fetch_bytes raw full = raw
  raw_fetch_bytes raw header = (split_rfc822 raw).0 ++ crlf
  raw_fetch_bytes raw mime = (split_rfc822 raw).0 ++ crlf
  raw_fetch_bytes raw text = (split_rfc822 raw).1
  raw_fetch_bytes raw (header_fields names negated) =
      select_header_blocks (split_rfc822 raw).0 names negated

  unfoldable pub part_section_bytes : Text → MimePart → FetchBodySection → Text
  unfolding synthesize_mime_part_headers select_header_blocks
  part_section_bytes raw part full = raw
  part_section_bytes raw part text = raw
  part_section_bytes raw part header = synthesize_mime_part_headers part
  part_section_bytes raw part mime = synthesize_mime_part_headers part
  part_section_bytes raw part (header_fields names negated) =
      select_header_blocks (synthesize_mime_part_headers part) names negated

  unfoldable pub mime_part_fetch_bytes : Text → MimePart → FetchBodySection → Text
  unfolding raw_fetch_bytes part_section_bytes eq_ignore_ascii_case lit
  mime_part_fetch_bytes raw part section =
      if eq_ignore_ascii_case part.content_type (lit "message/rfc822")
      then raw_fetch_bytes raw section
      else part_section_bytes raw part section
