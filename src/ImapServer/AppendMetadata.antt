-- ===== src/ImapServer/AppendMetadata.antt =====
-- crates/imap-server/src/imap.rs: the arguments of APPEND between the mailbox and the message.
-- `DateTime::parse_from_str` with the format `%d-%b-%Y %H:%M:%S %z` is a parameter, and so is the text
-- `{value:?}: {err}` of its error.
use imapped_lightmode.Base.{
  ℕ, Bool, true, false, Option, none, some, List, [], ◌∷◌, ◌++◌, leb, take, drop, length,
  if◌then◌else◌, Result, ok, err, ◌>>=◌, ok_or, parse_error,
}
use imapped_lightmode.Text.{Text, lit}
use imapped_lightmode.Text.Find.{starts_with}
use imapped_lightmode.Protocol.Store.{parse_flag_list}

-- `args.get(1..body_index).unwrap_or(&[])`: out of range there are none.
unfoldable pub append_extras : List Text → ℕ → List Text
append_extras args body_index =
    if leb 1 body_index
    then if leb body_index (length args) then drop 1 (take body_index args) else []
    else []

abbrev too_many : Result (List Text × Option ℕ)
too_many = err (parse_error (lit "APPEND accepts at most one flag list and one date-time"))

module _ (parse_from_str : Text → Option ℕ) (date_error : Text → Text) where
  unfoldable pub parse_imap_date_time : Text → Result ℕ
  parse_imap_date_time value =
      ok_or (parse_from_str value) (parse_error (lit "invalid IMAP date-time " ++ date_error value))

  unfoldable pub flags_and_date : Text → Text → Result (List Text × Option ℕ)
  unfolding parse_imap_date_time
  flags_and_date flags date =
      parse_imap_date_time date >>= λ time. ok (parse_flag_list flags, some time)

  unfoldable pub one_extra : Text → Result (List Text × Option ℕ)
  unfolding parse_imap_date_time
  one_extra token =
      if starts_with (lit "(") token
      then ok (parse_flag_list token, none)
      else parse_imap_date_time token >>= λ time. ok ([], some time)

  unfoldable pub two_extras : Bool → Bool → Text → Text → Result (List Text × Option ℕ)
  unfolding flags_and_date
  two_extras true false first second = flags_and_date first second
  two_extras false true first second = flags_and_date second first
  two_extras true true first second = too_many
  two_extras false false first second = too_many

  unfoldable pub metadata_of : List Text → Result (List Text × Option ℕ)
  unfolding one_extra two_extras
  metadata_of [] = ok ([], none)
  metadata_of (token ∷ []) = one_extra token
  metadata_of (first ∷ second ∷ []) =
      two_extras (starts_with (lit "(") first) (starts_with (lit "(") second) first second
  metadata_of (first ∷ second ∷ third ∷ extras) = too_many

  unfoldable pub parse_append_metadata : List Text → ℕ → Result (List Text × Option ℕ)
  unfolding metadata_of append_extras
  parse_append_metadata args body_index = metadata_of (append_extras args body_index)
