-- ===== src/ImapServer/ListPattern.antt =====
-- `imap_list_pattern_matches` of crates/imap-server/src/imap.rs: the mailbox patterns of LIST and
-- LSUB. The indices of the source's `matches` are the rests of the pattern and of the name.
pub mod Laws
use imapped_lightmode.Base.{
  ℕ, Bool, true, false, not, ◌&&◌, ◌||◌, List, [], ◌∷◌, ◌==◌, if◌then◌else◌, is_empty,
}
use imapped_lightmode.Text.{Text}
use imapped_lightmode.Text.Case.{to_ascii_lowercase}

-- `*`: the rest of the pattern at some rest of the name.
unfoldable pub any_rest : (Text → Bool) → Text → Bool
any_rest k [] = k []
any_rest k (c ∷ name) = k (c ∷ name) || any_rest k name

-- `%`: the same, but the loop ends at a delimiter.
unfoldable pub segment_rest : ℕ → (Text → Bool) → Text → Bool
segment_rest delimiter k [] = k []
segment_rest delimiter k (c ∷ name) =
    if k (c ∷ name) then true else if c == delimiter then false else segment_rest delimiter k name

unfoldable pub next_char : ℕ → (Text → Bool) → Text → Bool
next_char pattern_char k [] = false
next_char pattern_char k (c ∷ name) = if pattern_char == c then k name else false

unfoldable pub matches : ℕ → Text → Text → Bool
unfolding any_rest segment_rest next_char
matches delimiter [] name = is_empty name
matches delimiter (p ∷ pattern) name =
    let rest = matches delimiter pattern in
    if p == b'*'
    then any_rest rest name
    else if p == b'%'
    then segment_rest delimiter rest name
    else next_char p rest name

-- `delimiter.chars().next().unwrap_or('/')`.
unfoldable pub delimiter_char : Text → ℕ
delimiter_char [] = b'/'
delimiter_char (c ∷ s) = c

unfoldable pub imap_list_pattern_matches : Text → Text → Text → Bool
imap_list_pattern_matches pattern name delimiter =
    matches (delimiter_char delimiter) (to_ascii_lowercase pattern) (to_ascii_lowercase name)
