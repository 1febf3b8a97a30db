-- ===== src/ImapServer/ListPattern/Laws.antt =====
-- The matcher decides the pattern language of RFC 3501, stated as a relation.
use imapped_lightmode.Base.{
  ℕ, ◌≡◌, ◌≢◌, ◌↔◌, refl, sym, ap, subst, Bool, true, false, [], ◌∷◌, ◌++◌, arith, ◌==◌, ==_iff,
  Bool-cases, inl, inr, All,
}
use imapped_lightmode.Text.{Text}
use imapped_lightmode.Text.Case.{to_ascii_lowercase}
use imapped_lightmode.ImapServer.ListPattern.{
  any_rest, segment_rest, next_char, matches, delimiter_char, imap_list_pattern_matches,
}

abbrev pub LacksDelimiter : ℕ → Text → Type 0
LacksDelimiter d = All (λ c. (c == d) ≡ false)

-- `*` stands for any text, `%` for any text without the delimiter, and every other character for
-- itself.
pub data Matches (d : ℕ) : Text → Text → Type 0 where
  done : Matches d [] []
  any_text :
      {p : ℕ} {pattern name : Text} (text rest : Text)
      → p ≡ b'*'
      → name ≡ text ++ rest
      → Matches d pattern rest
      → Matches d (p ∷ pattern) name
  any_segment :
      {p : ℕ} {pattern name : Text} (text rest : Text)
      → p ≡ b'%'
      → LacksDelimiter d text
      → name ≡ text ++ rest
      → Matches d pattern rest
      → Matches d (p ∷ pattern) name
  literal :
      {p : ℕ} {pattern name : Text}
      → p ≢ b'*'
      → p ≢ b'%'
      → Matches d pattern name
      → Matches d (p ∷ pattern) (p ∷ name)

any_rest_sound :
    (k : Text → Bool) (name : Text)
    → any_rest k name ≡ true
    → (text : Text) × (rest : Text) × (name ≡ text ++ rest) × (k rest ≡ true)
unfolding any_rest
any_rest_sound k [] h = ([], [], refl, h)
any_rest_sound k (c ∷ name) h = elim (Bool-cases (k (c ∷ name))) [
  | inl here ↦ ([], c ∷ name, refl, here)
  | inr later ↦
      let (text, rest, split, found) = any_rest_sound k name (ground arith) in
      (c ∷ text, rest, ap (λ r. c ∷ r) split, found)
]

any_rest_complete :
    (k : Text → Bool) (text rest : Text) → k rest ≡ true → any_rest k (text ++ rest) ≡ true
unfolding any_rest
any_rest_complete k [] [] h = h
any_rest_complete k [] (c ∷ rest) h = ground arith
any_rest_complete k (c ∷ text) rest h = ground (arith, any_rest_complete k text rest h)

segment_rest_sound :
    (d : ℕ) (k : Text → Bool) (name : Text)
    → segment_rest d k name ≡ true
    → (text : Text) × (rest : Text) × LacksDelimiter d text
      × (name ≡ text ++ rest)
      × (k rest ≡ true)
unfolding segment_rest
segment_rest_sound d k [] h = ([], [], tt, refl, h)
segment_rest_sound d k (c ∷ name) h = elim (Bool-cases (k (c ∷ name))) [
  | inl here ↦ ([], c ∷ name, tt, refl, here)
  | inr later ↦
      let (text, rest, lacks, split, found) = segment_rest_sound d k name (ground arith) in
      (c ∷ text, rest, (ground arith, lacks), ap (λ r. c ∷ r) split, found)
]

segment_rest_complete :
    (d : ℕ) (k : Text → Bool) (text rest : Text)
    → LacksDelimiter d text
    → k rest ≡ true
    → segment_rest d k (text ++ rest) ≡ true
unfolding segment_rest
segment_rest_complete d k [] [] l h = h
segment_rest_complete d k [] (c ∷ rest) l h = ground arith
segment_rest_complete d k (c ∷ text) rest l h =
    ground (arith, segment_rest_complete d k text rest l.1 h)

next_char_sound :
    (p : ℕ) (k : Text → Bool) (name : Text)
    → next_char p k name ≡ true
    → (rest : Text) × (name ≡ p ∷ rest) × (k rest ≡ true)
unfolding next_char
next_char_sound p k [] h = cc
next_char_sound p k (c ∷ name) h = (name, ground arith, ground arith)

-- What the matcher accepts is in the relation.
pub matches_sound :
    (d : ℕ) (pattern name : Text) → matches d pattern name ≡ true → Matches d pattern name
unfolding matches
matches_sound d [] [] h = Matches.done
matches_sound d [] (c ∷ name) h = cc
matches_sound d (p ∷ pattern) name h = elim (Bool-cases (p == b'*')) [
  | inl star ↦
      let (text, rest, split, found) =
        any_rest_sound (matches d pattern) name (ground (arith, h)) in
      any_text text rest ((==_iff p b'*').0 star) split (matches_sound d pattern rest found)
  | inr not_star ↦ elim (Bool-cases (p == b'%')) [
    | inl percent ↦
        let (text, rest, lacks, split, found) =
          segment_rest_sound d (matches d pattern) name (ground (arith, h)) in
        any_segment text rest ((==_iff p b'%').0 percent) lacks split
          (matches_sound d pattern rest found)
    | inr not_percent ↦
        let (rest, split, found) = next_char_sound p (matches d pattern) name (ground (arith, h)) in
        subst (Matches d (p ∷ pattern)) (sym split)
          (literal (λ e. ground arith) (λ e. ground arith) (matches_sound d pattern rest found))
  ]
]

-- What is in the relation is accepted.
pub matches_complete :
    (d : ℕ) (pattern name : Text) → Matches d pattern name → matches d pattern name ≡ true
unfolding matches
matches_complete d _ _ Matches.done = refl
matches_complete d _ _ (any_text {p} {pattern} {name} text rest star split m) =
    rw (split, (==_iff p b'*').1 star)
      (any_rest_complete (matches d pattern) text rest (matches_complete d pattern rest m))
matches_complete d _ _ (any_segment {p} {pattern} {name} text rest percent lacks split m) =
    rw split (
      ground (
        arith,
        segment_rest_complete d (matches d pattern) text rest lacks
            (matches_complete d pattern rest m),
      ))
matches_complete d _ _ (literal {p} {pattern} {name} star percent m) =
    ground (arith, matches_complete d pattern name m)

-- A mailbox is listed exactly when its name matches the pattern, both in lower case, by the rules for
-- `*`, `%` and plain characters, with the first character of the delimiter, or `/` if it is empty.
pub imap_list_pattern_matches_iff :
    (pattern name delimiter : Text)
    → (imap_list_pattern_matches pattern name delimiter ≡ true)
      ↔ Matches (delimiter_char delimiter) (to_ascii_lowercase pattern) (to_ascii_lowercase name)
unfolding imap_list_pattern_matches
imap_list_pattern_matches_iff pattern name delimiter = (
  matches_sound (delimiter_char delimiter) (to_ascii_lowercase pattern) (to_ascii_lowercase name),
  matches_complete (delimiter_char delimiter) (to_ascii_lowercase pattern)
      (to_ascii_lowercase name),
)
