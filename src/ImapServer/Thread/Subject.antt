-- ===== src/ImapServer/Thread/Subject.antt =====
-- The loop of `normalize_thread_subject`: the fuel, which is the length of the text, is enough.
use imapped_lightmode.Base.{
  ℕ, zero, suc, ◌≡◌, ◌≤◌, refl, ap, true, Bool-cases, Option-cases, inl, inr, Option, none, some,
  [], ◌∷◌, length, drop, length-drop, arith, ◌+◌, ◌-◌, Bool, subst,
}
use imapped_lightmode.Text.{Text, lit, eq, eq→≡, is_whitespace}
use imapped_lightmode.Text.Case.{to_ascii_lowercase}
use imapped_lightmode.Text.Trim.{trim_start, trim_start_where}
use imapped_lightmode.Text.Find.{starts_with}
use imapped_lightmode.ImapServer.Thread.{
  strip_one, strip_thread_subject_prefix, strip_round, strip_loop,
}

length-trim_start_where : (p : ℕ → Bool) (s : Text) → length (trim_start_where p s) ≤ length s
unfolding trim_start_where
length-trim_start_where p [] = omega arith
length-trim_start_where p (c ∷ s) = ground (arith, length-trim_start_where p s)

length-trim_start : (s : Text) → length (trim_start s) ≤ length s
unfolding trim_start
length-trim_start s = length-trim_start_where is_whitespace s

length-starts_with :
    (prefix value : Text)
    → starts_with prefix (to_ascii_lowercase value) ≡ true
    → length prefix ≤ length value
unfolding starts_with to_ascii_lowercase
length-starts_with [] value h = omega arith
length-starts_with (p ∷ prefix) [] h = ground arith
length-starts_with (p ∷ prefix) (c ∷ value) h = ground (arith, length-starts_with prefix value)

-- A stripped text is shorter by the prefix.
strip_one_shorter :
    (prefix value : Text) (otherwise : Option Text) (rest : Text)
    → 3 ≤ length prefix
    → (otherwise ≡ some rest → length rest + 3 ≤ length value)
    → strip_one prefix value otherwise ≡ some rest
    → length rest + 3 ≤ length value
unfolding strip_one
strip_one_shorter prefix value otherwise rest long shorter h =
    elim (Bool-cases (starts_with prefix (to_ascii_lowercase value))) [
      | inl found ↦
          behind (length-starts_with prefix value found)
            (some_inj (trim_start (drop (length prefix) value)) rest (rw found at h))
      | inr missing ↦ shorter (rw missing at h)
    ]
  where
    some_inj : (a b : Text) → some a ≡ some b → a ≡ b
    some_inj a b e = ground arith

    bound : (n m d : ℕ) → 3 ≤ n → n ≤ m → d ≤ m - n → d + 3 ≤ m
    bound n m d few fits short = omega arith

    behind :
        length prefix ≤ length value
        → trim_start (drop (length prefix) value) ≡ rest
        → length rest + 3 ≤ length value
    behind fits e =
        subst (λ r. length r + 3 ≤ length value) e
          (bound (length prefix) (length value) (length (trim_start (drop (length prefix) value)))
            long fits
            (subst (λ n. length (trim_start (drop (length prefix) value)) ≤ n)
              (length-drop (length prefix) value) (length-trim_start (drop (length prefix) value))))

strip_thread_subject_prefix_shorter :
    (value rest : Text)
    → strip_thread_subject_prefix value ≡ some rest
    → length rest + 3 ≤ length value
unfolding strip_thread_subject_prefix lit
strip_thread_subject_prefix_shorter value rest =
    strip_one_shorter (lit "re:") value _ rest (omega arith) (
      strip_one_shorter (lit "fwd:") value _ rest (omega arith)
        (strip_one_shorter (lit "fw:") value none rest (omega arith) (λ h. ground arith)))

strip-nil : strip_thread_subject_prefix [] ≡ none
unfolding strip_thread_subject_prefix lit starts_with to_ascii_lowercase
strip-nil = refl

-- With the length of the text, or more, as fuel the loop ends at a text without a prefix.
strip_loop_enough :
    (fuel : ℕ) (value : Text)
    → length value ≤ fuel
    → strip_thread_subject_prefix (strip_loop fuel value) ≡ none
unfolding strip_loop strip_round
strip_loop_enough zero [] h = strip-nil
strip_loop_enough zero (c ∷ value) h = ground arith
strip_loop_enough (suc fuel) value h = elim (Option-cases (strip_thread_subject_prefix value)) [
  | inl bare ↦ rw bare bare
  | inr (rest, found) ↦ elim (Bool-cases (eq rest value)) [
    | inl same ↦ ground (
      arith,
      same_length rest value (eq→≡ rest value same),
      strip_thread_subject_prefix_shorter value rest found,
    )
    | inr other ↦ rw found (
        rw other (
          strip_loop_enough fuel (trim_start rest) (
            ground (
              arith,
              length-trim_start rest,
              strip_thread_subject_prefix_shorter value rest found,
            ))))
  ]
]
  where
    same_length : (s t : Text) → s ≡ t → length s ≡ length t
    same_length s t e = ap length e
