-- ===== src/Session/Targets/Laws.antt =====
-- What a client makes of the numbers that are reported when messages go, the last first.
use imapped_lightmode.Base.{
  ℕ, zero, suc, ◌-◌, ◌≤◌, ◌≡◌, refl, ap, ◌∙◌, Bool, not, List, [], ◌∷◌, ◌++◌, retain, All,
  All-append, map, arith, Bool-cases, inl, inr,
}
use imapped_lightmode.Domain.Records.{MailboxMessage}
use imapped_lightmode.Session.Targets.{Target, numbered, insert_target, sort_targets, reversed}

-- The list without its entry `n`.
unfoldable pub remove_at : ℕ → List MailboxMessage → List MailboxMessage
remove_at n [] = []
remove_at zero (m ∷ ms) = ms
remove_at (suc n) (m ∷ ms) = m ∷ remove_at n ms

-- What a client has left that takes the entry `n - first` out of its list for each number `n`.
unfoldable pub client_view : ℕ → List ℕ → List MailboxMessage → List MailboxMessage
unfolding remove_at
client_view first [] ms = ms
client_view first (n ∷ numbers) ms = client_view first numbers (remove_at (n - first) ms)

abbrev pub numbers_of : List Target → List ℕ
numbers_of = map (λ (t : Target). t.0)

client_view-append :
    (first : ℕ) (front back : List Target) (ms : List MailboxMessage)
    → client_view first (numbers_of (front ++ back)) ms
      ≡ client_view first (numbers_of back) (client_view first (numbers_of front) ms)
unfolding client_view
client_view-append first [] back ms = refl
client_view-append first (t ∷ front) back ms =
    client_view-append first front back (remove_at (t.0 - first) ms)

abbrev AllAbove : ℕ → List Target → Type 0
AllAbove first = All (λ (t : Target). first ≤ t.0)

AllAbove-mono : (a b : ℕ) (targets : List Target) → a ≤ b → AllAbove b targets → AllAbove a targets
AllAbove-mono a b [] h g = tt
AllAbove-mono a b (t ∷ targets) h g = (omega (arith, g.0), AllAbove-mono a b targets h g.1)

numbered-AllAbove :
    (test : MailboxMessage → Bool) (first : ℕ) (ms : List MailboxMessage)
    → AllAbove first (numbered test first ms)
unfolding numbered
numbered-AllAbove test first [] = tt
numbered-AllAbove test first (m ∷ ms) =
    let later =
      AllAbove-mono first (suc first) (numbered test (suc first) ms) (omega arith)
        (numbered-AllAbove test (suc first) ms) in
    elim (Bool-cases (test m)) [ inl t ↦ rw t ((omega arith), later) | inr f ↦ rw f later ]

reversed-AllAbove :
    (first : ℕ) (targets : List Target) → AllAbove first targets → AllAbove first (reversed targets)
unfolding reversed
reversed-AllAbove first [] g = tt
reversed-AllAbove first (t ∷ targets) g =
    All-append (λ (t : Target). first ≤ t.0) (reversed targets) (t ∷ [])
      (reversed-AllAbove first targets g.1) (g.0, tt)

remove_at-suc :
    (n k : ℕ) (m : MailboxMessage) (ms : List MailboxMessage)
    → n ≡ suc k
    → remove_at n (m ∷ ms) ≡ m ∷ remove_at k ms
unfolding remove_at
remove_at-suc n k m ms h = rw h refl

-- Numbers behind the first entry leave it where it is.
client_view-cons :
    (first : ℕ) (targets : List Target) (m : MailboxMessage) (ms : List MailboxMessage)
    → AllAbove (suc first) targets
    → client_view first (numbers_of targets) (m ∷ ms)
      ≡ m ∷ client_view (suc first) (numbers_of targets) ms
unfolding client_view
client_view-cons first [] m ms g = refl
client_view-cons first (t ∷ targets) m ms g =
    ap (client_view first (numbers_of targets))
      (remove_at-suc (t.0 - first) (t.0 - suc first) m ms (omega (arith, g.0)))
    ∙ client_view-cons first targets m (remove_at (t.0 - suc first) ms) g.1

no_rest : (n : ℕ) → n - n ≡ 0
no_rest n = omega arith

client_view-first :
    (first : ℕ) (m : MailboxMessage) (ms : List MailboxMessage)
    → client_view first (first ∷ []) (m ∷ ms) ≡ ms
unfolding client_view remove_at
client_view-first first m ms = rw (no_rest first) refl

-- A client that takes the reported numbers one after the other has the messages left that `test` does
-- not hold of.
pub client_view-numbered :
    (test : MailboxMessage → Bool) (first : ℕ) (ms : List MailboxMessage)
    → client_view first (numbers_of (reversed (numbered test first ms))) ms
      ≡ retain (λ m. not (test m)) ms
unfolding numbered client_view reversed
client_view-numbered test first [] = refl
client_view-numbered test first (m ∷ ms) =
    let later = numbered test (suc first) ms in
    let behind =
      client_view-cons first (reversed later) m ms
        (reversed-AllAbove (suc first) later (numbered-AllAbove test (suc first) ms))
      ∙ ap (λ r. m ∷ r) (client_view-numbered test (suc first) ms) in
    elim (Bool-cases (test m)) [
      | inl t ↦ rw t (
          client_view-append first (reversed later) ((first, m) ∷ []) (m ∷ ms)
          ∙ (ap (client_view first (first ∷ [])) behind
              ∙ client_view-first first m (retain (λ m. not (test m)) ms)))
      | inr f ↦ rw f behind
    ]

insert_target-first :
    (n : ℕ) (m : MailboxMessage) (targets : List Target)
    → AllAbove (suc n) targets
    → insert_target (n, m) targets ≡ (n, m) ∷ targets
unfolding insert_target
insert_target-first n m [] g = refl
insert_target-first n m (t ∷ targets) g = ground (arith, g.0)

-- Numbered messages are in order.
pub sort_targets-numbered :
    (test : MailboxMessage → Bool) (first : ℕ) (ms : List MailboxMessage)
    → sort_targets (numbered test first ms) ≡ numbered test first ms
unfolding numbered sort_targets
sort_targets-numbered test first [] = refl
sort_targets-numbered test first (m ∷ ms) =
    let later = sort_targets-numbered test (suc first) ms in
    elim (Bool-cases (test m)) [
      | inl t ↦ rw t (
          ap (insert_target (first, m)) later
          ∙ insert_target-first first m (numbered test (suc first) ms)
              (numbered-AllAbove test (suc first) ms))
      | inr f ↦ rw f later
    ]
