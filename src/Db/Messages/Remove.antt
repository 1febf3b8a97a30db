-- ===== src/Db/Messages/Remove.antt =====
-- What is left of the messages of a mailbox when those of some UIDs are taken out one by one.
use imapped_lightmode.Base.{
  ◌≡◌, refl, ap, sym, subst, ◌∙◌, Bool, true, false, not, List, [], ◌∷◌, any, retain, All, map,
  arith, Bool-cases, inl, inr,
}
use imapped_lightmode.Base.Int.{ℤ, eqb_ℤ}
use imapped_lightmode.Domain.Records.{MailboxMessage}
use imapped_lightmode.Db.Messages.Order.{has_uid, without}

unfoldable pub remove_uids : List ℤ → List MailboxMessage → List MailboxMessage
remove_uids [] ms = ms
remove_uids (n ∷ ns) ms = remove_uids ns (without n ms)

-- No two messages have one UID.
abbrev pub IsApart : List MailboxMessage → Type 0
IsApart [] = Unit
IsApart (m ∷ ms) = All (λ other. has_uid m.local_uid other ≡ false) ms × IsApart ms

abbrev pub uid_list : List MailboxMessage → List ℤ
uid_list = map (λ (m : MailboxMessage). m.local_uid)

abbrev pub named : List ℤ → MailboxMessage → Bool
named ns m = any (λ n. has_uid n m) ns

retain-without :
    (n : ℤ) (ns : List ℤ) (ms : List MailboxMessage)
    → retain (λ m. not (named ns m)) (without n ms) ≡ retain (λ m. not (named (n ∷ ns) m)) ms
retain-without n ns [] = refl
retain-without n ns (m ∷ ms) = ground (arith, retain-without n ns ms)

all_stay : (ms : List MailboxMessage) → ms ≡ retain (λ m. true) ms
all_stay [] = refl
all_stay (m ∷ ms) = ap (λ r. m ∷ r) (all_stay ms)

pub remove_uids-named :
    (ns : List ℤ) (ms : List MailboxMessage) → remove_uids ns ms ≡ retain (λ m. not (named ns m)) ms
unfolding remove_uids
remove_uids-named [] ms = all_stay ms
remove_uids-named (n ∷ ns) ms = remove_uids-named ns (without n ms) ∙ retain-without n ns ms

-- Predicates that agree on the list choose the same.
pub retain-same :
    (p q : MailboxMessage → Bool) (ms : List MailboxMessage)
    → All (λ m. p m ≡ q m) ms
    → retain p ms ≡ retain q ms
retain-same p q [] h = refl
retain-same p q (m ∷ ms) h = ground (arith, retain-same p q ms h.1, h.0)

eqb_ℤ_self : (n : ℤ) → eqb_ℤ n n ≡ true
eqb_ℤ_self n = ground arith

eqb_ℤ_comm : (a b : ℤ) → eqb_ℤ a b ≡ eqb_ℤ b a
eqb_ℤ_comm a b = ground arith

named-apart :
    (test : MailboxMessage → Bool) (m : MailboxMessage) (ms : List MailboxMessage)
    → All (λ other. has_uid m.local_uid other ≡ false) ms
    → named (uid_list (retain test ms)) m ≡ false
named-apart test m [] h = refl
named-apart test m (o ∷ ms) h =
    let rest = named-apart test m ms h.1 in
    ground (arith, rest, h.0, eqb_ℤ_comm m.local_uid o.local_uid)

named-cons :
    (test : MailboxMessage → Bool) (n : ℤ) (ns : List ℤ) (ms : List MailboxMessage)
    → All (λ other. has_uid n other ≡ false) ms
    → All (λ other. named ns other ≡ test other) ms
    → All (λ other. named (n ∷ ns) other ≡ test other) ms
named-cons test n ns [] apart h = tt
named-cons test n ns (o ∷ ms) apart h = (rw (apart.0) h.0, named-cons test n ns ms apart.1 h.1)

retain_first :
    (test : MailboxMessage → Bool) (m : MailboxMessage) (ms : List MailboxMessage)
    → test m ≡ true
    → retain test (m ∷ ms) ≡ m ∷ retain test ms
retain_first test m ms h = rw h refl

retain_next :
    (test : MailboxMessage → Bool) (m : MailboxMessage) (ms : List MailboxMessage)
    → test m ≡ false
    → retain test (m ∷ ms) ≡ retain test ms
retain_next test m ms h = rw h refl

-- The UIDs of the chosen messages name these only.
named-retain :
    (test : MailboxMessage → Bool) (ms : List MailboxMessage)
    → IsApart ms
    → All (λ m. named (uid_list (retain test ms)) m ≡ test m) ms
named-retain test [] h = tt
named-retain test (m ∷ ms) h =
    let rest = named-retain test ms h.1 in
    elim (Bool-cases (test m)) [
      | inl t ↦
          subst (λ ns. All (λ o. named (uid_list ns) o ≡ test o) (m ∷ ms))
            (sym (retain_first test m ms t))
            (
              ground (arith, t, eqb_ℤ_self m.local_uid),
              named-cons test m.local_uid (uid_list (retain test ms)) ms h.0 rest,
            )
      | inr f ↦
          subst (λ ns. All (λ o. named (uid_list ns) o ≡ test o) (m ∷ ms))
            (sym (retain_next test m ms f)) (named-apart test m ms h.0 ∙ sym f, rest)
    ]

not-All :
    (p q : MailboxMessage → Bool) (ms : List MailboxMessage)
    → All (λ m. q m ≡ p m) ms
    → All (λ m. not (q m) ≡ not (p m)) ms
not-All p q [] h = tt
not-All p q (m ∷ ms) h = (ap not h.0, not-All p q ms h.1)

-- Taking out the chosen messages leaves the others.
pub remove_uids-retain :
    (test : MailboxMessage → Bool) (ms : List MailboxMessage)
    → IsApart ms
    → remove_uids (uid_list (retain test ms)) ms ≡ retain (λ m. not (test m)) ms
remove_uids-retain test ms h =
    remove_uids-named (uid_list (retain test ms)) ms
    ∙ retain-same (λ m. not (named (uid_list (retain test ms)) m)) (λ m. not (test m)) ms
        (not-All test (named (uid_list (retain test ms))) ms (named-retain test ms h))
