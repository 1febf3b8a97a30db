-- ===== src/Session/Targets/Remove.antt =====
-- What EXPUNGE leaves, which takes the messages out from the last to the first.
use imapped_lightmode.Base.{
  ℕ, suc, ◌≡◌, refl, ap, sym, ◌∙◌, Bool, not, List, [], ◌∷◌, ◌++◌, any-append, retain, All, map,
  arith, Bool-cases, inl, inr,
}
use imapped_lightmode.Base.Int.{ℤ}
use imapped_lightmode.Domain.Records.{MailboxMessage}
use imapped_lightmode.Db.Messages.Order.{has_uid}
use imapped_lightmode.Db.Messages.Remove.{
  remove_uids, IsApart, uid_list, named, remove_uids-named, retain-same, remove_uids-retain,
}
use imapped_lightmode.Session.Targets.{Target, numbered, reversed}

abbrev pub target_uids : List Target → List ℤ
target_uids = map (λ (t : Target). t.1.local_uid)

target_uids-append :
    (front back : List Target) → target_uids (front ++ back) ≡ target_uids front ++ target_uids back
target_uids-append [] back = refl
target_uids-append (t ∷ front) back = ap (λ r. t.1.local_uid ∷ r) (target_uids-append front back)

named-reversed :
    (m : MailboxMessage) (targets : List Target)
    → named (target_uids (reversed targets)) m ≡ named (target_uids targets) m
unfolding reversed
named-reversed m [] = refl
named-reversed m (t ∷ targets) =
    ap (λ ns. named ns m) (target_uids-append (reversed targets) (t ∷ []))
    ∙ (any-append (λ n. has_uid n m) (target_uids (reversed targets)) (t.1.local_uid ∷ [])
        ∙ ground (arith, named-reversed m targets))

target_uids-numbered :
    (test : MailboxMessage → Bool) (first : ℕ) (ms : List MailboxMessage)
    → target_uids (numbered test first ms) ≡ uid_list (retain test ms)
unfolding numbered
target_uids-numbered test first [] = refl
target_uids-numbered test first (m ∷ ms) = elim (Bool-cases (test m)) [
  | inl t ↦ rw t (ap (λ r. m.local_uid ∷ r) (target_uids-numbered test (suc first) ms))
  | inr f ↦ rw f (target_uids-numbered test (suc first) ms)
]

All-reversed :
    (targets : List Target) (ms : List MailboxMessage)
    → All
        (λ m. not (named (target_uids (reversed targets)) m) ≡ not (named (target_uids targets) m))
        ms
All-reversed targets [] = tt
All-reversed targets (m ∷ ms) = (ap not (named-reversed m targets), All-reversed targets ms)

-- So does taking them out from the last to the first.
pub remove_uids-numbered :
    (test : MailboxMessage → Bool) (first : ℕ) (ms : List MailboxMessage)
    → IsApart ms
    → remove_uids (target_uids (reversed (numbered test first ms))) ms
      ≡ retain (λ m. not (test m)) ms
remove_uids-numbered test first ms h =
    let targets = numbered test first ms in
    remove_uids-named (target_uids (reversed targets)) ms
    ∙ (retain-same (λ m. not (named (target_uids (reversed targets)) m))
          (λ m. not (named (target_uids targets) m)) ms (All-reversed targets ms)
        ∙ (ap (λ ns. retain (λ m. not (named ns m)) ms) (target_uids-numbered test first ms)
            ∙ (sym (remove_uids-named (uid_list (retain test ms)) ms)
                ∙ remove_uids-retain test ms h)))
