-- ===== src/Sync/Engine/Loop.antt =====
-- The loop over the UIDs of the server: every message above the checkpoint is in the mailbox behind it.
use imapped_lightmode.Base.{
  ℕ, suc, ◌≡◌, refl, subst, true, false, Option, none, some, List, [], ◌∷◌, All, if◌then◌else◌, leb,
  Bool-cases, inl, inr, Result, ok, err, arith,
}
use imapped_lightmode.Base.Int.{ℤ, pos, leb_ℤ, eqb_ℤ}
use imapped_lightmode.Text.{Text}
use imapped_lightmode.Domain.Records.{MailboxMessage}
use imapped_lightmode.Db.{Db, done, commit}
use imapped_lightmode.Db.Messages.{update_mailbox_message_flags}
use imapped_lightmode.Sync.Job.{Job, ◌>>=◌, ◌>>◌, on_upstream, lift}
use imapped_lightmode.Sync.Mirror.{Mirror}
use imapped_lightmode.Sync.Ingest.{i64_max}
use imapped_lightmode.Sync.Engine.{
  normalize_flags, same_flags, i64_of, uid_or_error, local_from, refresh_flags, fetch_message,
  sync_uids,
}
use imapped_lightmode.Sync.Engine.Writes.{Holds, update_flags_keeps}
use imapped_lightmode.Sync.Engine.Jobs.{
  Tables, SettlesJob, Keeps, Sets, bind-Keeps, lift-Keeps, upstream-Keeps, db-Keeps, first-Sets,
  then-Sets,
}
use imapped_lightmode.Sync.Engine.Ingests.{fetch_message-Keeps, fetch_message-Sets}

both_settle :
    {U A : Type 0} (P Q : Tables) (r : Result A × (Db × U))
    → SettlesJob P r
    → SettlesJob Q r
    → SettlesJob (λ db. P db × Q db) r
both_settle P Q (err e, s) p q = tt
both_settle P Q (ok a, s) p q = (p, q)

weaken_settles :
    {U A : Type 0} (P Q : Tables) (r : Result A × (Db × U))
    → ((db : Db) → P db → Q db)
    → SettlesJob P r
    → SettlesJob Q r
weaken_settles P Q (err e, s) f h = tt
weaken_settles P Q (ok a, s) f h = f s.0 h

pub weaken-Sets :
    {U A : Type 0} (P Q : Tables) (job : Job U A)
    → ((db : Db) → P db → Q db)
    → Sets P job
    → Sets Q job
weaken-Sets P Q job f h = record { settled = λ s. weaken_settles P Q (job s) f (h.settled s) }

always_settles :
    {U A : Type 0} (Q : Tables) (r : Result A × (Db × U)) → ((db : Db) → Q db) → SettlesJob Q r
always_settles Q (err e, s) f = tt
always_settles Q (ok a, s) f = f s.0

always-Sets : {U A : Type 0} (Q : Tables) (job : Job U A) → ((db : Db) → Q db) → Sets Q job
always-Sets Q job f = record { settled = λ s. always_settles Q (job s) f }

lift-Sets :
    {U A B : Type 0} (Q : Tables) (r : Result A) (f : A → Job U B)
    → ((a : A) → r ≡ ok a → Sets Q (f a))
    → Sets Q (lift r >>= f)
lift-Sets Q (err e) f h = record { settled = λ s. tt }
lift-Sets Q (ok a) f h = h a refl

in_range :
    (uid : ℕ) (k : ℤ)
    → uid_or_error uid (i64_of uid) ≡ ok k
    → (leb uid i64_max ≡ true) × (pos uid ≡ k)
unfolding uid_or_error i64_of
in_range uid k h = (ground arith, ground arith)

pub both-Sets :
    {U A : Type 0} (P Q : Tables) (job : Job U A)
    → Sets P job
    → Sets Q job
    → Sets (λ db. P db × Q db) job
both-Sets P Q job p q = record {
  settled = λ s. both_settle P Q (job s) (p.settled s) (q.settled s);
}

above_zero :
    (n last : ℤ) → leb_ℤ (pos 0) last ≡ true → leb_ℤ n last ≡ false → eqb_ℤ n (pos 0) ≡ false
above_zero n last h k = ground arith

module _ {U : Type 0} (sha256_hex : Text → Text) (mirror : Mirror U) (now : ℕ) (account_id : ℤ)
    (mailbox_id : ℤ) (name : Text) (last : ℤ) (counts : leb_ℤ (pos 0) last ≡ true) where
  refresh_flags-Keeps :
      (n : ℤ) (flags : List Text) (local : Option MailboxMessage)
      → Keeps (Holds mailbox_id n) (refresh_flags sha256_hex mirror now mailbox_id flags local)
  unfolding refresh_flags
  refresh_flags-Keeps n flags none = lift-Keeps (Holds mailbox_id n) (ok done)
  refresh_flags-Keeps n flags (some local) =
      elim (Bool-cases (same_flags (normalize_flags local.flags) flags)) [
        | inl t ↦ rw t (lift-Keeps (Holds mailbox_id n) (ok done))
        | inr f ↦ rw f (
            bind-Keeps (Holds mailbox_id n)
              (db-Keeps (Holds mailbox_id n)
                (commit (update_mailbox_message_flags mailbox_id local.local_uid flags))
                (update_flags_keeps mailbox_id n local.local_uid flags))
              (λ updated. lift-Keeps (Holds mailbox_id n) (ok done)))
      ]

  sync_uids-Keeps :
      (n : ℤ) (locals : List MailboxMessage) (uids : List ℕ) (synced : ℕ) (newest : Option ℤ)
      → Keeps (Holds mailbox_id n) (
          sync_uids sha256_hex mirror now account_id mailbox_id name last locals uids synced newest)
  unfolding sync_uids
  sync_uids-Keeps n locals [] synced newest = lift-Keeps (Holds mailbox_id n) (ok (synced, newest))
  sync_uids-Keeps n locals (uid ∷ uids) synced newest =
      let P = Holds mailbox_id n in
      bind-Keeps P (lift-Keeps P (uid_or_error uid (i64_of uid))) (λ k.
        bind-Keeps P (upstream-Keeps P (mirror.uid_fetch_flags uid)) (λ fetched.
          bind-Keeps P (refresh_flags-Keeps n (normalize_flags fetched) (local_from k locals))
            (λ refreshed. elim (Bool-cases (leb_ℤ k last)) [
              | inl t ↦ rw t (sync_uids-Keeps n locals uids synced newest)
              | inr f ↦ rw f (
                  bind-Keeps P
                    (fetch_message-Keeps sha256_hex mirror now account_id mailbox_id name k
                      (above_zero k last counts f) n uid (normalize_flags fetched))
                    (λ stored. sync_uids-Keeps n locals uids (suc synced) (some k)))
            ])))

  -- A UID of the server that is in range, and whose message is there if it is above the checkpoint.
  abbrev pub Brought : ℕ → Tables
  Brought uid db =
      (leb uid i64_max ≡ true) × (leb_ℤ (pos uid) last ≡ false → Holds mailbox_id (pos uid) db)

  -- The step of the loop.
  abbrev sync_uid : List MailboxMessage → ℕ → List ℕ → ℕ → Option ℤ → ℤ → Job U (ℕ × Option ℤ)
  sync_uid locals uid uids synced newest k = on_upstream (mirror.uid_fetch_flags uid) >>= λ fetched.
      refresh_flags sha256_hex mirror now mailbox_id (normalize_flags fetched) (local_from k locals)
      >> (if leb_ℤ k last
          then sync_uids sha256_hex mirror now account_id mailbox_id name last locals uids synced
              newest
          else fetch_message sha256_hex mirror now account_id mailbox_id name uid k
              (normalize_flags fetched)
            >> sync_uids sha256_hex mirror now account_id mailbox_id name last locals uids
                (suc synced) (some k))

  sync_uid-Sets :
      (P : Tables) (locals : List MailboxMessage) (uid : ℕ) (uids : List ℕ) (synced : ℕ)
      (newest : Option ℤ) (k : ℤ)
      → ((synced : ℕ) (newest : Option ℤ)
          → Sets P (
              sync_uids sha256_hex mirror now account_id mailbox_id name last locals uids synced
                newest))
      → Sets P (sync_uid locals uid uids synced newest k)
  sync_uid-Sets P locals uid uids synced newest k rest =
      then-Sets P (on_upstream (mirror.uid_fetch_flags uid)) (λ fetched.
        then-Sets P
          (refresh_flags sha256_hex mirror now mailbox_id (normalize_flags fetched)
            (local_from k locals))
          (λ refreshed. elim (Bool-cases (leb_ℤ k last)) [
            | inl t ↦ rw t (rest synced newest)
            | inr f ↦ rw f (
                then-Sets P
                  (fetch_message sha256_hex mirror now account_id mailbox_id name uid k
                    (normalize_flags fetched))
                  (λ stored. rest (suc synced) (some k)))
          ]))

  first_brought :
      (uid : ℕ) (locals : List MailboxMessage) (uids : List ℕ) (synced : ℕ) (newest : Option ℤ)
      → leb uid i64_max ≡ true
      → Sets (Brought uid) (sync_uid locals uid uids synced newest (pos uid))
  first_brought uid locals uids synced newest fits =
      then-Sets (Brought uid) (on_upstream (mirror.uid_fetch_flags uid)) (λ fetched.
        then-Sets (Brought uid)
          (refresh_flags sha256_hex mirror now mailbox_id (normalize_flags fetched)
            (local_from (pos uid) locals))
          (λ refreshed. elim (Bool-cases (leb_ℤ (pos uid) last)) [
            | inl t ↦ rw t (
                always-Sets (Brought uid)
                  (sync_uids sha256_hex mirror now account_id mailbox_id name last locals uids
                    synced newest)
                  (λ db. (fits, λ f. absurd (ground (arith, t, f)))))
            | inr f ↦ rw f (
                weaken-Sets (Holds mailbox_id (pos uid)) (Brought uid)
                  (fetch_message sha256_hex mirror now account_id mailbox_id name uid (pos uid)
                      (normalize_flags fetched)
                    >> sync_uids sha256_hex mirror now account_id mailbox_id name last locals uids
                        (suc synced) (some (pos uid)))
                  (λ db held. (fits, λ above. held))
                  (first-Sets (Holds mailbox_id (pos uid))
                    (fetch_message-Sets sha256_hex mirror now account_id mailbox_id name (pos uid)
                      (above_zero (pos uid) last counts f) uid (normalize_flags fetched))
                    (λ stored.
                      sync_uids-Keeps (pos uid) locals uids (suc synced) (some (pos uid)))))
          ]))

  pub sync_uids-Sets :
      (locals : List MailboxMessage) (uids : List ℕ) (synced : ℕ) (newest : Option ℤ)
      → Sets
          (λ db. All (λ uid. Brought uid db) uids)
          (sync_uids sha256_hex mirror now account_id mailbox_id name last locals uids synced
            newest)
  unfolding sync_uids
  sync_uids-Sets locals [] synced newest = record { settled = λ s. tt }
  sync_uids-Sets locals (uid ∷ uids) synced newest =
      lift-Sets (λ db. All (λ uid. Brought uid db) (uid ∷ uids)) (uid_or_error uid (i64_of uid))
        (sync_uid locals uid uids synced newest)
        (λ k h.
          let (fits, same) = in_range uid k h in
          subst
            (λ k.
              Sets (λ db. All (λ uid. Brought uid db) (uid ∷ uids))
                (sync_uid locals uid uids synced newest k))
            same
            (both-Sets (Brought uid) (λ db. All (λ uid. Brought uid db) uids)
              (sync_uid locals uid uids synced newest (pos uid))
              (first_brought uid locals uids synced newest fits)
              (sync_uid-Sets (λ db. All (λ uid. Brought uid db) uids) locals uid uids synced newest
                (pos uid) (sync_uids-Sets locals uids))))
