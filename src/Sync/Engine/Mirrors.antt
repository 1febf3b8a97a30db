-- ===== src/Sync/Engine/Mirrors.antt =====
-- What a synchronisation of a mailbox achieves.
use imapped_lightmode.Base.{
  ℕ, ◌≡◌, refl, subst, ◌∙◌, Bool, true, false, ◌&&◌, ◌||◌, Option, none, some, List, [], ◌∷◌, any,
  All, leb, Result, ok, err, if◌then◌else◌, Bool-cases, inl, inr, arith,
}
use imapped_lightmode.Base.Int.{ℤ, pos, leb_ℤ, eqb_ℤ}
use imapped_lightmode.Text.{Text}
use imapped_lightmode.Domain.Records.{Mailbox, SyncState}
use imapped_lightmode.Db.{Db, done}
use imapped_lightmode.Db.Messages.{is_in, is_at, list_mailbox_messages}
use imapped_lightmode.Db.SyncStates.{load_sync_state}
use imapped_lightmode.Sync.Job.{Job, and_then, ◌>>=◌, on_db, on_upstream, pure}
use imapped_lightmode.Sync.Mirror.{Mirror, SelectedMailboxInfo}
use imapped_lightmode.Sync.Ingest.{i64_max}
use imapped_lightmode.Sync.Engine.{
  upstream_uid_set, is_from, is_missing, clear_synced_mailbox_messages, uidvalidity_changed,
  last_uid, sync_uids, finish_mailbox, sync_selected, sync_mailbox_inner,
}
use imapped_lightmode.Sync.Engine.Rows.{any-list_mailbox_messages}
use imapped_lightmode.Sync.Engine.Deletes.{any_same, HoldsRows}
use imapped_lightmode.Sync.Engine.Jobs.{Tables, SettlesJob, Sets, then-Sets}
use imapped_lightmode.Sync.Engine.Finish.{Mirrors, uids_then_finish-Sets}

-- A search that gives those UIDs, if it gives any.
abbrev pub FindsUids : {U : Type 0} → Mirror U → List ℕ → Type 0
FindsUids {U = U} mirror uids =
    (u : U) (found : List ℕ) → (mirror.uid_search_all u).0 ≡ ok found → uids ≡ found

-- A selection that reports that, if it succeeds.
abbrev pub Selects : {U : Type 0} → Mirror U → Text → SelectedMailboxInfo → Type 0
Selects {U = U} mirror name selection =
    (u : U) (info : SelectedMailboxInfo)
    → (mirror.select_mailbox name u).0 ≡ ok info
    → selection ≡ info

module _ {U : Type 0} (P : Tables) where
  known_settles :
      {A B : Type 0} (r : Result A) (s : Db × U) (a0 : A) (f : A → Job U B)
      → ((a : A) → r ≡ ok a → a0 ≡ a)
      → Sets P (f a0)
      → SettlesJob P (and_then r f s)
  known_settles (err e) s a0 f h k = tt
  known_settles (ok a) s a0 f h k = (subst (λ a. Sets P (f a)) (h a refl) k).settled s

  second_known :
      {A B C : Type 0} (r : Result C × (Db × U)) (g : U → Result A × U) (a0 : A) (f : A → Job U B)
      → ((u : U) (a : A) → (g u).0 ≡ ok a → a0 ≡ a)
      → Sets P (f a0)
      → SettlesJob P (
          and_then
            (and_then r.0 (λ c. on_upstream g) r.1).0
            f
            (and_then r.0 (λ c. on_upstream g) r.1).1)
  second_known (err e, s) g a0 f h k = tt
  second_known (ok c, s) g a0 f h k = known_settles (g s.1).0 (s.0, (g s.1).1) a0 f (h s.1) k

module _ {U : Type 0} (sha256_hex : Text → Text) (mirror : Mirror U) (now : ℕ) (account_id : ℤ)
    (name : Text) (mailbox : Mailbox) (selection : SelectedMailboxInfo) (uids : List ℕ) where
  abbrev Mirrored : ℤ → Tables
  Mirrored last = Mirrors now account_id mailbox name selection last uids sha256_hex mirror

  sync_selected_settles :
      (checkpoint : Option SyncState) (s : Db × U)
      → FindsUids mirror uids
      → leb_ℤ (pos 0) (last_uid checkpoint selection) ≡ true
      → SettlesJob
          (Mirrored (last_uid checkpoint selection))
          (sync_selected sha256_hex mirror now account_id mailbox name selection checkpoint s)
  unfolding sync_selected
  sync_selected_settles checkpoint s finds counts =
      let last = last_uid checkpoint selection in
      second_known (Mirrored last)
        ((if uidvalidity_changed checkpoint selection
            then on_db (clear_synced_mailbox_messages mailbox.id)
            else pure done)
          s)
        mirror.uid_search_all uids
        (λ uids. on_db (λ db. (ok (list_mailbox_messages mailbox.id db), db)) >>= λ locals.
          sync_uids sha256_hex mirror now account_id mailbox.id name last locals uids 0 none
          >>= finish_mailbox sha256_hex mirror now account_id mailbox name selection last uids)
        finds
        (then-Sets (Mirrored last) (on_db (λ db. (ok (list_mailbox_messages mailbox.id db), db))) (
          uids_then_finish-Sets now account_id mailbox name selection last uids sha256_hex mirror
            counts))

  selected_settles :
      (r : Result SelectedMailboxInfo × U) (db : Db)
      → ((info : SelectedMailboxInfo) → r.0 ≡ ok info → selection ≡ info)
      → FindsUids mirror uids
      → leb_ℤ (pos 0) (last_uid (load_sync_state account_id (some mailbox.id) db) selection) ≡ true
      → SettlesJob
          (Mirrored (last_uid (load_sync_state account_id (some mailbox.id) db) selection))
          (and_then r.0
            (λ selection.
              on_db (λ db. (ok (load_sync_state account_id (some mailbox.id) db), db))
              >>= sync_selected sha256_hex mirror now account_id mailbox name selection)
            (db, r.1))
  selected_settles (err e, u) db selects finds counts = tt
  selected_settles (ok info, u) db selects finds counts =
      let checkpoint = load_sync_state account_id (some mailbox.id) db in
      subst
        (λ info.
          SettlesJob (Mirrored (last_uid checkpoint selection))
            (sync_selected sha256_hex mirror now account_id mailbox name info checkpoint (db, u)))
        (selects info refl) (sync_selected_settles checkpoint (db, u) finds counts)

  sync_mailbox_inner_settles :
      (s : Db × U)
      → Selects mirror name selection
      → FindsUids mirror uids
      → leb_ℤ (pos 0) (last_uid (load_sync_state account_id (some mailbox.id) s.0) selection) ≡ true
      → SettlesJob
          (Mirrored (last_uid (load_sync_state account_id (some mailbox.id) s.0) selection))
          (sync_mailbox_inner sha256_hex mirror now account_id name mailbox s)
  unfolding sync_mailbox_inner
  sync_mailbox_inner_settles (db, u) selects finds counts =
      selected_settles (mirror.select_mailbox name u) db (selects u) finds counts

-- A UID up to the checkpoint, or one whose message the mailbox has, under that UID.
abbrev covered : ℤ → ℤ → Db → ℕ → Bool
covered mailbox_id last db uid =
    leb_ℤ (pos uid) last
    || any (λ m. eqb_ℤ m.local_uid (pos uid) && is_from (pos uid) m)
        (list_mailbox_messages mailbox_id db)

held_listed :
    (mailbox_id n : ℤ) (db : Db)
    → HoldsRows mailbox_id n db.messages
    → any (λ m. eqb_ℤ m.local_uid n && is_from n m) (list_mailbox_messages mailbox_id db) ≡ true
unfolding is_at
held_listed mailbox_id n db h =
    any-list_mailbox_messages (λ m. eqb_ℤ m.local_uid n && is_from n m) mailbox_id db
    ∙ (any_same (λ m. is_in mailbox_id m && (eqb_ℤ m.local_uid n && is_from n m))
          (λ m. is_at mailbox_id n m && is_from n m) db.messages (λ m. ground arith)
        ∙ h.present)

held_covered :
    (mailbox_id last : ℤ) (db : Db) (uid : ℕ)
    → (leb_ℤ (pos uid) last ≡ false → HoldsRows mailbox_id (pos uid) db.messages)
    → covered mailbox_id last db uid ≡ true
held_covered mailbox_id last db uid h = elim (Bool-cases (leb_ℤ (pos uid) last)) [
  | inl t ↦ ground (arith, t)
  | inr f ↦ ground (arith, held_listed mailbox_id (pos uid) db (h f))
]

covered-All :
    (mailbox_id last : ℤ) (db : Db) (uids : List ℕ)
    → All
        (λ uid.
          (leb uid i64_max ≡ true)
          × (leb_ℤ (pos uid) last ≡ false → HoldsRows mailbox_id (pos uid) db.messages))
        uids
    → All (λ uid. covered mailbox_id last db uid ≡ true) uids
covered-All mailbox_id last db [] h = tt
covered-All mailbox_id last db (uid ∷ uids) h =
    (held_covered mailbox_id last db uid h.0.1, covered-All mailbox_id last db uids h.1)

-- A synchronisation of a mailbox that succeeds, of whatever rows it started from, leaves in the mailbox no
-- message from upstream whose UID the server does not list, and every UID that the server
-- lists is up to the checkpoint that was loaded or belongs to a message of the mailbox, whose local UID it
-- is too. The server is taken to give one answer to the selection and one to the search, whenever it
-- does not fail, and the last UID of the checkpoint is not negative.
pub sync_mailbox_inner-Mirrors :
    {U : Type 0} (sha256_hex : Text → Text) (mirror : Mirror U) (now : ℕ) (account_id : ℤ)
    (name : Text) (mailbox : Mailbox) (selection : SelectedMailboxInfo) (uids : List ℕ)
    (s next : Db × U) (synced : ℕ)
    → Selects mirror name selection
    → FindsUids mirror uids
    → leb_ℤ (pos 0) (last_uid (load_sync_state account_id (some mailbox.id) s.0) selection) ≡ true
    → sync_mailbox_inner sha256_hex mirror now account_id name mailbox s ≡ (ok synced, next)
    → (any (is_missing (upstream_uid_set uids)) (list_mailbox_messages mailbox.id next.0) ≡ false)
      × All
          (λ uid.
            (leb_ℤ (pos uid) (last_uid (load_sync_state account_id (some mailbox.id) s.0) selection)
              || any
                  (λ m. eqb_ℤ m.local_uid (pos uid) && is_from (pos uid) m)
                  (list_mailbox_messages mailbox.id next.0))
            ≡ true)
          uids
sync_mailbox_inner-Mirrors sha256_hex mirror now account_id name mailbox selection uids s next
      synced selects finds counts run =
    let last = last_uid (load_sync_state account_id (some mailbox.id) s.0) selection in
    let held =
      subst
        (SettlesJob (Mirrored sha256_hex mirror now account_id name mailbox selection uids last))
        run
        (sync_mailbox_inner_settles sha256_hex mirror now account_id name mailbox selection uids s
          selects finds counts) in
    (
      any-list_mailbox_messages (is_missing (upstream_uid_set uids)) mailbox.id next.0 ∙ held.1,
      covered-All mailbox.id last next.0 uids held.0,
    )
