-- ===== src/Sync/Engine/Writes.antt =====
-- The queries of a synchronisation that write rows of `mailbox_messages`, and the message `n` of the server.
use imapped_lightmode.Base.{
  ℕ, ◌≡◌, refl, sym, subst, ◌∙◌, Bool, true, false, not, ◌&&◌, Option, none, some, List, [], ◌∷◌,
  any, any-retain, map, retain, if◌then◌else◌, Bool-cases, inl, inr, Result, ok, err, arith,
}
use imapped_lightmode.Base.Int.{ℤ, pos, eqb_ℤ, eqb_ℤ_iff}
use imapped_lightmode.Text.{Text}
use imapped_lightmode.Domain.Records.{MailboxMessage, UidMapping}
use imapped_lightmode.Db as D
use imapped_lightmode.Db.{Db, Done, done}
use imapped_lightmode.Db.Messages.{
  is_in, is_at, list_mailbox_messages, delete_mailbox_message, assign_mailbox_modseq, set_flags,
  write_flags, update_mailbox_message_flags,
}
use imapped_lightmode.Db.Messages.Purge.{delete_messages}
use imapped_lightmode.Db.UidMappings.{upsert_uid_mapping, mailbox_uidvalidity}
use imapped_lightmode.Db.Upsert.{
  upsert_row, uid_for, write_message, map_message, upsert_mailbox_message,
}
use imapped_lightmode.Sync.Engine.{delete_where, is_from}
use imapped_lightmode.Sync.Engine.Rows.{
  any-list_mailbox_messages, Gives, assign_mailbox_modseq-Gives, rows_without,
  delete_mailbox_message-Gives,
}
use imapped_lightmode.Sync.Engine.Deletes.{any_below, at_place, HoldsRows, rows_without-HoldsRows}
use imapped_lightmode.Sync.Engine.Holds.{
  any-set_flags, Post, Post-bind, fits, upsert_row_keeps, upsert_row_sets,
}

module _ (P : List MailboxMessage → Type 0) where
  pub committed_keeps :
      {A : Type 0} (r : Result (A × Db)) (db : Db)
      → P db.messages
      → Post P r
      → P (D.committed r db).1.messages
  committed_keeps (err e) db h post = h
  committed_keeps (ok (a, next)) db h post = post

  Post-Gives :
      {A : Type 0} (rows : List MailboxMessage) (r : Result (A × Db))
      → P rows
      → Gives rows r
      → Post P r
  Post-Gives rows (err e) h g = tt
  Post-Gives rows (ok (a, next)) h g = subst P (sym g) h

upsert_uid_mapping-Gives :
    (row : UidMapping) (db : Db) → Gives db.messages (upsert_uid_mapping row db)
unfolding upsert_uid_mapping
upsert_uid_mapping-Gives row db = ground arith

map_message_keeps :
    (P : List MailboxMessage → Type 0) (upstream_uid : Option ℤ) (row : MailboxMessage) (db : Db)
    → P db.messages
    → P (map_message upstream_uid row db).1.messages
unfolding map_message
map_message_keeps P none row db h = h
map_message_keeps P (some upstream_uid) row db h =
    let mapping : UidMapping = record {
      mailbox_id = row.mailbox_id;
      local_uid = row.local_uid;
      upstream_uid = upstream_uid;
      upstream_uidvalidity = mailbox_uidvalidity row.mailbox_id db;
    } in
    committed_keeps P (upsert_uid_mapping mapping db) db h (
      Post-Gives P db.messages (upsert_uid_mapping mapping db) h
        (upsert_uid_mapping-Gives mapping db))

-- A message that is stored under a UID, which is not 0.
module _ (input : MailboxMessage) (uid_given : eqb_ℤ input.local_uid (pos 0) ≡ false) where
  abbrev numbered : ℤ → MailboxMessage
  numbered modseq = record input { modseq = some modseq }

  write_message-Post :
      (P : List MailboxMessage → Type 0) (db : Db)
      → ((modseq : ℤ) (next : Db)
          → next.messages ≡ db.messages
          → Post P (upsert_row (numbered modseq) next))
      → Post P (write_message input db)
  unfolding write_message uid_for
  write_message-Post P db k = rw uid_given (
      Post-bind P db.messages (assign_mailbox_modseq input.mailbox_id input.modseq db)
        (λ assigned. upsert_row (numbered assigned.0) assigned.1)
        (assign_mailbox_modseq-Gives input.mailbox_id input.modseq db) k)

  write_message_keeps :
      (n : ℤ) (db : Db)
      → ((id modseq : ℤ)
          → fits (numbered modseq) input.local_uid (record (numbered modseq) { id = id }) ≡ true)
      → HoldsRows input.mailbox_id n db.messages
      → Post (HoldsRows input.mailbox_id n) (write_message input db)
  write_message_keeps n db fitting h = elim (Bool-cases (eqb_ℤ input.local_uid n)) [
    | inl same ↦
        subst (λ n. Post (HoldsRows input.mailbox_id n) (write_message input db))
          ((eqb_ℤ_iff input.local_uid n).0 same)
          (write_message-Post (HoldsRows input.mailbox_id input.local_uid) db
            (λ modseq next e. upsert_row_sets (numbered modseq) (λ id. fitting id modseq) next))
    | inr apart ↦ write_message-Post (HoldsRows input.mailbox_id n) db (λ modseq next e.
        upsert_row_keeps (numbered modseq) n apart next
          (subst (HoldsRows input.mailbox_id n) (sym e) h))
  ]

  write_message_sets :
      (db : Db)
      → ((id modseq : ℤ)
          → fits (numbered modseq) input.local_uid (record (numbered modseq) { id = id }) ≡ true)
      → Post (HoldsRows input.mailbox_id input.local_uid) (write_message input db)
  write_message_sets db fitting =
      write_message-Post (HoldsRows input.mailbox_id input.local_uid) db
        (λ modseq next e. upsert_row_sets (numbered modseq) (λ id. fitting id modseq) next)

-- What an action makes of the rows, where it succeeds.
abbrev pub Settles : {A : Type 0} → (Db → Type 0) → Result A × Db → Type 0
Settles P (err e, db) = Unit
Settles P (ok a, db) = P db

-- The same of a mailbox's row of the server, in the database.
abbrev pub Holds : ℤ → ℤ → Db → Type 0
Holds mailbox_id n db = HoldsRows mailbox_id n db.messages

mapped_keeps :
    (P : List MailboxMessage → Type 0) (r : Result (MailboxMessage × Db)) (db : Db)
    → P db.messages
    → Post P r
    → P
        (D.and_then
          (D.committed r db).0
          (λ row. D.◌>>=◌ (map_message row.upstream_uid row) λ result. D.pure row)
          (D.committed r db).1).1.messages
mapped_keeps P (err e) db h post = h
mapped_keeps P (ok (row, next)) db h post =
    pure_keeps (map_message row.upstream_uid row next)
      (map_message_keeps P row.upstream_uid row next post)
  where
    pure_keeps :
        (r : Result Done × Db)
        → P r.1.messages
        → P (D.and_then r.0 (λ result. D.pure row) r.1).1.messages
    pure_keeps (err e, after) h = h
    pure_keeps (ok a, after) h = h

mapped-Settles :
    (P : List MailboxMessage → Type 0) (r : Result (MailboxMessage × Db)) (db : Db)
    → Post P r
    → Settles
        (λ db. P db.messages)
        (D.and_then
          (D.committed r db).0
          (λ row. D.◌>>=◌ (map_message row.upstream_uid row) λ result. D.pure row)
          (D.committed r db).1)
mapped-Settles P (err e) db post = tt
mapped-Settles P (ok (row, next)) db post =
    pure_settles (map_message row.upstream_uid row next)
      (map_message_keeps P row.upstream_uid row next post)
  where
    pure_settles :
        (r : Result Done × Db)
        → P r.1.messages
        → Settles (λ db. P db.messages) (D.and_then r.0 (λ result. D.pure row) r.1)
    pure_settles (err e, after) h = tt
    pure_settles (ok a, after) h = h

module _ (input : MailboxMessage) (uid_given : eqb_ℤ input.local_uid (pos 0) ≡ false)
    (fitting : (id modseq : ℤ)
      → fits
          (record input { modseq = some modseq })
          input.local_uid
          (record input { id = id; modseq = some modseq })
        ≡ true) where
  pub upsert_mailbox_message_keeps :
      (n : ℤ) (db : Db)
      → HoldsRows input.mailbox_id n db.messages
      → HoldsRows input.mailbox_id n (upsert_mailbox_message input db).1.messages
  unfolding upsert_mailbox_message
  upsert_mailbox_message_keeps n db h =
      mapped_keeps (HoldsRows input.mailbox_id n) (write_message input db) db h
        (write_message_keeps input uid_given n db fitting h)

  pub upsert_mailbox_message-Settles :
      (db : Db) → Settles (Holds input.mailbox_id input.local_uid) (upsert_mailbox_message input db)
  unfolding upsert_mailbox_message
  upsert_mailbox_message-Settles db =
      mapped-Settles (HoldsRows input.mailbox_id input.local_uid) (write_message input db) db
        (write_message_sets input uid_given db fitting)

-- New flags.
flagged-HoldsRows :
    (mailbox_id n : ℤ) (test : MailboxMessage → Bool) (flags : List Text) (modseq : ℤ)
    (rows : List MailboxMessage)
    → HoldsRows mailbox_id n rows
    → HoldsRows mailbox_id n (map (λ m. if test m then set_flags flags modseq m else m) rows)
unfolding is_at is_in is_from
flagged-HoldsRows mailbox_id n test flags modseq rows h = record {
  present =
      any-set_flags test (λ m. is_at mailbox_id n m && is_from n m) flags modseq rows (λ m. refl)
      ∙ h.present;
  alone =
      any-set_flags test (λ m. at_place mailbox_id n m && not (is_from n m)) flags modseq rows
        (λ m. refl)
      ∙ h.alone;
}

pub update_flags_keeps :
    (mailbox_id n local_uid : ℤ) (flags : List Text) (db : Db)
    → HoldsRows mailbox_id n db.messages
    → HoldsRows mailbox_id n
        (D.commit (update_mailbox_message_flags mailbox_id local_uid flags) db).1.messages
unfolding update_mailbox_message_flags write_flags
update_flags_keeps mailbox_id n local_uid flags db h =
    committed_keeps (HoldsRows mailbox_id n)
      (update_mailbox_message_flags mailbox_id local_uid flags db) db h
      (Post-bind (HoldsRows mailbox_id n) db.messages (assign_mailbox_modseq mailbox_id none db)
        (write_flags mailbox_id local_uid flags) (assign_mailbox_modseq-Gives mailbox_id none db)
        (λ modseq next e.
          flagged-HoldsRows mailbox_id n (is_at mailbox_id local_uid) flags modseq next.messages
            (subst (HoldsRows mailbox_id n) (sym e) h)))

-- Deletions of other UIDs.
deletes_keep :
    (mailbox_id n : ℤ) (ms : List MailboxMessage) (db : Db)
    → any (λ m. eqb_ℤ m.local_uid n) ms ≡ false
    → HoldsRows mailbox_id n db.messages
    → HoldsRows mailbox_id n (delete_messages mailbox_id ms db).1.messages
unfolding delete_messages
deletes_keep mailbox_id n [] db apart h = h
deletes_keep mailbox_id n (m ∷ ms) db apart h =
    go (delete_mailbox_message mailbox_id m.local_uid db)
      (delete_mailbox_message-Gives mailbox_id m.local_uid db)
      (λ next kept. deletes_keep mailbox_id n ms next (ground (arith, apart)) kept)
  where
    go :
        (r : Result (ℕ × Db))
        → Gives (rows_without mailbox_id m.local_uid db.messages) r
        → ((next : Db)
            → HoldsRows mailbox_id n next.messages
            → HoldsRows mailbox_id n (delete_messages mailbox_id ms next).1.messages)
        → HoldsRows mailbox_id n
            (D.and_then
              (D.committed r db).0
              (λ k. delete_messages mailbox_id ms)
              (D.committed r db).1).1.messages
    go (err e) g k = h
    go (ok (count, next)) g k = k next (
        subst (HoldsRows mailbox_id n) (sym g)
          (rows_without-HoldsRows mailbox_id n m.local_uid db.messages (ground (arith, apart)) h))

pub delete_where_keeps :
    (test : MailboxMessage → Bool) (mailbox_id n : ℤ) (db : Db)
    → ((m : MailboxMessage) → is_from n m ≡ true → test m ≡ false)
    → HoldsRows mailbox_id n db.messages
    → HoldsRows mailbox_id n (delete_where test mailbox_id db).1.messages
unfolding delete_where
delete_where_keeps test mailbox_id n db spares h =
    deletes_keep mailbox_id n (retain test (list_mailbox_messages mailbox_id db)) db
      (any-retain (λ m. eqb_ℤ m.local_uid n) test (list_mailbox_messages mailbox_id db)
        ∙ (any-list_mailbox_messages (λ m. test m && eqb_ℤ m.local_uid n) mailbox_id db
            ∙ any_below (λ m. is_in mailbox_id m && (test m && eqb_ℤ m.local_uid n))
                (λ m. at_place mailbox_id n m && not (is_from n m)) db.messages
                (λ m t. spared m (spares m) t) h.alone))
      h
  where
    spared :
        (m : MailboxMessage)
        → (is_from n m ≡ true → test m ≡ false)
        → (is_in mailbox_id m && (test m && eqb_ℤ m.local_uid n)) ≡ true
        → (at_place mailbox_id n m && not (is_from n m)) ≡ true
    spared m k t = unfold is_in in ground arith
