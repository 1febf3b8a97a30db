-- ===== src/Sync/Apply/Laws.antt =====
-- Sending a change never touches the table of changes.
use imapped_lightmode.Base.{
  ℕ, ◌≡◌, refl, ◌∙◌, Bool, true, false, Option, none, some, if◌then◌else◌, storage, ◌++◌, Result,
  ok, err, arith,
}
use imapped_lightmode.Base.Int.{ℤ, wrap_i64}
use imapped_lightmode.Text.{Text, lit, eq}
use imapped_lightmode.Text.Map.{lookup}
use imapped_lightmode.Domain.Records.{Payload, MailboxMessage, UidMapping}
use imapped_lightmode.Db.{Db, Done, done}
use imapped_lightmode.Db.UidMappings.{
  mailbox_uidvalidity, upsert_uid_mapping, write_upstream_uid, map_upstream_uid, keep_written,
  after_write, set_mailbox_message_upstream_uid, upstream_uid_for_mailbox_message,
}
use imapped_lightmode.ImapServer.SearchMatch.{as_u64}
use imapped_lightmode.Sync.Job.{Upstream, Job, and_then, ◌>>=◌, on_db, on_upstream, lift}
use imapped_lightmode.Sync.Apply.{
  as_i64, as_unsigned, as_str, get_as, get_texts, required, with_deleted, present, internal_date,
  copied, missing_upstream_uid, note_append, apply_append, apply_flag_update, copy_upstream,
  apply_copy_message, apply_move_message, apply,
}

-- Whatever the transaction comes to, the table of changes is as before.
abbrev SameTable : {A : Type 0} → Db → Result (A × Db) → Type 0
SameTable db (err e) = Unit
SameTable db (ok (a, next)) = next.mutations ≡ db.mutations

upsert_uid_mapping-SameTable :
    (row : UidMapping) (db : Db) → SameTable db (upsert_uid_mapping row db)
unfolding upsert_uid_mapping
upsert_uid_mapping-SameTable row db = ground arith

write_upstream_uid-SameTable :
    (mailbox_id local_uid upstream_uid : ℤ) (db : Db)
    → SameTable db (write_upstream_uid mailbox_id local_uid upstream_uid db)
unfolding write_upstream_uid
write_upstream_uid-SameTable mailbox_id local_uid upstream_uid db = ground arith

map_upstream_uid-SameTable :
    (mailbox_id local_uid upstream_uid : ℤ) (found : Option MailboxMessage) (db : Db)
    → SameTable db (map_upstream_uid mailbox_id local_uid upstream_uid (found, db))
unfolding map_upstream_uid
map_upstream_uid-SameTable mailbox_id local_uid upstream_uid none db = refl
map_upstream_uid-SameTable mailbox_id local_uid upstream_uid (some m) db =
    upsert_uid_mapping-SameTable
      (record {
        mailbox_id = mailbox_id;
        local_uid = local_uid;
        upstream_uid = upstream_uid;
        upstream_uidvalidity = mailbox_uidvalidity mailbox_id db;
      })
      db

keep_written_same :
    (db : Db) (r : Result (Done × Db))
    → SameTable db r
    → (keep_written db r).1.mutations ≡ db.mutations
unfolding keep_written
keep_written_same db (err e) h = refl
keep_written_same db (ok (result, next)) h = h

after_write_same :
    (mailbox_id local_uid upstream_uid : ℤ) (db : Db) (r : Result (Option MailboxMessage × Db))
    → SameTable db r
    → (after_write mailbox_id local_uid upstream_uid db r).1.mutations ≡ db.mutations
unfolding after_write
after_write_same mailbox_id local_uid upstream_uid db (err e) h = refl
after_write_same mailbox_id local_uid upstream_uid db (ok (found, next)) h =
    keep_written_same next (map_upstream_uid mailbox_id local_uid upstream_uid (found, next))
      (map_upstream_uid-SameTable mailbox_id local_uid upstream_uid found next)
    ∙ h

set_upstream_uid_same :
    (mailbox_id local_uid upstream_uid : ℤ) (db : Db)
    → (set_mailbox_message_upstream_uid mailbox_id local_uid upstream_uid db).1.mutations
      ≡ db.mutations
unfolding set_mailbox_message_upstream_uid
set_upstream_uid_same mailbox_id local_uid upstream_uid db =
    after_write_same mailbox_id local_uid upstream_uid db
      (write_upstream_uid mailbox_id local_uid upstream_uid db)
      (write_upstream_uid-SameTable mailbox_id local_uid upstream_uid db)

module _ {U : Type 0} where
  pub record KeepsTable {A : Type 0} (job : Job U A) : Type 0 where
    pub same : (s : Db × U) → (job s).1.0.mutations ≡ s.0.mutations

  and_then_same :
      {A B : Type 0} (r : Result A) (f : A → Job U B) (s : Db × U)
      → ((a : A) → KeepsTable (f a))
      → (and_then r f s).1.0.mutations ≡ s.0.mutations
  and_then_same (err e) f s k = refl
  and_then_same (ok a) f s k = (k a).same s

  bind-KeepsTable :
      {A B : Type 0} {m : Job U A} {f : A → Job U B}
      → KeepsTable m
      → ((a : A) → KeepsTable (f a))
      → KeepsTable (m >>= f)
  bind-KeepsTable {m = m} {f = f} h k = record {
    same = λ s. and_then_same (m s).0 f (m s).1 k ∙ h.same s;
  }

  lift-KeepsTable : {A : Type 0} (r : Result A) → KeepsTable {A = A} (lift r)
  lift-KeepsTable r = record { same = λ s. refl }

  upstream-KeepsTable : {A : Type 0} (g : U → Result A × U) → KeepsTable {A = A} (on_upstream g)
  upstream-KeepsTable g = record { same = λ s. refl }

  set_uid-KeepsTable :
      (mailbox_id local_uid upstream_uid : ℤ)
      → KeepsTable (on_db (set_mailbox_message_upstream_uid mailbox_id local_uid upstream_uid))
  set_uid-KeepsTable mailbox_id local_uid upstream_uid = record {
    same = λ s. set_upstream_uid_same mailbox_id local_uid upstream_uid s.0;
  }

module _ (get : Text → Result (Option Text)) (parse_from_rfc3339 : Text → Result ℕ) {U : Type 0}
    (upstream : Upstream U) where
  note_append-KeepsTable :
      (mailbox_id : ℤ) (local_uid : Option ℤ) (append_uid : Option ℕ)
      → KeepsTable (note_append get parse_from_rfc3339 upstream mailbox_id local_uid append_uid)
  unfolding note_append
  note_append-KeepsTable mailbox_id none none = record { same = λ s. refl }
  note_append-KeepsTable mailbox_id none (some append_uid) = record { same = λ s. refl }
  note_append-KeepsTable mailbox_id (some local_uid) none = record { same = λ s. refl }
  note_append-KeepsTable mailbox_id (some local_uid) (some append_uid) =
      set_uid-KeepsTable mailbox_id local_uid (wrap_i64 append_uid)

  apply_append-KeepsTable :
      (payload : Payload) → KeepsTable (apply_append get parse_from_rfc3339 upstream payload)
  unfolding apply_append
  apply_append-KeepsTable payload =
      bind-KeepsTable (lift-KeepsTable (required as_str (lit "append") payload (lit "mailbox")))
        (λ mailbox.
          bind-KeepsTable
            (lift-KeepsTable (required as_i64 (lit "append") payload (lit "mailbox_id")))
            (λ mailbox_id.
              bind-KeepsTable
                (lift-KeepsTable (required as_str (lit "append") payload (lit "blob_key")))
                (λ blob_key.
                  bind-KeepsTable
                    (lift-KeepsTable (
                      internal_date get parse_from_rfc3339 upstream
                        (get_as as_str (lookup (lit "internal_date") payload))))
                    (λ date.
                      bind-KeepsTable
                        (lift-KeepsTable (
                          present (get blob_key)
                            (storage (lit "missing blob for append: " ++ blob_key))))
                        (λ raw.
                          bind-KeepsTable
                            (upstream-KeepsTable (
                              upstream.append_with_internal_date mailbox
                                (get_texts (lookup (lit "flags") payload)) date raw))
                            (note_append-KeepsTable mailbox_id
                              (get_as as_i64 (lookup (lit "local_uid") payload))))))))

  apply_flag_update-KeepsTable :
      (payload : Payload) → KeepsTable (apply_flag_update get parse_from_rfc3339 upstream payload)
  unfolding apply_flag_update
  apply_flag_update-KeepsTable payload =
      bind-KeepsTable
        (lift-KeepsTable (required as_unsigned (lit "flag") payload (lit "local_uid")))
        (λ local_uid.
          upstream-KeepsTable
            (upstream.uid_store_flags local_uid (get_texts (lookup (lit "flags") payload))))

  copied-KeepsTable :
      (kind : Text) (source_id local_uid : ℤ) (source destination : Text) (destination_id : ℤ)
      (destination_uid : ℤ)
      → KeepsTable (
          copied get parse_from_rfc3339 upstream kind source_id local_uid source destination
            destination_id destination_uid)
  unfolding copied
  copied-KeepsTable kind source_id local_uid source destination destination_id destination_uid =
      bind-KeepsTable
        {m = λ s. (
          present (upstream_uid_for_mailbox_message source_id local_uid s.0)
              (missing_upstream_uid kind source_id local_uid),
          s,
        )}
        (record { same = λ s. refl })
        (λ source_uid.
          bind-KeepsTable
            (bind-KeepsTable (upstream-KeepsTable (upstream.select source)) (λ selected.
              upstream-KeepsTable (upstream.uid_copy_message (as_u64 source_uid) destination)))
            (λ copied_uid.
              bind-KeepsTable
                (set_uid-KeepsTable destination_id destination_uid (wrap_i64 copied_uid))
                (λ noted. lift-KeepsTable (ok (as_u64 source_uid)))))

  copy_upstream-KeepsTable :
      (kind : Text) (payload : Payload)
      → KeepsTable (copy_upstream get parse_from_rfc3339 upstream kind payload)
  unfolding copy_upstream
  copy_upstream-KeepsTable kind payload =
      bind-KeepsTable (lift-KeepsTable (required as_i64 kind payload (lit "source_mailbox_id")))
        (λ source_id.
          bind-KeepsTable (lift-KeepsTable (required as_str kind payload (lit "source_mailbox")))
            (λ source.
              bind-KeepsTable
                (lift-KeepsTable (required as_str kind payload (lit "destination_mailbox")))
                (λ destination.
                  bind-KeepsTable
                    (lift-KeepsTable (required as_i64 kind payload (lit "destination_mailbox_id")))
                    (λ destination_id.
                      bind-KeepsTable
                        (lift-KeepsTable (required as_i64 kind payload (lit "local_uid")))
                        (λ local_uid.
                          bind-KeepsTable
                            (lift-KeepsTable
                              (required as_i64 kind payload (lit "destination_local_uid")))
                            (copied-KeepsTable kind source_id local_uid source destination
                              destination_id))))))

  apply_move_message-KeepsTable :
      (payload : Payload) → KeepsTable (apply_move_message get parse_from_rfc3339 upstream payload)
  unfolding apply_move_message
  apply_move_message-KeepsTable payload =
      bind-KeepsTable (copy_upstream-KeepsTable (lit "move") payload) (λ source_uid.
        bind-KeepsTable
          (upstream-KeepsTable (
            upstream.uid_store_flags source_uid
              (with_deleted (get_texts (lookup (lit "flags") payload)))))
          (λ stored. upstream-KeepsTable upstream.expunge_selected))

  if-KeepsTable :
      (test : Bool) (left right : Job U Done)
      → KeepsTable left
      → KeepsTable right
      → KeepsTable (if test then left else right)
  if-KeepsTable true left right l r = l
  if-KeepsTable false left right l r = r

  -- No change that is sent touches the table of changes.
  pub apply-KeepsTable :
      (mutation_type : Text) (payload : Payload)
      → KeepsTable (apply get parse_from_rfc3339 upstream mutation_type payload)
  unfolding apply apply_copy_message
  apply-KeepsTable mutation_type payload =
      if-KeepsTable (eq mutation_type (lit "append")) _ _ (apply_append-KeepsTable payload) (
        if-KeepsTable (eq mutation_type (lit "store_flags")) _ _
          (apply_flag_update-KeepsTable payload)
          (if-KeepsTable (eq mutation_type (lit "copy_message")) _ _
            (bind-KeepsTable (copy_upstream-KeepsTable (lit "copy") payload)
              (λ uid. lift-KeepsTable (ok done)))
            (if-KeepsTable (eq mutation_type (lit "move_message")) _ _
              (apply_move_message-KeepsTable payload) (lift-KeepsTable _))))
