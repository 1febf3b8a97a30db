-- ===== src/Sync/Engine/Quotas.antt =====
-- What an ingestion does to the quota of the account.
use imapped_lightmode.Base.{
  ◌≡◌, refl, subst, ◌∙◌, Option, none, some, List, retain, Result, ok, err, ◌>>=◌, arith,
}
use imapped_lightmode.Base.Int.{ℤ}
use imapped_lightmode.Domain.Records.{Mailbox, MailboxMessage, Quota}
use imapped_lightmode.Db as D
use imapped_lightmode.Db.{Db, Done, done}
use imapped_lightmode.Db.Mailboxes.{with_id, head}
use imapped_lightmode.Db.Messages.{assign_in_row, assign_mailbox_modseq}
use imapped_lightmode.Db.UidMappings.{upsert_uid_mapping}
use imapped_lightmode.Db.Upsert.{
  upsert_row, uid_for, write_message, map_message, upsert_mailbox_message,
}

-- A transaction that leaves the quotas.
abbrev Leaves : {A : Type 0} → List Quota → Result (A × Db) → Type 0
Leaves quotas (err e) = Unit
Leaves quotas (ok (a, next)) = next.quotas ≡ quotas

assign_in_row-Leaves :
    (mailbox_id : ℤ) (requested : Option ℤ) (db : Db) (found : Option Mailbox)
    → Leaves db.quotas (assign_in_row mailbox_id requested db found)
unfolding assign_in_row
assign_in_row-Leaves mailbox_id requested db none = tt
assign_in_row-Leaves mailbox_id requested db (some row) = ground arith

upsert_row-Leaves : (input : MailboxMessage) (db : Db) → Leaves db.quotas (upsert_row input db)
unfolding upsert_row
upsert_row-Leaves input db = ground arith

bind-Leaves :
    {A B : Type 0} (quotas : List Quota) (r : Result (A × Db)) (f : A × Db → Result (B × Db))
    → Leaves quotas r
    → ((a : A) (next : Db) → next.quotas ≡ quotas → Leaves quotas (f (a, next)))
    → Leaves quotas (r >>= f)
bind-Leaves quotas (err e) f h k = tt
bind-Leaves quotas (ok (a, next)) f h k = k a next h

write_message-Leaves :
    (input : MailboxMessage) (db : Db) → Leaves db.quotas (write_message input db)
unfolding write_message assign_mailbox_modseq
write_message-Leaves input db = go (uid_for input db)
  where
    go :
        (r : Result ℤ)
        → Leaves db.quotas (
            r >>= λ local_uid.
            assign_mailbox_modseq input.mailbox_id input.modseq db >>= λ assigned.
            upsert_row
              (record input { local_uid = local_uid; modseq = some assigned.0 })
              assigned.1)
    go (err e) = tt
    go (ok local_uid) =
        bind-Leaves db.quotas
          (assign_in_row input.mailbox_id input.modseq db
            (head (retain (with_id input.mailbox_id) db.mailboxes)))
          (λ assigned.
            upsert_row (record input { local_uid = local_uid; modseq = some assigned.0 })
              assigned.1)
          (assign_in_row-Leaves input.mailbox_id input.modseq db
            (head (retain (with_id input.mailbox_id) db.mailboxes)))
          (λ modseq next same.
            subst
              (λ quotas.
                Leaves quotas
                  (upsert_row (record input { local_uid = local_uid; modseq = some modseq }) next))
              same
              (upsert_row-Leaves (record input { local_uid = local_uid; modseq = some modseq })
                next))

map_message_quotas :
    (upstream_uid : Option ℤ) (row : MailboxMessage) (db : Db)
    → (map_message upstream_uid row db).1.quotas ≡ db.quotas
unfolding map_message upsert_uid_mapping
map_message_quotas none row db = refl
map_message_quotas (some upstream_uid) row db = ground arith

pub upsert_mailbox_message_quotas :
    (input : MailboxMessage) (db : Db) → (upsert_mailbox_message input db).1.quotas ≡ db.quotas
unfolding upsert_mailbox_message
upsert_mailbox_message_quotas input db = go (write_message input db) (write_message-Leaves input db)
  where
    mapped :
        (r : Result Done × Db) (row : MailboxMessage)
        → (D.and_then r.0 (λ result. D.pure row) r.1).1.quotas ≡ r.1.quotas
    mapped (err e, next) row = refl
    mapped (ok a, next) row = refl

    go :
        (r : Result (MailboxMessage × Db))
        → Leaves db.quotas r
        → (D.and_then
            (D.committed r db).0
            (λ row. D.◌>>=◌ (map_message row.upstream_uid row) λ result. D.pure row)
            (D.committed r db).1).1.quotas
          ≡ db.quotas
    go (err e) h = refl
    go (ok (row, next)) h =
        mapped (map_message row.upstream_uid row next) row
        ∙ (map_message_quotas row.upstream_uid row next ∙ h)
