-- ===== src/Db/Contents.antt =====
-- crates/db/src/repository.rs: the queries on the contents of messages, on their MIME parts and on
-- quotas. The unique index on the account of a quota is of migrations/0003_quota_uniqueness.sql.
use imapped_lightmode.Base.{
  suc, Bool, false, not, Option, none, some, List, [], ◌∷◌, ◌++◌, map, if◌then◌else◌, retain,
}
use imapped_lightmode.Base.Int.{ℤ, pos, eqb_ℤ, ◌+ℤ◌}
use imapped_lightmode.Domain.Records.{Message, MimePart, Quota}
use imapped_lightmode.Db.{Db}

-- The row gets the next id, whatever the id of `input` is.
unfoldable pub upsert_message : Message → Db → Message × Db
upsert_message input db =
    let row = record input { id = pos db.next_content_id } in
    (
      row,
      record db { contents = db.contents ++ row ∷ []; next_content_id = suc db.next_content_id },
    )

unfoldable pub insert_mime_part : MimePart → Db → Db
insert_mime_part part db = record db { mime_parts = db.mime_parts ++ part ∷ [] }

unfoldable pub delete_mime_parts_for_message : ℤ → Db → Db
delete_mime_parts_for_message message_id db = record db {
  mime_parts = retain (λ part. not (eqb_ℤ part.message_id message_id)) db.mime_parts;
}

unfoldable pub is_quota_of : ℤ → Quota → Bool
is_quota_of account_id quota = elim quota.account_id [
  | none ↦ false
  | some id ↦ eqb_ℤ id account_id
]

unfoldable pub first_quota : List Quota → Option Quota
first_quota [] = none
first_quota (quota ∷ quotas) = some quota

-- An account has one quota at most.
unfoldable pub get_account_quota : ℤ → Db → Option Quota
unfolding first_quota is_quota_of
get_account_quota account_id db = first_quota (retain (is_quota_of account_id) db.quotas)

unfoldable pub adjust_account_quota_usage : ℤ → ℤ → Db → Db
unfolding is_quota_of
adjust_account_quota_usage account_id delta_bytes db = record db {
  quotas =
      map
        (λ quota.
          if is_quota_of account_id quota
          then record quota { used_bytes = quota.used_bytes +ℤ delta_bytes }
          else quota)
        db.quotas;
}
