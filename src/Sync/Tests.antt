-- ===== src/Sync/Tests.antt =====
-- The queue of changes on concrete changes.
use imapped_lightmode.Base.{
  ℕ, suc, ◌≡◌, refl, true, Option, none, some, [], ◌∷◌, length, Result, ok, err, storage,
}
use imapped_lightmode.Base.Int.{pos}
use imapped_lightmode.Text.{Text, lit, eq}
use imapped_lightmode.Text.Map.{lookup}
use imapped_lightmode.Domain.{pending, failed}
use imapped_lightmode.Domain.Records.{PendingMutation, number, strings}
use imapped_lightmode.Db.{Db, done}
use imapped_lightmode.Db.Mutations.{is_due, is_open, is_time, list_due_pending_mutations}
use imapped_lightmode.Sync.Retry.{retry_delay}
use imapped_lightmode.Sync.Job.{Upstream}
use imapped_lightmode.Sync.Apply.{
  as_unsigned, get_as, get_texts, as_texts, required, apply, apply_flag_update, apply_mutation,
}
use imapped_lightmode.Sync.Flush.{flush_pending_mutations}
use imapped_lightmode.Sync.Flush.Laws.{flush_pending_mutations-list_due}
use imapped_lightmode.Sync.Flush.Settled.{is_calm, flush_pending_mutations-is_calm}

-- The delays of the first attempts, and the bound.
retry_delay_3 : retry_delay 3 ≡ 8
unfolding retry_delay
retry_delay_3 = refl

retry_delay_12 : retry_delay 12 ≡ 300
unfolding retry_delay
retry_delay_12 = refl

-- A server that does what it is asked to, and counts.
abbrev server : Upstream ℕ
server = record {
  append_with_internal_date = λ mailbox flags date raw n. (ok none, suc n);
  uid_store_flags = λ uid flags n. (ok done, suc n);
  select = λ mailbox n. (ok done, suc n);
  uid_copy_message = λ uid mailbox n. (ok n, suc n);
  expunge_selected = λ n. (ok done, suc n);
}

abbrev get : Text → Result (Option Text)
get key = ok none

abbrev parse_time : Text → Result ℕ
parse_time value = err (storage (lit "no time"))

abbrev flags_change : ℕ → PendingMutation
flags_change id = record {
  id = pos id;
  account_id = pos 1;
  mailbox_id = pos 2;
  message_id = none;
  mutation_type = lit "store_flags";
  payload_json = (lit "local_uid", number (pos 7)) ∷ (lit "flags", strings []) ∷ [];
  status = pending;
  attempts = 0;
  next_attempt_at = none;
  idempotency_key = id ∷ [];
}

abbrev queue : Db
queue = record {
  mailboxes = [];
  messages = [];
  mutations =
      flags_change 1
      ∷ record (flags_change 2) { status = failed; attempts = 3; next_attempt_at = some 5 }
      ∷ [];
  sessions = [];
  uid_mappings = [];
  contents = [];
  mime_parts = [];
  quotas = [];
  mail_accounts = [];
  sync_states = [];
  next_mailbox_id = 1;
  next_message_row_id = 1;
  next_mutation_id = 3;
  next_content_id = 1;
}

flags_change_sent :
    (id : ℕ) (s : Db × ℕ) → (apply_mutation get parse_time server (flags_change id) s).0 ≡ ok done
unfolding apply apply_flag_update required get_as as_unsigned get_texts as_texts lit eq lookup
flags_change_sent id s = refl

flush_pending_mutations-list_due_example :
    (next : Db × ℕ) × (flush_pending_mutations
        (apply_mutation get parse_time server)
        10
        (pos 1)
        (queue, 0)
      ≡ (ok (length (list_due_pending_mutations (pos 1) 10 queue)), next))
    × (list_due_pending_mutations (pos 1) 10 next.0 ≡ [])
unfolding list_due_pending_mutations is_due is_open is_time
flush_pending_mutations-list_due_example =
    flush_pending_mutations-list_due get parse_time server 10 (pos 1) queue 0
      (flags_change_sent 1, (flags_change_sent 2, tt))

flush_pending_mutations-is_calm_example :
    is_calm
      (flush_pending_mutations
        (apply_mutation get parse_time server)
        10
        (pos 1)
        (queue, 0)).1.0.mutations
    ≡ true
flush_pending_mutations-is_calm_example =
    flush_pending_mutations-is_calm get parse_time server 10 (pos 1) queue 0 refl
