-- ===== src/Db/SyncStates.antt =====
-- crates/db/src/repository.rs: the checkpoints of the synchronisation. The unique index on the account
-- and the mailbox is of migrations/0002_sync_state_unique.sql; it takes `NULL` for a value of its own.
use imapped_lightmode.Base.{
  Bool, true, false, ◌&&◌, Option, none, some, List, [], ◌∷◌, ◌++◌, map, if◌then◌else◌, any, retain,
}
use imapped_lightmode.Base.Int.{ℤ, eqb_ℤ}
use imapped_lightmode.Domain.Records.{SyncState}
use imapped_lightmode.Db.{Db}

-- `IS NOT DISTINCT FROM`.
unfoldable pub same_mailbox : Option ℤ → Option ℤ → Bool
same_mailbox none none = true
same_mailbox none (some m) = false
same_mailbox (some n) none = false
same_mailbox (some n) (some m) = eqb_ℤ n m

unfoldable pub is_state : ℤ → Option ℤ → SyncState → Bool
unfolding same_mailbox
is_state account_id mailbox_id state =
    eqb_ℤ state.account_id account_id && same_mailbox state.mailbox_id mailbox_id

-- `ORDER BY id DESC LIMIT 1`, where rows stand in the order of their ids.
unfoldable pub last_state : List SyncState → Option SyncState
last_state [] = none
last_state (state ∷ states) = elim (last_state states) [
  | none ↦ some state
  | some later ↦ some later
]

unfoldable pub load_sync_state : ℤ → Option ℤ → Db → Option SyncState
unfolding last_state is_state
load_sync_state account_id mailbox_id db =
    last_state (retain (is_state account_id mailbox_id) db.sync_states)

-- The index knows no conflict of a row without a mailbox.
unfoldable pub conflicts : SyncState → SyncState → Bool
conflicts input other = elim input.mailbox_id [
  | none ↦ false
  | some mailbox_id ↦ is_state input.account_id (some mailbox_id) other
]

unfoldable pub put_sync_state : SyncState → Db → Db
unfolding conflicts is_state
put_sync_state input db = record db {
  sync_states =
      if any (conflicts input) db.sync_states
      then map (λ other. if conflicts input other then input else other) db.sync_states
      else db.sync_states ++ input ∷ [];
}
