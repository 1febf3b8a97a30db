-- ===== src/Session/Targets.antt =====
-- crates/imap-server/src/imap.rs: which messages a command is about. A sequence number is the place of
-- a message in the mailbox, from 1.
pub mod Laws
pub mod Remove
use imapped_lightmode.Base.{
  ℕ, zero, suc, ◌-◌, ◌^◌, Bool, true, false, ◌&&◌, Option, none, some, List, [], ◌∷◌, ◌++◌,
  if◌then◌else◌, any, retain, length, get_elem?, leb,
}
use imapped_lightmode.Base.Int.{ℤ, pos, negsuc, eqb_ℤ}
use imapped_lightmode.Text.{Text, lit}
use imapped_lightmode.Text.Case.{eq_ignore_ascii_case}
use imapped_lightmode.Protocol.NumberSet.{parse_number_set}
use imapped_lightmode.Domain.Records.{MailboxMessage}
use imapped_lightmode.Db.Messages.{max_uid, unwrap_or_0}

unfoldable pub flags_contain_deleted : List Text → Bool
flags_contain_deleted flags = any (λ flag. eq_ignore_ascii_case flag (lit "\\Deleted")) flags

abbrev pub is_deleted : MailboxMessage → Bool
is_deleted m = flags_contain_deleted m.flags

-- A message with its sequence number.
abbrev pub Target : Type 0
Target = ℕ × MailboxMessage

-- `sequence as usize`, and `sequence.saturating_sub(1) as usize` but for the smallest `i64`.
unfoldable pub as_usize : ℤ → ℕ
as_usize (pos n) = n
as_usize (negsuc n) = 2 ^ 64 - 1 - n

unfoldable pub index_of : ℤ → ℕ
index_of (pos zero) = 2 ^ 64 - 1
index_of (pos (suc n)) = n
index_of (negsuc n) = 2 ^ 64 - 2 - n

unfoldable pub push_target : ℤ → Option MailboxMessage → List Target → List Target
unfolding as_usize
push_target sequence none rest = rest
push_target sequence (some message) rest = (as_usize sequence, message) ∷ rest

-- The loop over the numbers of the set.
unfoldable pub sequence_targets : List MailboxMessage → List ℤ → List Target
unfolding push_target index_of
sequence_targets messages [] = []
sequence_targets messages (sequence ∷ sequences) =
    push_target sequence (get_elem? messages (index_of sequence))
      (sequence_targets messages sequences)

unfoldable pub resolve_sequence_targets : List MailboxMessage → Text → List Target
unfolding sequence_targets
resolve_sequence_targets messages set =
    sequence_targets messages (parse_number_set set (pos (length messages)))

unfoldable pub contains_number : List ℤ → ℤ → Bool
contains_number numbers n = any (λ m. eqb_ℤ m n) numbers

-- The numbers of a set of UIDs, where `*` stands for the greatest UID in use.
unfoldable pub uids_of : List MailboxMessage → Text → List ℤ
unfolding max_uid unwrap_or_0
uids_of messages set = parse_number_set set (unwrap_or_0 (max_uid messages))

unfoldable pub resolve_uid_targets : List MailboxMessage → Text → List MailboxMessage
unfolding uids_of contains_number
resolve_uid_targets messages set =
    retain (λ m. contains_number (uids_of messages set) m.local_uid) messages

-- The messages that `test` holds of with their sequence numbers, from `next` on.
unfoldable pub numbered : (MailboxMessage → Bool) → ℕ → List MailboxMessage → List Target
numbered test next [] = []
numbered test next (m ∷ messages) =
    if test m
    then (next, m) ∷ numbered test (suc next) messages
    else numbered test (suc next) messages

-- `position` of the UID, plus 1.
unfoldable pub position_from : ℕ → ℤ → List MailboxMessage → Option ℕ
position_from next local_uid [] = none
position_from next local_uid (m ∷ messages) =
    if eqb_ℤ m.local_uid local_uid then some next else position_from (suc next) local_uid messages

unfoldable pub sequence_number_for_local_uid : List MailboxMessage → ℤ → Option ℕ
unfolding position_from
sequence_number_for_local_uid messages local_uid = position_from 1 local_uid messages

-- `sort_by_key(|(sequence, _)| *sequence)`, which is stable.
unfoldable pub insert_target : Target → List Target → List Target
insert_target t [] = t ∷ []
insert_target t (other ∷ targets) =
    if leb t.0 other.0 then t ∷ other ∷ targets else other ∷ insert_target t targets

unfoldable pub sort_targets : List Target → List Target
unfolding insert_target
sort_targets [] = []
sort_targets (t ∷ targets) = insert_target t (sort_targets targets)

-- `into_iter().rev()`.
unfoldable pub reversed : List Target → List Target
reversed [] = []
reversed (t ∷ targets) = reversed targets ++ t ∷ []
