-- ===== src/Db/Messages/Order.antt =====
-- What deleting a message does to the list of a mailbox: the order by UID does not matter to it.
use imapped_lightmode.Base.{
  ◌≡◌, refl, Bool, true, false, not, List, [], ◌∷◌, if◌then◌else◌, retain, All, Bool-cases, inl,
  inr, arith,
}
use imapped_lightmode.Base.Int.{ℤ, leb_ℤ, eqb_ℤ}
use imapped_lightmode.Domain.Records.{MailboxMessage}
use imapped_lightmode.Db.Messages.{is_in, is_at, insert_message, order_messages}

abbrev pub AllGe : ℤ → List MailboxMessage → Type 0
AllGe n = All (λ m. leb_ℤ n m.local_uid ≡ true)

-- In the order of the UIDs.
abbrev pub IsOrdered : List MailboxMessage → Type 0
IsOrdered [] = Unit
IsOrdered (m ∷ ms) = AllGe m.local_uid ms × IsOrdered ms

leb_ℤ_trans : (a b c : ℤ) → leb_ℤ a b ≡ true → leb_ℤ b c ≡ true → leb_ℤ a c ≡ true
leb_ℤ_trans a b c h g = ground arith

leb_ℤ_of_not : (a b : ℤ) → leb_ℤ a b ≡ false → leb_ℤ b a ≡ true
leb_ℤ_of_not a b h = ground arith

AllGe-mono : (a b : ℤ) (ms : List MailboxMessage) → leb_ℤ a b ≡ true → AllGe b ms → AllGe a ms
AllGe-mono a b [] h g = tt
AllGe-mono a b (m ∷ ms) h g = (leb_ℤ_trans a b m.local_uid h g.0, AllGe-mono a b ms h g.1)

insert_message-AllGe :
    (n : ℤ) (m : MailboxMessage) (ms : List MailboxMessage)
    → leb_ℤ n m.local_uid ≡ true
    → AllGe n ms
    → AllGe n (insert_message m ms)
unfolding insert_message
insert_message-AllGe n m [] h g = (h, tt)
insert_message-AllGe n m (o ∷ ms) h g = ground (arith, insert_message-AllGe n m ms h g.1)

insert_message-IsOrdered :
    (m : MailboxMessage) (ms : List MailboxMessage) → IsOrdered ms → IsOrdered (insert_message m ms)
unfolding insert_message
insert_message-IsOrdered m [] s = (tt, tt)
insert_message-IsOrdered m (o ∷ ms) s = elim (Bool-cases (leb_ℤ m.local_uid o.local_uid)) [
  | inl h ↦ rw h ((h, AllGe-mono m.local_uid o.local_uid ms h s.0), s)
  | inr h ↦ rw h (
    insert_message-AllGe o.local_uid m ms (leb_ℤ_of_not m.local_uid o.local_uid h) s.0,
    insert_message-IsOrdered m ms s.1,
  )
]

pub order_messages-IsOrdered : (ms : List MailboxMessage) → IsOrdered (order_messages ms)
unfolding order_messages
order_messages-IsOrdered [] = tt
order_messages-IsOrdered (m ∷ ms) =
    insert_message-IsOrdered m (order_messages ms) (order_messages-IsOrdered ms)

retain-AllGe :
    (p : MailboxMessage → Bool) (n : ℤ) (ms : List MailboxMessage)
    → AllGe n ms
    → AllGe n (retain p ms)
retain-AllGe p n [] g = tt
retain-AllGe p n (m ∷ ms) g = ground (arith, retain-AllGe p n ms g.1)

-- A message that none is before goes to the front.
insert_message_front :
    (m : MailboxMessage) (ms : List MailboxMessage)
    → AllGe m.local_uid ms
    → insert_message m ms ≡ m ∷ ms
unfolding insert_message
insert_message_front m [] g = refl
insert_message_front m (o ∷ ms) g = ground (arith, g.0)

retain-insert_message :
    (p : MailboxMessage → Bool) (m : MailboxMessage) (ms : List MailboxMessage)
    → IsOrdered ms
    → retain p (insert_message m ms) ≡ (if p m then insert_message m (retain p ms) else retain p ms)
unfolding insert_message
retain-insert_message p m [] s = refl
retain-insert_message p m (o ∷ ms) s = elim (Bool-cases (leb_ℤ m.local_uid o.local_uid)) [
  | inl h ↦
      let front =
        insert_message_front m (retain p (o ∷ ms))
          (retain-AllGe p m.local_uid (o ∷ ms) (h, AllGe-mono m.local_uid o.local_uid ms h s.0)) in
      ground (arith, front)
  | inr h ↦ ground (arith, retain-insert_message p m ms s.1)
]

-- Choosing rows and putting them in order are one in either order.
pub retain-order_messages :
    (p : MailboxMessage → Bool) (ms : List MailboxMessage)
    → retain p (order_messages ms) ≡ order_messages (retain p ms)
unfolding order_messages
retain-order_messages p [] = refl
retain-order_messages p (m ∷ ms) = ground (
  arith,
  retain-insert_message p m (order_messages ms) (order_messages-IsOrdered ms),
  retain-order_messages p ms,
)

abbrev pub has_uid : ℤ → MailboxMessage → Bool
has_uid n m = eqb_ℤ m.local_uid n

-- The list without the message of a UID.
abbrev pub without : ℤ → List MailboxMessage → List MailboxMessage
without n = retain (λ m. not (has_uid n m))

pub retain-is_at :
    (mailbox_id n : ℤ) (ms : List MailboxMessage)
    → retain (is_in mailbox_id) (retain (λ m. not (is_at mailbox_id n m)) ms)
      ≡ without n (retain (is_in mailbox_id) ms)
unfolding is_at
retain-is_at mailbox_id n [] = refl
retain-is_at mailbox_id n (m ∷ ms) = ground (arith, retain-is_at mailbox_id n ms)
