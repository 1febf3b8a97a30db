-- ===== src/ImapServer/Thread.antt =====
-- crates/imap-server/src/imap.rs: THREAD by ordered subject, from the normalized subject of a message to
-- the reply's text.
mod Tests
pub mod Laws
pub mod Subject
use imapped_lightmode.Base.{
  ℕ, zero, suc, ◌+◌, Bool, true, false, ◌&&◌, ◌||◌, Option, none, some, List, [], ◌∷◌, ◌++◌, ◌==◌,
  ltb, leb, map, drop, length, is_empty, if◌then◌else◌,
}
use imapped_lightmode.Base.Int.{ℤ, leb_ℤ}
use imapped_lightmode.Text.{Text, lit, eq, join}
use imapped_lightmode.Text.Case.{to_ascii_lowercase}
use imapped_lightmode.Text.Trim.{trim, trim_start}
use imapped_lightmode.Text.Find.{starts_with}
use imapped_lightmode.Text.Decimal.{show}
use imapped_lightmode.ImapServer.SearchMatch.{MailboxMessageView, or_else, as_u64}

-- `slice::sort_by`, which is stable: an element goes before the first one that it is not above.
module _ {A : Type 0} (le : A → A → Bool) where
  unfoldable pub insert_by : A → List A → List A
  insert_by a [] = a ∷ []
  insert_by a (x ∷ xs) = if le a x then a ∷ x ∷ xs else x ∷ insert_by a xs

  unfoldable pub sort_by : List A → List A
  unfolding insert_by
  sort_by [] = []
  sort_by (x ∷ xs) = insert_by x (sort_by xs)

  -- The sorted list of one element and a sorted list, as its first element and the others.
  unfoldable pub insert_first : A → List A → A × List A
  unfolding insert_by
  insert_first a [] = (a, [])
  insert_first a (x ∷ xs) = if le a x then (a, x ∷ xs) else (x, insert_by a xs)

-- The order of `str`: UTF-8 keeps the order of the code points.
unfoldable pub ltb_text : Text → Text → Bool
ltb_text s [] = false
ltb_text [] (d ∷ t) = true
ltb_text (c ∷ s) (d ∷ t) = ltb c d || c == d && ltb_text s t

-- `lower` holds `value` in lower case; a letter keeps its width, so the offset is the prefix's length.
unfoldable pub strip_one : Text → Text → Option Text → Option Text
strip_one prefix value otherwise =
    if starts_with prefix (to_ascii_lowercase value)
    then some (trim_start (drop (length prefix) value))
    else otherwise

unfoldable pub strip_thread_subject_prefix : Text → Option Text
unfolding strip_one
strip_thread_subject_prefix value =
    strip_one (lit "re:") value (strip_one (lit "fwd:") value (strip_one (lit "fw:") value none))

-- One round: the value is left as it is, or `loop_on` goes on with what is behind the prefix.
unfoldable pub strip_round : Text → (Text → Text) → Option Text → Text
strip_round value loop_on none = value
strip_round value loop_on (some candidate) =
    let rest = loop_on (trim_start candidate) in if eq candidate value then value else rest

-- The loop of `normalize_thread_subject`, on fuel.
unfoldable pub strip_loop : ℕ → Text → Text
unfolding strip_thread_subject_prefix strip_round
strip_loop zero value = value
strip_loop (suc fuel) value =
    strip_round value (λ rest. strip_loop fuel rest) (strip_thread_subject_prefix value)

unfoldable pub or_empty : Option Text → Text
or_empty none = []
or_empty (some s) = s

unfoldable pub normalize_thread_subject : Option Text → Text
unfolding strip_loop or_empty
normalize_thread_subject subject =
    to_ascii_lowercase (strip_loop (length (trim (or_empty subject))) (trim (or_empty subject)))

unfoldable pub sort_date_key : MailboxMessageView → ℕ
unfolding or_else
sort_date_key view = or_else view.sent_date (or_else view.internal_date view.created_at)

mutual
  pub data ThreadNode : Type 0 where
    thread_node :
        (uid : ℕ) (sort_subject : Text) (sort_date sort_uid : ℕ) (children : Forest) → ThreadNode

  pub data Forest : Type 0 where
    no_thread : Forest
    threads : ThreadNode → Forest → Forest

unfoldable pub subject_key : MailboxMessageView → Text
unfolding normalize_thread_subject
subject_key view = normalize_thread_subject view.subject

-- By the date, then by the UID.
unfoldable pub by_date : MailboxMessageView → MailboxMessageView → Bool
unfolding sort_date_key
by_date left right =
    ltb (sort_date_key left) (sort_date_key right)
    || sort_date_key left == sort_date_key right && leb_ℤ left.local_uid right.local_uid

unfoldable pub by_subject : MailboxMessageView → MailboxMessageView → Bool
unfolding subject_key ltb_text
by_subject left right =
    ltb_text (subject_key left) (subject_key right)
    || eq (subject_key left) (subject_key right) && by_date left right

-- A group is its first message and the others.
abbrev pub Group : Type 0
Group = MailboxMessageView × List MailboxMessageView

-- The loop that fills `groups`: `root` and `members` are the last group.
unfoldable pub groups_from :
    MailboxMessageView → List MailboxMessageView → List MailboxMessageView → List Group
unfolding subject_key
groups_from root members [] = (root, members) ∷ []
groups_from root members (view ∷ views) =
    let joined = groups_from root (members ++ view ∷ []) views in
    let closed = (root, members) ∷ groups_from view [] views in
    if eq (subject_key root) (subject_key view) then joined else closed

unfoldable pub groups_of : List MailboxMessageView → List Group
unfolding groups_from
groups_of [] = []
groups_of (view ∷ views) = groups_from view [] views

unfoldable pub node_of : MailboxMessageView → Forest → ThreadNode
node_of view children =
    thread_node (as_u64 view.local_uid) (subject_key view) (sort_date_key view)
      (as_u64 view.local_uid) children

unfoldable pub children_of : List MailboxMessageView → Forest
unfolding node_of
children_of [] = no_thread
children_of (view ∷ views) = threads (node_of view no_thread) (children_of views)

-- A group is never empty, so that `iter.next().unwrap()` has a value.
unfoldable pub thread_of : Group → ThreadNode
unfolding node_of children_of insert_first sort_by
thread_of group =
    let sorted = insert_first by_date group.0 (sort_by by_date group.1) in
    node_of sorted.0 (children_of sorted.1)

unfoldable pub forest_of : List Group → Forest
unfolding thread_of
forest_of [] = no_thread
forest_of (group ∷ groups) = threads (thread_of group) (forest_of groups)

unfoldable pub thread_ordered_subject : List MailboxMessageView → Forest
unfolding forest_of groups_of by_subject sort_by
thread_ordered_subject messages =
    forest_of
      (sort_by (λ (a b : Group). by_subject a.0 b.0) (groups_of (sort_by by_subject messages)))

unfoldable pub position_from_1 : ℕ → List MailboxMessageView → ℕ → Option ℕ
position_from_1 index [] uid = none
position_from_1 index (view ∷ views) uid =
    if as_u64 view.local_uid == uid then some index else position_from_1 (index + 1) views uid

unfoldable pub sequence_number_for_view : List MailboxMessageView → ℕ → Option ℕ
unfolding position_from_1
sequence_number_for_view views uid = position_from_1 1 views uid

unfoldable pub thread_label : ℕ → Bool → List MailboxMessageView → Text
unfolding sequence_number_for_view or_else
thread_label uid true views = show uid
thread_label uid false views = show (or_else (sequence_number_for_view views uid) uid)

unfoldable mutual
  unfolding thread_label

  pub render_thread_node : Bool → List MailboxMessageView → ThreadNode → Text
  render_thread_node uid_results views (thread_node uid subject date sort_uid no_thread) =
      thread_label uid uid_results views
  render_thread_node uid_results views
        (thread_node uid subject date sort_uid (threads child children)) =
      lit "("
      ++ (thread_label uid uid_results views
          ++ (lit " "
              ++ (join (lit " ") (
                    render_thread_node uid_results views child
                    ∷ render_thread_forest uid_results views children)
                  ++ lit ")")))

  pub render_thread_forest : Bool → List MailboxMessageView → Forest → List Text
  render_thread_forest uid_results views no_thread = []
  render_thread_forest uid_results views (threads node forest) =
      render_thread_node uid_results views node ∷ render_thread_forest uid_results views forest
