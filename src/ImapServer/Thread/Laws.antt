-- ===== src/ImapServer/Thread/Laws.antt =====
-- What THREAD keeps of the messages.
use imapped_lightmode.Base.{
  ℕ, ◌+◌, ◌≡◌, refl, ◌∙◌, ap, Bool, Bool-cases, inl, inr, List, [], ◌∷◌, ◌++◌, arith,
}
use imapped_lightmode.Text.{eq}
use imapped_lightmode.ImapServer.SearchMatch.{MailboxMessageView, as_u64}
use imapped_lightmode.ImapServer.Thread.{
  insert_by, sort_by, insert_first, ThreadNode, thread_node, Forest, no_thread, threads,
  subject_key, by_date, by_subject, Group, groups_from, groups_of, node_of, children_of, thread_of,
  forest_of, thread_ordered_subject,
}

-- The sum of a function over a list.
module _ {A : Type 0} (f : A → ℕ) where
  unfoldable pub total : List A → ℕ
  total [] = 0
  total (x ∷ xs) = f x + total xs

  pub total-append : (xs ys : List A) → total (xs ++ ys) ≡ total xs + total ys
  unfolding total
  total-append [] ys = omega arith
  total-append (x ∷ xs) ys = rw (total-append xs ys) (omega arith)

  pub total-insert_by :
      (le : A → A → Bool) (a : A) (xs : List A) → total (insert_by le a xs) ≡ f a + total xs
  unfolding total insert_by
  total-insert_by le a [] = refl
  total-insert_by le a (x ∷ xs) = elim (Bool-cases (le a x)) [
    | inl above ↦ rw above refl
    | inr below ↦ rw below (rw (total-insert_by le a xs) (omega arith))
  ]

  pub total-sort_by : (le : A → A → Bool) (xs : List A) → total (sort_by le xs) ≡ total xs
  unfolding total sort_by
  total-sort_by le [] = refl
  total-sort_by le (x ∷ xs) =
      total-insert_by le x (sort_by le xs) ∙ ap (λ n. f x + n) (total-sort_by le xs)

  total-insert_first :
      (le : A → A → Bool) (a : A) (xs : List A)
      → f (insert_first le a xs).0 + total (insert_first le a xs).1 ≡ f a + total xs
  unfolding total insert_first
  total-insert_first le a [] = refl
  total-insert_first le a (x ∷ xs) = elim (Bool-cases (le a x)) [
    | inl above ↦ rw above refl
    | inr below ↦ rw below (rw (total-insert_by le a xs) (omega arith))
  ]

-- The sum of a function over the UIDs of a forest.
unfoldable mutual
  pub total_node : (ℕ → ℕ) → ThreadNode → ℕ
  total_node f (thread_node uid subject date sort_uid children) = f uid + total_forest f children

  pub total_forest : (ℕ → ℕ) → Forest → ℕ
  total_forest f no_thread = 0
  total_forest f (threads node forest) = total_node f node + total_forest f forest

module _ (f : ℕ → ℕ) where
  abbrev of_view : MailboxMessageView → ℕ
  of_view view = f (as_u64 view.local_uid)

  abbrev of_group : Group → ℕ
  of_group group = of_view group.0 + total of_view group.1

  total-children_of :
      (views : List MailboxMessageView) → total_forest f (children_of views) ≡ total of_view views
  unfolding total children_of node_of total_forest
  total-children_of [] = refl
  total-children_of (view ∷ views) = rw (total-children_of views) (omega arith)

  total-thread_of : (group : Group) → total_node f (thread_of group) ≡ of_group group
  unfolding thread_of node_of total_node
  total-thread_of group =
      ap (λ n. of_view (insert_first by_date group.0 (sort_by by_date group.1)).0 + n)
        (total-children_of (insert_first by_date group.0 (sort_by by_date group.1)).1)
      ∙ (total-insert_first of_view by_date group.0 (sort_by by_date group.1)
          ∙ ap (λ n. of_view group.0 + n) (total-sort_by of_view by_date group.1))

  total-forest_of :
      (groups : List Group) → total_forest f (forest_of groups) ≡ total of_group groups
  unfolding total forest_of total_forest
  total-forest_of [] = refl
  total-forest_of (group ∷ groups) = rw (total-thread_of group, total-forest_of groups) refl

  total-groups_from :
      (root : MailboxMessageView) (members views : List MailboxMessageView)
      → total of_group (groups_from root members views)
        ≡ of_group (root, members) + total of_view views
  unfolding total groups_from
  total-groups_from root members [] = refl
  total-groups_from root members (view ∷ views) =
      elim (Bool-cases (eq (subject_key root) (subject_key view))) [
        | inl same ↦ rw same (
            total-groups_from root (members ++ view ∷ []) views
            ∙ rw (total-append of_view members (view ∷ [])) (omega arith))
        | inr other ↦ rw other (rw (total-groups_from view [] views) (omega arith))
      ]

  total-groups_of :
      (views : List MailboxMessageView) → total of_group (groups_of views) ≡ total of_view views
  unfolding total groups_of
  total-groups_of [] = refl
  total-groups_of (view ∷ views) = total-groups_from view [] views ∙ omega arith

  -- The forest of THREAD ORDEREDSUBJECT has the UIDs of the messages, each as often as they have it:
  -- every function has the same sum over both.
  pub total-thread_ordered_subject :
      (messages : List MailboxMessageView)
      → total_forest f (thread_ordered_subject messages)
        ≡ total (λ view. f (as_u64 view.local_uid)) messages
  unfolding thread_ordered_subject
  total-thread_ordered_subject messages =
      total-forest_of _
      ∙ (total-sort_by of_group (λ a b. by_subject a.0 b.0)
            (groups_of (sort_by by_subject messages))
          ∙ (total-groups_of (sort_by by_subject messages)
              ∙ total-sort_by of_view by_subject messages))
