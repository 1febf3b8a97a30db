-- ===== src/ImapServer/Thread/Tests.antt =====
-- THREAD at a concrete mailbox.
use imapped_lightmode.Base.{ℕ, ◌≡◌, refl, true, false, none, some, List, [], ◌∷◌}
use imapped_lightmode.Base.Int.{ℤ, pos}
use imapped_lightmode.Text.{Text, lit, eq, is_whitespace, join}
use imapped_lightmode.Text.Case.{to_ascii_lowercase}
use imapped_lightmode.Text.Trim.{trim}
use imapped_lightmode.Text.Find.{starts_with}
use imapped_lightmode.Text.Decimal.{show}
use imapped_lightmode.ImapServer.SearchMatch.{MailboxMessageView, as_u64}
use imapped_lightmode.ImapServer.Thread.{
  thread_ordered_subject, render_thread_forest, normalize_thread_subject, by_date,
}
use imapped_lightmode.ImapServer.Thread.Laws.{total, total_forest, total-thread_ordered_subject}

abbrev message : ℤ → Text → ℕ → MailboxMessageView
message uid title time = record {
  local_uid = uid;
  flags = [];
  keywords = [];
  size_octets = pos 100;
  subject = some title;
  internal_date = none;
  sent_date = none;
  created_at = time;
  envelope = λ field. none;
}

abbrev messages : List MailboxMessageView
messages =
    message (pos 7) (lit "Re: Plan") 30
    ∷ message (pos 8) (lit "Agenda") 20
    ∷ message (pos 9) (lit "plan") 10
    ∷ []

-- A prefix may be repeated, and the case of the letters is not kept.
normalize_thread_subject_reply :
    normalize_thread_subject (some (lit " RE: fwd:  Plan")) ≡ lit "plan"
unfolding normalize_thread_subject lit to_ascii_lowercase trim is_whitespace starts_with eq
normalize_thread_subject_reply = refl

by_uid :
    render_thread_forest true messages (thread_ordered_subject messages)
    ≡ lit "8" ∷ lit "(9 7)" ∷ []
unfolding render_thread_forest thread_ordered_subject by_date to_ascii_lowercase trim lit
    is_whitespace starts_with eq show as_u64 join
by_uid = refl

by_sequence_number :
    render_thread_forest false messages (thread_ordered_subject messages)
    ≡ lit "2" ∷ lit "(3 1)" ∷ []
unfolding render_thread_forest thread_ordered_subject by_date to_ascii_lowercase trim lit
    is_whitespace starts_with eq show as_u64 join
by_sequence_number = refl

total-thread_ordered_subject_example :
    total_forest (λ uid. uid) (thread_ordered_subject messages)
    ≡ total (λ (view : MailboxMessageView). as_u64 view.local_uid) messages
total-thread_ordered_subject_example = total-thread_ordered_subject (λ uid. uid) messages
