-- ===== src/Session/Invariant.antt =====
-- What stays true of a session, whatever commands it gets.
use imapped_lightmode.Base.{
  zero, suc, ◌≡◌, refl, ◌∙◌, Bool-cases, inl, inr, Bool, true, false, not, ◌&&◌, Option, none, some,
  List, [], ◌∷◌, Result, ok, err, arith,
}
use imapped_lightmode.Base.Int.{ℤ, pos, negsuc, suc_ℤ}
use imapped_lightmode.Text.{Text}
use imapped_lightmode.Protocol.{State, not_authenticated, authenticated, selected_mailbox, logout}
use imapped_lightmode.Auth.{AuthContext}
use imapped_lightmode.Domain.Records.{Mailbox, SessionRecord}
use imapped_lightmode.Db.{Db, Done}
use imapped_lightmode.Db.Sessions.{create_session}
use imapped_lightmode.Db.Mailboxes.{rename_mailbox}
use imapped_lightmode.Session.{
  SelectedMailboxSnapshot, Services, World, selected_mailbox_name, account_of, is_read_only,
}
use imapped_lightmode.Session.Greeting.{
  pred_ℤ, count_login, session_record, note_record, record_session, activate_authenticated_session,
  login_result, login, logout_handler,
}
use imapped_lightmode.Session.Select.{
  first_or_inbox, mailbox_to_select, select_found, select, leave_mailbox, unselect, purge_snapshot,
  close_result, close,
}
use imapped_lightmode.Session.Mailboxes.{rename_state, renamed, rename_for, rename}
use imapped_lightmode.Session.Verb.{Verb}
use imapped_lightmode.Session.Commands.{Others, handle}

-- There is a snapshot exactly in the state of a selected mailbox.
unfoldable pub snapshot_fits : State → Option SelectedMailboxSnapshot → Bool
snapshot_fits (selected_mailbox read_only mailbox) (some snapshot) = true
snapshot_fits (selected_mailbox read_only mailbox) none = false
snapshot_fits state (some snapshot) = false
snapshot_fits state none = true

-- What the metric shows while one session is or is not counted in it.
unfoldable pub counted : ℤ → Bool → ℤ
counted base true = suc_ℤ base
counted base false = base

pub pred-suc : (n : ℤ) → pred_ℤ (suc_ℤ n) ≡ n
unfolding pred_ℤ
pred-suc (pos n) = refl
pred-suc (negsuc zero) = refl
pred-suc (negsuc (suc n)) = refl

-- The snapshot fits the state, and `base` other sessions are counted.
pub record IsCoherent (base : ℤ) (w : World) : Type 0 where
  pub fits : snapshot_fits w.session.state w.session.selected_mailbox_snapshot ≡ true
  pub counts : w.authenticated_sessions ≡ counted base w.session.auth_counted

-- A handler that writes neither the state, the snapshot, the count nor the metric.
pub IsCoherent-same :
    {base : ℤ} {w next : World}
    → next.session.state ≡ w.session.state
    → next.session.selected_mailbox_snapshot ≡ w.session.selected_mailbox_snapshot
    → next.session.auth_counted ≡ w.session.auth_counted
    → next.authenticated_sessions ≡ w.authenticated_sessions
    → IsCoherent base w
    → IsCoherent base next
IsCoherent-same state snapshot count metric c = record {
  fits = rw (state, snapshot) c.fits;
  counts = rw (metric, count) c.counts;
}

module _ (base : ℤ) where
  pub count_login-IsCoherent : (w : World) → IsCoherent base w → IsCoherent base (count_login w)
  unfolding count_login counted
  count_login-IsCoherent w c = ground (arith, c.fits, c.counts)

  note_record-IsCoherent :
      (w : World) (r : Result (SessionRecord × Db))
      → IsCoherent base w
      → IsCoherent base (note_record w r)
  unfolding note_record
  note_record-IsCoherent w (err e) c = c
  note_record-IsCoherent w (ok (row, db)) c = record { fits = c.fits; counts = c.counts }

  pub record_session-IsCoherent :
      (services : Services) (context : AuthContext) (w : World)
      → IsCoherent base w
      → IsCoherent base (record_session services context w)
  unfolding record_session
  record_session-IsCoherent services context w c =
      ground
        (arith, note_record-IsCoherent w (create_session (session_record context w.session) w.db) c)

  login_result-IsCoherent :
      (services : Services) (tag : Text) (w : World) (r : Result (Option AuthContext))
      → IsCoherent base w
      → IsCoherent base (login_result services tag w r).1
  unfolding login_result activate_authenticated_session snapshot_fits
  login_result-IsCoherent services tag w (err e) c = c
  login_result-IsCoherent services tag w (ok none) c = c
  login_result-IsCoherent services tag w (ok (some context)) c =
      let counted_login = count_login-IsCoherent w c in
      record {
        fits = refl;
        counts = (record_session-IsCoherent services context (count_login w) counted_login).counts;
      }

  login-IsCoherent :
      (services : Services) (tag : Text) (args : List Text) (w : World)
      → IsCoherent base w
      → IsCoherent base (login services tag args w).1
  unfolding login
  login-IsCoherent services tag [] w c = c
  login-IsCoherent services tag (username ∷ []) w c = c
  login-IsCoherent services tag (username ∷ password ∷ args) w c =
      login_result-IsCoherent services tag w (services.authenticate username password) c

  logout_handler-IsCoherent :
      (tag : Text) (w : World) → IsCoherent base w → IsCoherent base (logout_handler tag w).1
  unfolding logout_handler snapshot_fits counted
  logout_handler-IsCoherent tag w c = record {
    fits = refl;
    counts = elim (Bool-cases w.session.auth_counted) [
      | inl h ↦ rw h (rw (c.counts, h) (pred-suc base))
      | inr h ↦ rw h (rw (c.counts, h) refl)
    ];
  }

  select_found-IsCoherent :
      (tag : Text) (examine : Bool) (w : World) (mailbox : Option Mailbox)
      → IsCoherent base w
      → IsCoherent base (select_found tag examine w mailbox).1
  unfolding select_found snapshot_fits
  select_found-IsCoherent tag examine w none c = c
  select_found-IsCoherent tag examine w (some mailbox) c = record { fits = refl; counts = c.counts }

  unselect-IsCoherent :
      (tag : Text) (selected : Option Text) (w : World)
      → IsCoherent base w
      → IsCoherent base (unselect tag selected w).1
  unfolding unselect leave_mailbox snapshot_fits
  unselect-IsCoherent tag none w c = c
  unselect-IsCoherent tag (some mailbox) w c = record { fits = refl; counts = c.counts }

  close_result-IsCoherent :
      (tag : Text) (w : World) (r : Result Done × Db)
      → IsCoherent base w
      → IsCoherent base (close_result tag w r).1
  unfolding close_result leave_mailbox snapshot_fits
  close_result-IsCoherent tag w (err e, db) c = record { fits = c.fits; counts = c.counts }
  close_result-IsCoherent tag w (ok result, db) c = record { fits = refl; counts = c.counts }

  close-IsCoherent :
      (services : Services) (tag : Text) (selected : Option Text) (w : World)
      → IsCoherent base w
      → IsCoherent base (close services tag selected w).1
  unfolding close
  close-IsCoherent services tag none w c = c
  close-IsCoherent services tag (some mailbox) w c =
      close_result-IsCoherent tag w
        (purge_snapshot (not (is_read_only w.session.state) && services.repository)
          w.session.selected_mailbox_snapshot w.db)
        c

  rename_state-fits :
      (source destination : Text) (state : State) (snapshot : Option SelectedMailboxSnapshot)
      → snapshot_fits (rename_state source destination state) snapshot
        ≡ snapshot_fits state snapshot
  unfolding rename_state snapshot_fits
  rename_state-fits source destination not_authenticated snapshot = refl
  rename_state-fits source destination authenticated snapshot = refl
  rename_state-fits source destination (selected_mailbox read_only mailbox) none = refl
  rename_state-fits source destination (selected_mailbox read_only mailbox) (some snapshot) = refl
  rename_state-fits source destination logout snapshot = refl

  renamed-IsCoherent :
      (tag source destination : Text) (w : World) (r : Result (Option Mailbox × Db))
      → IsCoherent base w
      → IsCoherent base (renamed tag source destination w r).1
  unfolding renamed
  renamed-IsCoherent tag source destination w (err e) c = c
  renamed-IsCoherent tag source destination w (ok (none, db)) c = record {
    fits = c.fits;
    counts = c.counts;
  }
  renamed-IsCoherent tag source destination w (ok (some mailbox, db)) c = record {
    fits =
        rename_state-fits source destination w.session.state w.session.selected_mailbox_snapshot
        ∙ c.fits;
    counts = c.counts;
  }

  rename_for-IsCoherent :
      (tag : Text) (args : List Text) (w : World) (account_id : Option ℤ)
      → IsCoherent base w
      → IsCoherent base (rename_for tag args w account_id).1
  unfolding rename_for
  rename_for-IsCoherent tag args w none c = c
  rename_for-IsCoherent tag [] w (some account_id) c = c
  rename_for-IsCoherent tag (source ∷ []) w (some account_id) c = c
  rename_for-IsCoherent tag (source ∷ destination ∷ args) w (some account_id) c =
      renamed-IsCoherent tag source destination w
        (rename_mailbox account_id source destination w.db) c

  rename-IsCoherent :
      (services : Services) (tag : Text) (args : List Text) (w : World)
      → IsCoherent base w
      → IsCoherent base (rename services tag args w).1
  unfolding rename
  rename-IsCoherent services tag args w c = elim (Bool-cases services.repository) [
    | inl h ↦ rw h (rename_for-IsCoherent tag args w (account_of w.session.authenticated) c)
    | inr h ↦ rw h c
  ]

  select-IsCoherent :
      (services : Services) (tag : Text) (examine : Bool) (args : List Text) (w : World)
      → IsCoherent base w
      → IsCoherent base (select services tag examine args w).1
  unfolding select
  select-IsCoherent services tag examine args w c =
      select_found-IsCoherent tag examine w
        (mailbox_to_select services (account_of w.session.authenticated) (first_or_inbox args) w.db)
        c

  pub handle-IsCoherent :
      (services : Services) (others : Others) (verb : Verb) (tag name : Text) (args : List Text)
      (w : World)
      → IsCoherent base w
      → IsCoherent base (handle services others verb tag name args w).1
  unfolding handle
  handle-IsCoherent services others Verb.capability tag name args w c =
      IsCoherent-same refl refl refl refl c
  handle-IsCoherent services others Verb.noop tag name args w c =
      IsCoherent-same refl refl refl refl c
  handle-IsCoherent services others Verb.logout tag name args w c =
      logout_handler-IsCoherent tag w c
  handle-IsCoherent services others Verb.login tag name args w c =
      login-IsCoherent services tag args w c
  handle-IsCoherent services others Verb.starttls tag name args w c =
      IsCoherent-same refl refl refl refl c
  handle-IsCoherent services others Verb.select tag name args w c =
      select-IsCoherent services tag false args w c
  handle-IsCoherent services others Verb.examine tag name args w c =
      select-IsCoherent services tag true args w c
  handle-IsCoherent services others Verb.list tag name args w c =
      IsCoherent-same refl refl refl refl c
  handle-IsCoherent services others Verb.lsub tag name args w c =
      IsCoherent-same refl refl refl refl c
  handle-IsCoherent services others Verb.status tag name args w c =
      IsCoherent-same refl refl refl refl c
  handle-IsCoherent services others Verb.search tag name args w c =
      IsCoherent-same refl refl refl refl c
  handle-IsCoherent services others Verb.sort tag name args w c =
      IsCoherent-same refl refl refl refl c
  handle-IsCoherent services others Verb.thread tag name args w c =
      IsCoherent-same refl refl refl refl c
  handle-IsCoherent services others Verb.fetch tag name args w c =
      IsCoherent-same refl refl refl refl c
  handle-IsCoherent services others Verb.store tag name args w c =
      IsCoherent-same refl refl refl refl c
  handle-IsCoherent services others Verb.uid tag name args w c =
      IsCoherent-same refl refl refl refl c
  handle-IsCoherent services others Verb.append tag name args w c =
      IsCoherent-same refl refl refl refl c
  handle-IsCoherent services others Verb.idle tag name args w c =
      IsCoherent-same refl refl refl refl c
  handle-IsCoherent services others Verb.check tag name args w c =
      IsCoherent-same refl refl refl refl c
  handle-IsCoherent services others Verb.unselect tag name args w c =
      unselect-IsCoherent tag (selected_mailbox_name w.session.state) w c
  handle-IsCoherent services others Verb.close tag name args w c =
      close-IsCoherent services tag (selected_mailbox_name w.session.state) w c
  handle-IsCoherent services others Verb.expunge tag name args w c =
      IsCoherent-same refl refl refl refl c
  handle-IsCoherent services others Verb.create tag name args w c =
      IsCoherent-same refl refl refl refl c
  handle-IsCoherent services others Verb.delete tag name args w c =
      IsCoherent-same refl refl refl refl c
  handle-IsCoherent services others Verb.rename tag name args w c =
      rename-IsCoherent services tag args w c
  handle-IsCoherent services others Verb.subscribe tag name args w c =
      IsCoherent-same refl refl refl refl c
  handle-IsCoherent services others Verb.unsubscribe tag name args w c =
      IsCoherent-same refl refl refl refl c
  handle-IsCoherent services others Verb.copy tag name args w c =
      IsCoherent-same refl refl refl refl c
  handle-IsCoherent services others Verb.move tag name args w c =
      IsCoherent-same refl refl refl refl c
  handle-IsCoherent services others Verb.namespace tag name args w c =
      IsCoherent-same refl refl refl refl c
  handle-IsCoherent services others Verb.id tag name args w c =
      IsCoherent-same refl refl refl refl c
  handle-IsCoherent services others Verb.enable tag name args w c =
      IsCoherent-same refl refl refl refl c
  handle-IsCoherent services others Verb.condstore tag name args w c =
      IsCoherent-same refl refl refl refl c
  handle-IsCoherent services others Verb.other tag name args w c =
      IsCoherent-same refl refl refl refl c
