-- ===== src/Session/Reachable.antt =====
-- What a connection can come to by any commands: whom its session acts for, and what stays true of it.
use mathlib.Core.Option
use imapped_lightmode.Base.{◌≡◌, refl, sym, subst, ◌∙◌, inl, inr, Bool, Option, none, some, arith}
use imapped_lightmode.Base.Int.{ℤ}
use imapped_lightmode.Text.{Text}
use imapped_lightmode.Text.Case.{to_ascii_uppercase}
use imapped_lightmode.Protocol.{
  ParsedCommand, State, not_authenticated, authenticated, selected_mailbox, logout,
}
use imapped_lightmode.Auth.{AuthContext}
use imapped_lightmode.Db.{Db}
use imapped_lightmode.Session.{new_session, ImapSession, SelectedMailboxSnapshot, Services, World}
use imapped_lightmode.Session.Verb.{verb_of}
use imapped_lightmode.Session.Commands.{Others, handle_parsed_command}
use imapped_lightmode.Session.Authenticate.{Sasl, handle_authenticate_command}
use imapped_lightmode.Session.Authenticate.Coherent.{authenticate-IsCoherent}
use imapped_lightmode.Session.Connection.{connected, starttls_command, note_idle}
use imapped_lightmode.Session.Invariant.{
  snapshot_fits, counted, IsCoherent, IsCoherent-same, handle-IsCoherent,
}
use imapped_lightmode.Session.Grants.{Granted, Kept, handle-Kept, authenticate-Kept}

-- STARTTLS leaves the user, the state, the snapshot and the count.
record IsUpgraded (before after : ImapSession) : Type 0 where
  user : after.authenticated ≡ before.authenticated
  state : after.state ≡ before.state
  snapshot : after.selected_mailbox_snapshot ≡ before.selected_mailbox_snapshot
  count : after.auth_counted ≡ before.auth_counted

starttls_command-IsUpgraded :
    (acceptor plain : Bool) (tag : Text) (session : ImapSession)
    → IsUpgraded session (starttls_command acceptor plain tag session).1
unfolding starttls_command
starttls_command-IsUpgraded acceptor plain tag session = record {
  user = ground arith;
  state = ground arith;
  snapshot = ground arith;
  count = ground arith;
}

snapshot_fits-map :
    (exists_count : ℤ) (state : State) (kept : Option SelectedMailboxSnapshot)
    → snapshot_fits state (
        Option.map
          (λ (snapshot : SelectedMailboxSnapshot). record snapshot { exists_count = exists_count })
          kept)
      ≡ snapshot_fits state kept
unfolding snapshot_fits
snapshot_fits-map exists_count not_authenticated none = refl
snapshot_fits-map exists_count not_authenticated (some snapshot) = refl
snapshot_fits-map exists_count authenticated none = refl
snapshot_fits-map exists_count authenticated (some snapshot) = refl
snapshot_fits-map exists_count (selected_mailbox read_only mailbox) none = refl
snapshot_fits-map exists_count (selected_mailbox read_only mailbox) (some snapshot) = refl
snapshot_fits-map exists_count logout none = refl
snapshot_fits-map exists_count logout (some snapshot) = refl

note_idle-IsCoherent :
    (base exists_count : ℤ) (w : World)
    → IsCoherent base w
    → IsCoherent base (record w { session = note_idle exists_count w.session })
unfolding note_idle
note_idle-IsCoherent base exists_count w c = record {
  fits =
      snapshot_fits-map exists_count w.session.state w.session.selected_mailbox_snapshot ∙ c.fits;
  counts = c.counts;
}

module _ (services : Services) (others : Option Text → Others) (sasl : Sasl) where
  -- What a new connection can come to by any commands, with `base` sessions counted before it: STARTTLS
  -- and AUTHENTICATE have handlers of their own, IDLE notes what the mailbox has, a FETCH that is
  -- answered in raw bytes writes nothing of this, and between two commands others may write the
  -- database. The commands include those that `handle_parsed_command` would not get.
  pub data Reachable (base : ℤ) : World → Type 0 where
    connects :
        (connection_id : Text) (peer_addr : Option Text) (acceptor tls : Bool) (db : Db)
        → Reachable base (record {
          session = connected connection_id peer_addr acceptor tls;
          db = db;
          authenticated_sessions = base;
        })
    commands :
        (command : ParsedCommand) (literal : Option Text) {w : World}
        → Reachable base w
        → Reachable base (handle_parsed_command services others command literal w).1
    authenticates :
        (command : ParsedCommand) (response : Option Text) {w : World}
        → Reachable base w
        → Reachable base (handle_authenticate_command sasl services command response w).1
    upgrades :
        (acceptor plain : Bool) (tag : Text) {w : World}
        → Reachable base w
        → Reachable base (record w { session = (starttls_command acceptor plain tag w.session).1 })
    notices :
        (exists_count : ℤ) {w : World}
        → Reachable base w
        → Reachable base (record w { session = note_idle exists_count w.session })
    elsewhere : (db : Db) {w : World} → Reachable base w → Reachable base (record w { db = db })

  -- At any time a mailbox snapshot is kept exactly while a mailbox is selected, and the metric of the
  -- sessions that are logged in counts this one once or not at all, as its flag says.
  pub Reachable-IsCoherent : (base : ℤ) (w : World) → Reachable base w → IsCoherent base w
  unfolding new_session connected snapshot_fits counted handle_parsed_command
  Reachable-IsCoherent base w (connects connection_id peer_addr acceptor tls db) = record {
    fits = refl;
    counts = refl;
  }
  Reachable-IsCoherent base next (commands command literal {w} before) =
      handle-IsCoherent base services (others literal) (verb_of (to_ascii_uppercase command.name))
        command.tag (to_ascii_uppercase command.name) command.args w
        (Reachable-IsCoherent base w before)
  Reachable-IsCoherent base next (authenticates command response {w} before) =
      authenticate-IsCoherent base services sasl command response w
        (Reachable-IsCoherent base w before)
  Reachable-IsCoherent base next (upgrades acceptor plain tag {w} before) =
      let upgraded = starttls_command-IsUpgraded acceptor plain tag w.session in
      IsCoherent-same upgraded.state upgraded.snapshot upgraded.count refl
        (Reachable-IsCoherent base w before)
  Reachable-IsCoherent base next (notices exists_count {w} before) =
      note_idle-IsCoherent base exists_count w (Reachable-IsCoherent base w before)
  Reachable-IsCoherent base next (elsewhere db {w} before) =
      IsCoherent-same refl refl refl refl (Reachable-IsCoherent base w before)

  same_context : (a b : AuthContext) → some a ≡ some b → a ≡ b
  same_context a b h = ground arith

  Granted-after :
      (context : AuthContext) (w next : World)
      → (w.session.authenticated ≡ some context → Granted services context)
      → Kept services w next
      → next.session.authenticated ≡ some context
      → Granted services context
  Granted-after context w next before (inl same) h = before (sym same ∙ h)
  Granted-after context w next before (inr (other, holds, granted)) h =
      subst (Granted services) (same_context other context (sym holds ∙ h)) granted

  -- Whatever a connection gets, of LOGIN, AUTHENTICATE, STARTTLS and all other commands, the user that its
  -- session acts for is one that the authenticator has granted for some name and password.
  pub Reachable-Granted :
      (base : ℤ) (w : World) (context : AuthContext)
      → Reachable base w
      → w.session.authenticated ≡ some context
      → Granted services context
  unfolding new_session connected handle_parsed_command note_idle
  Reachable-Granted base w context (connects connection_id peer_addr acceptor tls db) h =
      ground arith
  Reachable-Granted base next context (commands command literal {w} before) h =
      Granted-after context w (handle_parsed_command services others command literal w).1
        (Reachable-Granted base w context before)
        (handle-Kept services (others literal) (verb_of (to_ascii_uppercase command.name))
          command.tag (to_ascii_uppercase command.name) command.args w)
        h
  Reachable-Granted base next context (authenticates command response {w} before) h =
      Granted-after context w (handle_authenticate_command sasl services command response w).1
        (Reachable-Granted base w context before)
        (authenticate-Kept services sasl command response w) h
  Reachable-Granted base next context (upgrades acceptor plain tag {w} before) h =
      Reachable-Granted base w context before
        (sym (starttls_command-IsUpgraded acceptor plain tag w.session).user ∙ h)
  Reachable-Granted base next context (notices exists_count {w} before) h =
      Reachable-Granted base w context before h
  Reachable-Granted base next context (elsewhere db {w} before) h =
      Reachable-Granted base w context before h
