-- ===== src/Session/Connection.antt =====
-- crates/imap-server/src/imap.rs: how `handle_connection` sets up a session, its branch of STARTTLS, and what
-- IDLE notes in the session.
use mathlib.Core.Option
use imapped_lightmode.Base.{Bool, true, false, not, ◌&&◌, Option, List, [], ◌∷◌, if◌then◌else◌}
use imapped_lightmode.Base.Int.{ℤ}
use imapped_lightmode.Text.{Text, lit}
use imapped_lightmode.Protocol
use imapped_lightmode.Protocol.{no}
use imapped_lightmode.Session.{ImapSession, new_session, SelectedMailboxSnapshot}
use imapped_lightmode.Session.Greeting.{is_not_authenticated}

-- The session of a connection from `peer_addr`: whether there is an acceptor for TLS, and whether the
-- transport is TLS from the start.
unfoldable pub connected : Text → Option Text → Bool → Bool → ImapSession
unfolding new_session
connected connection_id peer_addr acceptor tls = record (new_session connection_id) {
  remote_addr = peer_addr;
  starttls_available = acceptor;
  tls_active = tls;
}

-- STARTTLS, as a connection answers it; `plain` says that its transport is not TLS yet.
unfoldable pub starttls_command : Bool → Bool → Text → ImapSession → List Text × ImapSession
unfolding is_not_authenticated no Protocol.ok
starttls_command acceptor plain tag session =
    if acceptor
    then (if not session.tls_active
          && (session.starttls_available && (is_not_authenticated session.state && plain))
        then (
          Protocol.ok tag (lit "Begin TLS negotiation now") ∷ [],
          record session { tls_active = true; starttls_available = false },
        )
        else (no tag (lit "BADSTATE") (lit "STARTTLS is not available") ∷ [], session))
    else (no tag (lit "UNIMPLEMENTED") (lit "STARTTLS is not enabled") ∷ [], session)

-- `snapshot.exists_count = exists_count`, if a mailbox is selected.
unfoldable pub note_idle : ℤ → ImapSession → ImapSession
note_idle exists_count session = record session {
  selected_mailbox_snapshot =
      Option.map
        (λ (snapshot : SelectedMailboxSnapshot). record snapshot { exists_count = exists_count })
        session.selected_mailbox_snapshot;
}
