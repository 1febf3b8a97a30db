-- ===== src/Coordination/Tests.antt =====
-- The exclusion at a concrete run: a worker gets a key, and the next one does not.
use imapped_lightmode.Base.{◌≤◌, refl, [], ◌∷◌}
use imapped_lightmode.Text.{Text, eq}
use imapped_lightmode.Coordination.{World, acquire, add_guard, Reachable, fresh, after, acquires}
use imapped_lightmode.Coordination.Exclusion.{holders, Reachable-holders}

abbrev account : Text
account = b'1' ∷ []

abbrev token : Text
token = b't' ∷ []

abbrev busy : World
busy = record {
  locks = account ∷ [];
  guards = record { key = account; token = token } ∷ [];
  releases = [];
}

busy-Reachable : Reachable busy
unfolding acquire add_guard eq
busy-Reachable =
    after (after fresh (acquires account token {next = busy} refl)) (acquires account token refl)

Reachable-holders_example : holders account busy.guards ≤ 1
Reachable-holders_example = Reachable-holders busy-Reachable account
