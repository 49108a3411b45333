-- ===== src/Transport/Path.antt =====
-- `PathConnection` of crates/transport/src/lib.rs: the state that its clones share, and how it changes.
-- A connection is its stable identifier, the interface's address and the endpoint that it uses.
pub mod Reconnect
use irohsion.Prelude.{
  ℕ, ◌≡◌, ◌==◌, if◌then◌else◌, Bool, true, false, not, ◌&&◌, Option, none, some, is_some,
}

pub record LivePath : Type 0 where
  pub stable_id : ℕ
  pub bind_ip : ℕ
  pub endpoint : ℕ

pub record PathConnection : Type 0 where
  pub live : Option LivePath
  pub reconnect_requested : Bool

unfoldable pub is_connected : PathConnection → Bool
is_connected p = is_some p.live

unfoldable pub connection_id : PathConnection → Option ℕ
connection_id p = elim p.live [ none ↦ none | some l ↦ some l.stable_id ]

unfoldable pub request_reconnect : PathConnection → PathConnection
request_reconnect p = record p { reconnect_requested = true }

abbrev pub pending : PathConnection
pending = record { live = none; reconnect_requested = true }

-- `connect_path_with_secret`, once it has connected.
abbrev pub connect_path : LivePath → PathConnection
connect_path l = record { live = some l; reconnect_requested = false }

-- The `match` of `mark_failed`.
unfoldable pub should_clear : Option ℕ → Option LivePath → Bool
should_clear (some connection_id) (some l) = l.stable_id == connection_id
should_clear none (some l) = true
should_clear connection_id none = false

abbrev endpoint_of : Option LivePath → Option ℕ
endpoint_of none = none
endpoint_of (some l) = some l.endpoint

-- The endpoint is the one that the caller closes.
abbrev take_live : PathConnection → PathConnection × Option ℕ
take_live p = (record p { live = none; reconnect_requested = true }, endpoint_of p.live)

unfoldable pub mark_failed : Option ℕ → PathConnection → PathConnection × Option ℕ
unfolding should_clear
mark_failed connection_id p =
    if not (should_clear connection_id p.live) then (p, none) else take_live p

abbrev other_address : ℕ → Option LivePath → Bool
other_address bind_ip none = false
other_address bind_ip (some l) = not (l.bind_ip == bind_ip)

unfoldable pub mark_interface_changed : ℕ → PathConnection → PathConnection × Option ℕ
mark_interface_changed bind_ip p =
    if not (other_address bind_ip p.live) then (p, none) else take_live p

-- `reconnect`, once it has connected; the endpoint is the old one, which it closes.
unfoldable pub reconnect : LivePath → PathConnection → PathConnection × Option ℕ
reconnect l p = (record { live = some l; reconnect_requested = false }, endpoint_of p.live)

-- Whether a round of the loop of `spawn_reconnect_loops` (crates/client/src/main.rs) tries to connect.
unfoldable pub wants_reconnect : PathConnection → Bool
unfolding is_connected
wants_reconnect p = not (not p.reconnect_requested) && not (is_connected p)
