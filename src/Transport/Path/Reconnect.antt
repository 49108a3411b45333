-- ===== src/Transport/Path/Reconnect.antt =====
-- The life of a path (crates/transport/src/lib.rs): the steps that the client's tasks take on it, in
-- any order (crates/client/src/main.rs), and what holds along the way.
use irohsion.Prelude.{ℕ, ◌≡◌, ◌≢◌, refl, arith, true, false, not, Option, none, some}
use irohsion.Transport.Path.{
  LivePath, PathConnection, is_connected, connection_id, request_reconnect, pending, connect_path,
  mark_failed, mark_interface_changed, reconnect, wants_reconnect,
}

-- A send, a read or a liveness check that failed on a connection; the watcher of the interface, which
-- finds another address or none; and the loop that connects again.
pub data Step : PathConnection → PathConnection → Type 0 where
  failed : (p : PathConnection) (id : Option ℕ) → Step p (mark_failed id p).0
  changed : (p : PathConnection) (ip : ℕ) → Step p (mark_interface_changed ip p).0
  asked : (p : PathConnection) → Step p (request_reconnect p)
  connected :
      (p : PathConnection) (l : LivePath) → wants_reconnect p ≡ true → Step p (reconnect l p).0

pub data Reach : PathConnection → Type 0 where
  at_first : Reach pending
  from_connection : (l : LivePath) → Reach (connect_path l)
  after : {p q : PathConnection} → Reach p → Step p q → Reach q

-- A path without a connection asks for one.
abbrev IsAsking : PathConnection → Type 0
IsAsking p = is_connected p ≡ false → p.reconnect_requested ≡ true

Step-IsAsking : {p q : PathConnection} → Step p q → IsAsking p → IsAsking q
unfolding mark_failed mark_interface_changed request_reconnect reconnect is_connected
Step-IsAsking (failed p id) h = ground (arith, h)
Step-IsAsking (changed p ip) h = ground (arith, h)
Step-IsAsking (asked p) h = λ _. refl
Step-IsAsking (connected p l w) h = λ e. cc

Reach-IsAsking : {p : PathConnection} → Reach p → IsAsking p
unfolding is_connected
Reach-IsAsking at_first = λ _. refl
Reach-IsAsking (from_connection l) = λ e. cc
Reach-IsAsking (after r s) = Step-IsAsking s (Reach-IsAsking r)

-- No path is stranded: whatever the tasks did, and in whatever order, the reconnect loop tries to
-- connect exactly when the path has no connection.
pub Reach-wants_reconnect :
    (p : PathConnection) → Reach p → wants_reconnect p ≡ not (is_connected p)
unfolding wants_reconnect
Reach-wants_reconnect p r = ground (arith, Reach-IsAsking r)

-- A failure that is reported for a connection which is not the current one changes nothing; one for
-- the current connection drops it, hands its endpoint over to be closed, and asks for another.
pub mark_failed-current :
    (p : PathConnection) (l : LivePath) (id : ℕ)
    → p.live ≡ some l
    → (l.stable_id ≢ id → mark_failed (some id) p ≡ (p, none))
      × (l.stable_id ≡ id
          → mark_failed (some id) p
            ≡ (record { live = none; reconnect_requested = true }, some l.endpoint))
unfolding mark_failed
mark_failed-current p l id e = (λ n. ground arith, λ h. ground arith)

-- A sender that reads no connection, and whose report comes after the path has connected again, drops
-- the new connection: `mark_failed` of no identifier clears whatever is there.
pub mark_failed-after_reconnect :
    (p : PathConnection) (l : LivePath)
    → is_connected p ≡ false
    → (connection_id p ≡ none)
      × (mark_failed (connection_id p) (reconnect l p).0
          ≡ (record { live = none; reconnect_requested = true }, some l.endpoint))
unfolding mark_failed reconnect connection_id is_connected
mark_failed-after_reconnect p l h = ground arith
