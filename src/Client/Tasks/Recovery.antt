-- ===== src/Client/Tasks/Recovery.antt =====
-- How a path comes back, whatever its tasks did before (crates/client/src/main.rs).
use irohsion.Prelude.{
  ℕ, ◌≤◌, ◌≡◌, inl, inr, arith, ◌&&◌, Bool, true, false, Option, none, some, List, [], ◌∷◌,
  Bool-cases,
}
use irohsion.Transport.Path.{
  LivePath, PathConnection, is_connected, mark_interface_changed, wants_reconnect, connection_id,
}
use irohsion.Transport.Path.Reconnect.{Reach, after, failed, changed, asked, connected}
use irohsion.Client.Strategy.{Floats}
use irohsion.Client.PathSend.{send_on_path}
use irohsion.Client.Tasks.{
  Attempt, connects, fails, times_out, first_retry_delay, last_retry_delay, Client, retry_later,
  after_attempt, reconnect_round, watch_interface, with_address, without_address, check_connection,
  check_liveness, return_path_closed, send_datagram, Event, attempted, watched, checked, closed,
  sent, commanded, handle, run,
}

module _ (floats : Floats) where
  -- What holds whatever happens: the path is one that its steps reach, and the delay is in its range.
  pub record IsClient (c : Client floats) : Type 0 where
    pub reach : Reach c.path
    pub at_least : first_retry_delay ≤ c.retry_delay
    pub at_most : c.retry_delay ≤ last_retry_delay

  after_attempt-Reach :
      (a : Attempt) (interface : ℕ) (c : Client floats)
      → wants_reconnect c.path ≡ true
      → Reach c.path
      → Reach (after_attempt floats a interface c).path
  unfolding after_attempt retry_later
  after_attempt-Reach (connects l) interface c w h = after h (connected c.path l w)
  after_attempt-Reach fails interface c w h = h
  after_attempt-Reach times_out interface c w h = h

  reconnect_round-Reach :
      (a : Attempt) (interface : ℕ) (c : Client floats)
      → Reach c.path
      → Reach (reconnect_round floats a interface c).path
  unfolding reconnect_round
  reconnect_round-Reach a interface c h = elim (Bool-cases (wants_reconnect c.path)) [
    | inr idle ↦ rw idle h
    | inl due ↦ rw due (after_attempt-Reach a interface _ due h)
  ]

  with_address-Reach :
      (given_up : Option ℕ) (ip interface : ℕ) (c : Client floats)
      → Reach c.path
      → Reach (with_address floats given_up ip interface c).path
  with_address-Reach none ip interface c h = h
  with_address-Reach (some endpoint) ip interface c h = after h (changed c.path ip)

  without_address-Reach :
      (given_up : Option ℕ) (p : PathConnection)
      → Reach p
      → Reach (without_address floats given_up p)
  without_address-Reach none p h = after h (asked p)
  without_address-Reach (some endpoint) p h = after h (failed p none)

  check_connection-Reach :
      (l : Option LivePath) (gone : Bool) (interface : ℕ) (c : Client floats)
      → Reach c.path
      → Reach (check_connection floats l gone interface c).path
  check_connection-Reach none gone interface c h = h
  check_connection-Reach (some l) false interface c h = h
  check_connection-Reach (some l) true interface c h = after h (failed c.path (some l.stable_id))

  send_datagram-Reach :
      (taken : Bool) (len interface : ℕ) (c : Client floats)
      → Reach c.path
      → Reach (send_datagram floats taken len interface c).path
  unfolding send_datagram send_on_path
  send_datagram-Reach taken len interface c h = elim (Bool-cases (is_connected c.path && taken)) [
    | inl e ↦ rw e h
    | inr e ↦ rw e (after h (failed c.path (connection_id c.path)))
  ]

  handle-Reach :
      (interface : ℕ) (event : Event floats) (c : Client floats)
      → Reach c.path
      → Reach (handle floats interface event c).path
  unfolding handle watch_interface check_liveness return_path_closed
  handle-Reach interface (attempted a) c h = reconnect_round-Reach a interface c h
  handle-Reach interface (watched (some ip)) c h = with_address-Reach _ ip interface c h
  handle-Reach interface (watched none) c h = without_address-Reach _ c.path h
  handle-Reach interface (checked gone) c h = check_connection-Reach c.path.live gone interface c h
  handle-Reach interface (closed id) c h = after h (failed c.path (some id))
  handle-Reach interface (sent taken len) c h = send_datagram-Reach taken len interface c h
  handle-Reach interface (commanded command) c h = h

  -- The delay of the reconnect loop stays in its range.
  abbrev pub IsDelay : Client floats → Type 0
  IsDelay c = (first_retry_delay ≤ c.retry_delay) × (c.retry_delay ≤ last_retry_delay)

  after_attempt-IsDelay :
      (a : Attempt) (interface : ℕ) (c : Client floats)
      → IsDelay c
      → IsDelay (after_attempt floats a interface c)
  unfolding after_attempt retry_later
  after_attempt-IsDelay (connects l) interface c h = (omega arith, omega arith)
  after_attempt-IsDelay fails interface c h = (omega arith, omega arith)
  after_attempt-IsDelay times_out interface c h = (omega arith, omega arith)

  handle-IsDelay :
      (interface : ℕ) (event : Event floats) (c : Client floats)
      → IsDelay c
      → IsDelay (handle floats interface event c)
  unfolding handle reconnect_round watch_interface check_liveness return_path_closed send_datagram
  handle-IsDelay interface (attempted a) c h = elim (Bool-cases (wants_reconnect c.path)) [
    | inr idle ↦ rw idle h
    | inl due ↦ rw due (after_attempt-IsDelay a interface _ h)
  ]
  handle-IsDelay interface (watched none) c h = h
  handle-IsDelay interface (watched (some ip)) c h = moved (mark_interface_changed ip c.path).1
    where
      moved : (o : Option ℕ) → IsDelay (with_address floats o ip interface c)
      moved none = h
      moved (some endpoint) = h
  handle-IsDelay interface (checked gone) c h = lost c.path.live gone
    where
      lost :
          (l : Option LivePath) (gone : Bool) → IsDelay (check_connection floats l gone interface c)
      lost none gone = h
      lost (some l) false = h
      lost (some l) true = h
  handle-IsDelay interface (closed id) c h = h
  handle-IsDelay interface (sent taken len) c h = h
  handle-IsDelay interface (commanded command) c h = h

  -- Whatever happens, in whatever order.
  pub run-IsDelay :
      (interface : ℕ) (events : List (Event floats)) (c : Client floats)
      → Reach c.path
      → IsDelay c
      → Reach (run floats interface events c).path × IsDelay (run floats interface events c)
  unfolding run
  run-IsDelay interface [] c r h = (r, h)
  run-IsDelay interface (event ∷ events) c r h =
      run-IsDelay interface events (handle floats interface event c)
        (handle-Reach interface event c r) (handle-IsDelay interface event c h)
