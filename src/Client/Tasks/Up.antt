-- ===== src/Client/Tasks/Up.antt =====
-- How a path comes up again after an outage, whatever its tasks did before (crates/client/src/main.rs).
use irohsion.Prelude.{
  ℕ, ◌+◌, ◌*◌, ◌≤◌, ◌≡◌, refl, ◌∙◌, if◌then◌else◌, arith, Bool, true, false, some, List, [], ◌∷◌,
  ◌++◌, length,
}
use irohsion.Prelude.Map.{lookup, member, member-discard, lookup-insert}
use irohsion.Transport.Path.{LivePath, is_connected, reconnect, wants_reconnect}
use irohsion.Transport.Path.Reconnect.{Reach, Reach-wants_reconnect}
use irohsion.Client.Strategy.{
  Floats, connected, record_interface_success, record_interface_reconnecting,
}
use irohsion.Client.Tasks.{
  connects, fails, times_out, first_retry_delay, last_retry_delay, Client, retry_later,
  after_attempt, reconnect_round, Event, attempted, handle, run,
}
use irohsion.Client.Tasks.Recovery.{IsDelay, run-IsDelay}

module _ (floats : Floats) where
  -- Attempts that fail, each by an error or by the time limit.
  abbrev pub outage : List Bool → List (Event floats)
  outage [] = []
  outage (late ∷ rest) = attempted (if late then times_out else fails) ∷ outage rest

  -- The path is up: its connection is `l`, nothing asks for another, the interface counts as
  -- connected and not as failed, and the delay starts over.
  pub record IsUp (l : LivePath) (interface : ℕ) (c : Client floats) : Type 0 where
    pub live : c.path ≡ record { live = some l; reconnect_requested = false }
    pub shown : lookup interface c.strategy.interface_status ≡ some connected
    pub allowed : member interface c.strategy.interface_failures ≡ false
    pub fresh : c.retry_delay ≡ first_retry_delay

  connects-IsUp :
      (l : LivePath) (interface : ℕ) (c : Client floats)
      → wants_reconnect c.path ≡ true
      → IsUp l interface (reconnect_round floats (connects l) interface c)
        × ((reconnect_round floats (connects l) interface c).slept ≡ c.slept)
  unfolding reconnect_round after_attempt reconnect record_interface_success
  connects-IsUp l interface c w = rw w (
    record {
      live = refl;
      shown = ground (
        arith,
        lookup-insert interface interface connected
            (record_interface_reconnecting floats interface c.strategy).interface_status,
      );
      allowed = ground (arith, member-discard interface interface c.strategy.interface_failures);
      fresh = refl;
    },
    refl,
  )

  failing_round :
      (late : Bool) (interface : ℕ) (c : Client floats)
      → wants_reconnect c.path ≡ true
      → IsDelay floats c
      → let next = reconnect_round floats (if late then times_out else fails) interface c in
        (next.path ≡ c.path) × (next.slept ≡ c.slept + c.retry_delay) × IsDelay floats next
  unfolding reconnect_round after_attempt retry_later
  failing_round true interface c w h = rw w (refl, refl, (omega arith, omega arith))
  failing_round false interface c w h = rw w (refl, refl, (omega arith, omega arith))

  outage-IsUp :
      (late : List Bool) (l : LivePath) (interface : ℕ) (c : Client floats)
      → wants_reconnect c.path ≡ true
      → IsDelay floats c
      → let up = run floats interface (outage late ++ (attempted (connects l) ∷ [])) c in
        IsUp l interface up × (up.slept ≤ c.slept + last_retry_delay * length late)
  unfolding run handle
  outage-IsUp [] l interface c w h =
      let (up, same) = connects-IsUp l interface c w in (up, omega (arith, same))
  outage-IsUp (late ∷ rest) l interface c w h =
      let next : Client floats =
        reconnect_round floats (if late then times_out else fails) interface c in
      let (path, slept, delay) = failing_round late interface c w h in
      let (up, bound) = outage-IsUp rest l interface next (rw path w) delay in
      (up, omega (arith, slept, h.1))

  -- A path that has lost its connection comes back. From any path that its steps reach, with a
  -- delay in its range, whatever its tasks do, in whatever order, and however many attempts fail
  -- then: as soon as an attempt connects, the path is up. The reconnect loop tries in each of its
  -- rounds, and sleeps for five seconds at most after each that fails.
  pub run-IsUp :
      (interface : ℕ) (events : List (Event floats)) (c : Client floats) (late : List Bool)
      (l : LivePath)
      → Reach c.path
      → IsDelay floats c
      → is_connected (run floats interface events c).path ≡ false
      → let down = run floats interface events c in
        let up = run floats interface (outage late ++ (attempted (connects l) ∷ [])) down in
        IsUp l interface up × (up.slept ≤ down.slept + last_retry_delay * length late)
  run-IsUp interface events c late l r h e =
      let (reach, delay) = run-IsDelay floats interface events c r h in
      let wants = Reach-wants_reconnect _ reach in
      outage-IsUp late l interface (run floats interface events c) (wants ∙ rw e refl) delay
