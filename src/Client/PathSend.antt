-- ===== src/Client/PathSend.antt =====
-- `send_on_path` and `send_fec_packet` of crates/client/src/main.rs: a datagram on one path, and what its success or failure
-- makes of the path and of the strategy.
use irohsion.Prelude.{
  ℕ, ◌≡◌, ◌∙◌, refl, if◌then◌else◌, arith, List, [], ◌∷◌, Bool, true, false, ◌&&◌, List, Option,
  none, some,
}
use irohsion.Prelude.Map.{lookup, member, member-add, lookup-insert}
use irohsion.Transport.Path.{
  PathConnection, is_connected, connection_id, mark_failed, should_clear, wants_reconnect,
}
use irohsion.Transport.Path.Reconnect.{Reach, after, failed, Reach-wants_reconnect}
use irohsion.Client.Split.{auto, redundant}
use irohsion.Client.Strategy.{
  Floats, reconnecting, StrategyState, current, degrade_to_redundant, record_interface_send,
  record_interface_success, record_interface_failure, record_interface_reconnecting,
}
use irohsion.Client.Strategy.Groups.{auto_path_groups}
use irohsion.Client.Strategy.Groups.Cover.{auto_path_groups-Cover}

module _ (floats : Floats) where
  -- The path, the strategy, and the endpoint to close. `taken` is what iroh answers to the datagram.
  unfoldable pub send_on_path :
      Bool
      → ℕ
      → ℕ
      → PathConnection
      → StrategyState floats
      → PathConnection × StrategyState floats × Option ℕ
  unfolding is_connected connection_id mark_failed record_interface_send record_interface_success
      record_interface_failure degrade_to_redundant
  send_on_path taken interface packet_len path s =
      if is_connected path && taken
      then (
        path,
        record_interface_send floats interface packet_len
            (record_interface_success floats interface s),
        none,
      )
      else let (left, endpoint) = mark_failed (connection_id path) path in
        (left, degrade_to_redundant floats (record_interface_failure floats interface s), endpoint)

  -- A path with its name, and iroh's answer to a datagram on it.
  pub record NamedPath : Type 0 where
    pub display_name : ℕ
    pub taken : Bool
    pub path : PathConnection

  -- A parity frame goes to every connected path, with what follows as for any other datagram. The
  -- endpoints to close come last.
  unfoldable pub send_fec_packet :
      ℕ
      → List NamedPath
      → StrategyState floats
      → List NamedPath × StrategyState floats × List (Option ℕ)
  unfolding send_on_path
  send_fec_packet packet_len [] s = ([], s, [])
  send_fec_packet packet_len (p ∷ paths) s =
      let sent = send_on_path p.taken p.display_name packet_len p.path s in
      let connected = is_connected p.path in
      let later = send_fec_packet packet_len paths (if connected then sent.1 else s) in
      (
        record p { path = if connected then sent.0 else p.path } ∷ later.0,
        later.1,
        if connected then sent.2 ∷ later.2 else later.2,
      )

  mark_failed-connection_id :
      (path : PathConnection) → is_connected (mark_failed (connection_id path) path).0 ≡ false
  unfolding mark_failed connection_id is_connected should_clear
  mark_failed-connection_id path = ground arith

  -- What a failure makes of the strategy.
  failure_degrades :
      (interface : ℕ) (s : StrategyState floats)
      → let s' = degrade_to_redundant floats (record_interface_failure floats interface s) in
        (member interface s'.interface_failures ≡ true)
        × (lookup interface s'.interface_status ≡ some reconnecting)
        × (s.mode ≡ auto → current floats s' ≡ redundant)
  unfolding degrade_to_redundant record_interface_failure record_interface_reconnecting current
  failure_degrades interface s = (
    ground (arith, member-add interface interface s.interface_failures),
    ground (arith, lookup-insert interface interface reconnecting s.interface_status),
    λ m. ground arith,
  )

  -- A send that fails leaves nothing behind: the path has no connection and asks for one, its
  -- interface counts as failed and carries no split traffic, and in the automatic mode everything is
  -- sent redundantly from then on.
  pub send_on_path-Failed :
      (taken : Bool) (interface packet_len : ℕ) (path : PathConnection) (s : StrategyState floats)
      (now : ℕ) (interfaces : List ℕ)
      → Reach path
      → (is_connected path && taken) ≡ false
      → let (left, s', endpoint) = send_on_path taken interface packet_len path s in
        (is_connected left ≡ false)
        × (wants_reconnect left ≡ true)
        × (lookup interface s'.interface_status ≡ some reconnecting)
        × (member interface (auto_path_groups floats now interfaces s').0 ≡ false)
        × (s.mode ≡ auto → current floats s' ≡ redundant)
  unfolding send_on_path
  send_on_path-Failed taken interface packet_len path s now interfaces r h =
      let s' : StrategyState floats =
        degrade_to_redundant floats (record_interface_failure floats interface s) in
      let gone = mark_failed-connection_id path in
      let wants = Reach-wants_reconnect _ (after r (failed path (connection_id path))) in
      let (failed_now, shown, moved) = failure_degrades interface s in
      let (cover, sound) = auto_path_groups-Cover floats now s' interface interfaces in
      rw h (
        gone,
        wants ∙ rw gone refl,
        shown,
        unsplit (member interface (auto_path_groups floats now interfaces s').0) sound failed_now,
        moved,
      )
    where
      unsplit :
          (b : Bool) {A : Type 0} {c : Bool} → (b ≡ true → A × (c ≡ false)) → c ≡ true → b ≡ false
      unsplit false f k = refl
      unsplit true f k = absurd (let (x, y) = f refl in ground (arith, y, k))
