-- ===== src/Client/Strategy/Fec.antt =====
-- `adaptive_fec_group_packets` of crates/client/src/path_strategy.rs, and what the parity encoder of
-- crates/client/src/main.rs makes of it.
use irohsion.Prelude.{
  ℕ, ◌-◌, ◌≤◌, ◌≡◌, if◌then◌else◌, leb, arith, Bool, true, false, ◌||◌, List, [], ◌∷◌, Option, none,
  some, max, ok,
}
use irohsion.Prelude.Map.{values}
use irohsion.Protocol.{max_fec_group_packets}
use irohsion.Client.Fec
use irohsion.Client.Fec.{FecEncoder, fixed, disabled, adaptive_group}
use irohsion.Client.Fec.Recovery.{HasGroups, IsEncoder}
use irohsion.Client.Strategy.{Floats, InterfaceHealth, StrategyState, is_fresh}
use irohsion.Client.Strategy.Groups.{keep, best_seq, average_mbps}

abbrev good_group_packets : ℕ
good_group_packets = 6

abbrev degraded_group_packets : ℕ
degraded_group_packets = 4

abbrev bad_group_packets : ℕ
bad_group_packets = 3

new_cases :
    (no_fec : Bool) (group_size : ℕ) (mtu : Option ℕ) (e : FecEncoder)
    → Fec.new no_fec group_size mtu ≡ ok e
    → (e.packets ≡ []) × ((n : ℕ) → e.mode ≡ fixed n → n ≤ max_fec_group_packets)
unfolding Fec.new
new_cases true group_size mtu e made = ground arith
new_cases false group_size mtu e made = (ground arith, λ n h. ground arith)

module _ (floats : Floats) where
  -- The largest distance to the best sequence.
  unfoldable pub worst_lag_from : ℕ → List (InterfaceHealth floats) → ℕ
  worst_lag_from best [] = 0
  worst_lag_from best (h ∷ hs) = elim h.last_seq [
    | none ↦ worst_lag_from best hs
    | some last ↦ max (best - last) (worst_lag_from best hs)
  ]

  unfoldable pub worst_lag : List (InterfaceHealth floats) → ℕ
  unfolding worst_lag_from best_seq
  worst_lag hs = elim (best_seq floats hs) [ none ↦ 0 | some best ↦ worst_lag_from best hs ]

  -- `fold(f32::INFINITY, f32::min)`
  unfoldable pub lowest_mbps : floats.wire.F → List (InterfaceHealth floats) → floats.wire.F
  lowest_mbps least [] = least
  lowest_mbps least (h ∷ hs) = lowest_mbps (floats.min32 least h.server_mbps) hs

  unfoldable pub adaptive_fec_group_packets_for_health : List (InterfaceHealth floats) → ℕ
  unfolding worst_lag lowest_mbps
  adaptive_fec_group_packets_for_health [] = degraded_group_packets
  adaptive_fec_group_packets_for_health (h ∷ hs) =
      let states = h ∷ hs in
      let lag = worst_lag states in
      let average = average_mbps floats states in
      let least = lowest_mbps floats.infinity32 states in
      let bad =
        floats.max32 (floats.mul32 average (floats.ratio32 15 100)) (floats.ratio32 5 100) in
      let degraded =
        floats.max32 (floats.mul32 average (floats.ratio32 40 100)) (floats.ratio32 10 100) in
      if leb 120 lag || floats.less_eq32 least bad
      then bad_group_packets
      else if leb 40 lag || floats.less_eq32 least degraded
      then degraded_group_packets
      else good_group_packets

  unfoldable pub adaptive_fec_group_packets : ℕ → StrategyState floats → ℕ
  unfolding adaptive_fec_group_packets_for_health keep
  adaptive_fec_group_packets now s =
      adaptive_fec_group_packets_for_health
        (keep (is_fresh floats now) (values s.health_by_interface))

  for_health-le :
      (hs : List (InterfaceHealth floats))
      → (3 ≤ adaptive_fec_group_packets_for_health hs)
        × (adaptive_fec_group_packets_for_health hs ≤ 6)
  unfolding adaptive_fec_group_packets_for_health
  for_health-le [] = (omega arith, omega arith)
  for_health-le (h ∷ hs) =
      three_ways
        (leb 120 (worst_lag (h ∷ hs))
          || floats.less_eq32 (lowest_mbps floats.infinity32 (h ∷ hs)) (
              floats.max32 (floats.mul32 (average_mbps floats (h ∷ hs)) (floats.ratio32 15 100))
                (floats.ratio32 5 100)))
        _
    where
      three_ways :
          (bad degraded : Bool)
          → let n : ℕ =
              if bad
              then bad_group_packets
              else if degraded
              then degraded_group_packets
              else good_group_packets in
            (3 ≤ n) × (n ≤ 6)
      three_ways true degraded = (omega arith, omega arith)
      three_ways false true = (omega arith, omega arith)
      three_ways false false = (omega arith, omega arith)

  -- An encoder that the command line allows has groups that fit a frame, whatever the state of the
  -- strategy answers: it starts without packets, the adaptive groups have three to six, and a fixed
  -- group has at most 32.
  pub new-HasGroups :
      (no_fec : Bool) (group_size : ℕ) (mtu : Option ℕ) (now : ℕ) (s : StrategyState floats)
      (e : FecEncoder)
      → Fec.new no_fec group_size mtu ≡ ok e
      → IsEncoder e
        × HasGroups (adaptive_fec_group_packets now s) e
        × (3 ≤ adaptive_fec_group_packets now s)
        × (adaptive_fec_group_packets now s ≤ 6)
  unfolding adaptive_fec_group_packets
  new-HasGroups no_fec group_size mtu now s e made =
      let (empty, fixed_fits) = new_cases no_fec group_size mtu e made in
      let (low, high) = for_health-le (keep (is_fresh floats now) (values s.health_by_interface)) in
      ((0, rw empty tt, rw empty (omega arith)), (omega arith, fixed_fits), low, high)
