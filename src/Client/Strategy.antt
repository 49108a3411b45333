-- ===== src/Client/Strategy.antt =====
-- `StrategyState` of crates/client/src/path_strategy.rs: the choice of the strategy and what it rests
-- on. An interface is the number of its name, in the order of the names; a time is in milliseconds.
-- What is only shown (`sync_ui` and the calls of `ctx`) is left out.
pub mod Groups
pub mod Weights
pub mod Fec
pub mod Tick
pub mod Backlog
pub mod Start
use irohsion.Prelude.{
  ℕ, zero, suc, ◌+◌, ◌*◌, ◌-◌, ◌%◌, ◌^◌, ◌≤◌, ◌<◌, ◌≡◌, ◌==◌, if◌then◌else◌, ltb, leb, Bool, true,
  false, not, ◌&&◌, ◌||◌, List, [], ◌∷◌, ◌++◌, map, Option, none, some, length, min, max,
}
use irohsion.Prelude.Bytes.{bytes_eq}
use irohsion.Prelude.Map.{lookup, insert, remove, member, add, discard}
use irohsion.Transport.Report.{Float32, HealthReport, EndpointHealth}
use irohsion.Client.Split.{
  StrategyMode, auto, redundant_mode, round_robin_mode, split_mode, PathStrategy, redundant,
  round_robin, split, Float,
}

-- `f32` and `f64`, with the operations that the code uses; `ratio a b` is the literal for a / b.
pub record Floats : Type 1 where
  pub wire : Float32
  pub F : Type 0
  pub zero32 : wire.F
  pub infinity32 : wire.F
  pub ratio32 : ℕ → ℕ → wire.F
  pub add32 : wire.F → wire.F → wire.F
  pub mul32 : wire.F → wire.F → wire.F
  pub div_count32 : wire.F → ℕ → wire.F
  pub max32 : wire.F → wire.F → wire.F
  pub min32 : wire.F → wire.F → wire.F
  pub less32 : wire.F → wire.F → Bool
  pub less_eq32 : wire.F → wire.F → Bool
  pub widen : wire.F → F
  pub epsilon : F
  pub ratio : ℕ → ℕ → F
  pub of_count : ℕ → F
  pub add : F → F → F
  pub sub : F → F → F
  pub mul : F → F → F
  pub div : F → F → F
  pub max_float : F → F → F
  pub clamp_float : F → F → F → F
  pub less_eq : F → F → Bool
  pub scaled_round : ℕ → F → ℕ

pub data InterfaceLinkStatus : Type 0 where
  connected : InterfaceLinkStatus
  reconnecting : InterfaceLinkStatus
  dead : InterfaceLinkStatus

abbrev u64_max : ℕ
u64_max = 2 ^ 64 - 1

-- `a.saturating_add(b)` of a `u64`.
abbrev pub saturating_add : ℕ → ℕ → ℕ
saturating_add a b = min (a + b) u64_max

-- `fetch_add` of an `AtomicU64`.
abbrev pub wrapping_add : ℕ → ℕ → ℕ
wrapping_add a b = (a + b) % 2 ^ 64

module _ (floats : Floats) where
  -- What the ranges of `Client.Split` need of `f64`.
  abbrev pub split_float : Float
  split_float = record {
    F = floats.F;
    zero_float = floats.ratio 0 1;
    add_float = floats.add;
    scaled_round = floats.scaled_round;
  }

  pub record InterfaceHealth : Type 0 where
    pub last_seq : Option ℕ
    pub max_seq : Option ℕ
    pub server_mbps : floats.wire.F
    pub last_unix_ms : ℕ

  pub record InterfaceTraffic : Type 0 where
    pub tx_packets : ℕ
    pub tx_bytes : ℕ
    pub last_tx_bytes : ℕ
    pub last_sample : ℕ
    pub tx_mbps : floats.F

  pub record StrategyState : Type 0 where
    pub mode : StrategyMode
    pub strategy : PathStrategy
    pub weighted_auto_split : Bool
    pub monitor_packets : Bool
    pub packets : ℕ
    pub payload_bytes : ℕ
    pub round_robin_cursor : ℕ
    pub endpoint_ids_by_interface : List (ℕ × List ℕ)
    pub split_percentages : List (ℕ × Option floats.F)
    pub health_by_interface : List (ℕ × InterfaceHealth)
    pub interface_failures : List ℕ
    pub interface_status : List (ℕ × InterfaceLinkStatus)
    pub interface_traffic : List (ℕ × InterfaceTraffic)

  -- The automatic mode knows two strategies.
  unfoldable pub current : StrategyState → PathStrategy
  current s = elim s.mode [
    | redundant_mode ↦ redundant
    | split_mode ↦ split
    | round_robin_mode ↦ round_robin
    | auto ↦ elim s.strategy [ split ↦ split | redundant ↦ redundant | round_robin ↦ redundant ]
  ]

  abbrev pub is_auto : StrategyMode → Bool
  is_auto auto = true
  is_auto redundant_mode = false
  is_auto round_robin_mode = false
  is_auto split_mode = false

  abbrev pub is_redundant : PathStrategy → Bool
  is_redundant redundant = true
  is_redundant split = false
  is_redundant round_robin = false

  unfoldable pub toggle_weighted_auto_split : StrategyState → StrategyState
  toggle_weighted_auto_split s = record s { weighted_auto_split = not s.weighted_auto_split }

  unfoldable pub set_mode : StrategyMode → StrategyState → StrategyState
  set_mode mode s = record s { mode = mode }

  abbrev pub set : PathStrategy → StrategyState → StrategyState
  set strategy s = record s { strategy = strategy }

  unfoldable pub degrade_to_redundant : StrategyState → StrategyState
  unfolding current
  degrade_to_redundant s =
      if not (is_auto s.mode) || is_redundant (current s) then s else set redundant s

  unfoldable pub record_packet : ℕ → StrategyState → StrategyState
  record_packet payload_bytes s = if not s.monitor_packets then s else record s {
    packets = wrapping_add s.packets 1;
    payload_bytes = wrapping_add s.payload_bytes payload_bytes;
  }

  unfoldable pub record_interface_send : ℕ → ℕ → StrategyState → StrategyState
  record_interface_send interface bytes s =
      if not s.monitor_packets then s else elim (lookup interface s.interface_traffic) [
        | none ↦ s
        | some counters ↦ record s {
          interface_traffic =
              insert interface
                (record counters {
                  tx_packets = saturating_add counters.tx_packets 1;
                  tx_bytes = saturating_add counters.tx_bytes bytes;
                })
                s.interface_traffic;
        }
      ]

  unfoldable pub record_interface_success : ℕ → StrategyState → StrategyState
  record_interface_success interface s = record s {
    interface_failures = discard interface s.interface_failures;
    interface_status = insert interface connected s.interface_status;
  }

  unfoldable pub record_interface_reconnecting : ℕ → StrategyState → StrategyState
  record_interface_reconnecting interface s = record s {
    interface_status = insert interface reconnecting s.interface_status;
  }

  unfoldable pub record_interface_failure : ℕ → StrategyState → StrategyState
  unfolding record_interface_reconnecting
  record_interface_failure interface s =
      record_interface_reconnecting interface
        (record s { interface_failures = add interface s.interface_failures })

  unfoldable pub record_interface_dead : ℕ → StrategyState → StrategyState
  record_interface_dead interface s = record s {
    interface_failures = add interface s.interface_failures;
    interface_status = insert interface dead s.interface_status;
  }

  -- The index, and the state with the cursor moved on. `usize` is 64 bits wide.
  unfoldable pub next_round_robin_index : ℕ → StrategyState → StrategyState × ℕ
  next_round_robin_index path_count s = if path_count == 0 then (s, 0) else (
    record s { round_robin_cursor = wrapping_add s.round_robin_cursor 1 },
    s.round_robin_cursor % path_count,
  )

  -- The entry of an endpoint in the map that the report is collected into: the last row wins.
  unfoldable pub reported :
      List ℕ → List (EndpointHealth floats.wire) → Option (EndpointHealth floats.wire)
  reported endpoint_id [] = none
  reported endpoint_id (e ∷ endpoints) = elim (reported endpoint_id endpoints) [
    | some later ↦ some later
    | none ↦ if bytes_eq e.endpoint_id endpoint_id then some e else none
  ]

  -- The loop over the interfaces.
  unfoldable pub record_health_of :
      HealthReport floats.wire
      → List (ℕ × List ℕ)
      → List (ℕ × InterfaceHealth)
      → List (ℕ × InterfaceHealth)
  unfolding reported
  record_health_of report [] health = health
  record_health_of report ((interface, endpoint_id) ∷ rest) health =
      record_health_of report rest (elim (reported endpoint_id report.endpoints) [
        | none ↦ health
        | some e ↦
            insert interface
              (record {
                last_seq = e.last_seq;
                max_seq = e.max_seq;
                server_mbps = e.achieved_mbps;
                last_unix_ms = report.unix_ms;
              })
              health
      ])

  unfoldable pub record_health_report : HealthReport floats.wire → StrategyState → StrategyState
  unfolding record_health_of
  record_health_report report s = record s {
    health_by_interface = record_health_of report s.endpoint_ids_by_interface s.health_by_interface;
  }

  -- `now.saturating_sub(last) <= AUTO_SPLIT_HEALTH_STALE_MS`
  abbrev pub is_fresh : ℕ → InterfaceHealth → Bool
  is_fresh now health = leb (now - health.last_unix_ms) 1500

  unfoldable pub fresh_health : ℕ → ℕ → StrategyState → Option InterfaceHealth
  fresh_health now interface s = elim (lookup interface s.health_by_interface) [
    | none ↦ none
    | some health ↦ if is_fresh now health then some health else none
  ]
