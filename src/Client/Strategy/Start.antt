-- ===== src/Client/Strategy/Start.antt =====
-- The first state of the strategy in crates/client/src/path_strategy.rs (`spawn_strategy_loop`), and
-- what it shows of itself (`status`).
use irohsion.Prelude.{
  ℕ, ◌-◌, ◌≡◌, refl, if◌then◌else◌, ltb, arith, Bool, true, false, not, List, [], ◌∷◌, map, Option,
  none, some, length, Bool-cases, inl, inr,
}
use irohsion.Prelude.Map.{lookup, insert, keys, member}
use irohsion.Client.Split.{StrategyMode, auto, PathStrategy, redundant, split}
use irohsion.Client.Strategy.{
  Floats, InterfaceLinkStatus, connected, dead, InterfaceHealth, InterfaceTraffic, StrategyState,
  current, fresh_health, degrade_to_redundant,
}
use irohsion.Client.Strategy.Groups.{
  keep, fresh_of, healthy_of, best_seq, auto_path_groups, auto_split_ready,
}
use irohsion.Client.Strategy.Weights.{effective_split_percentages_for}
use irohsion.Client.Strategy.Tick.{Thresholds, tick}

pub record StrategyInterface : Type 0 where
  pub display_name : ℕ
  pub device_name : ℕ
  pub endpoint_id : List ℕ

-- A map from the interfaces' names.
unfoldable pub by_name {ℓ} :
    {V : Type ℓ} → (StrategyInterface → V) → List StrategyInterface → List (ℕ × V) → List (ℕ × V)
by_name f [] m = m
by_name f (i ∷ is) m = by_name f is (insert i.display_name (f i) m)

-- `seconds` is `as_secs_f64` of an elapsed time.
module _ (floats : Floats) (seconds : ℕ → floats.F) where
  abbrev pub no_traffic : ℕ → InterfaceTraffic floats
  no_traffic now = record {
    tx_packets = 0;
    tx_bytes = 0;
    last_tx_bytes = 0;
    last_sample = now;
    tx_mbps = floats.ratio 0 1;
  }

  unfoldable pub update_rate : ℕ → InterfaceTraffic floats → InterfaceTraffic floats
  update_rate now counters =
      let elapsed = seconds (now - counters.last_sample) in
      if floats.less_eq elapsed floats.epsilon then counters else record counters {
        tx_mbps =
            floats.div
              (floats.div
                (floats.mul (floats.of_count (counters.tx_bytes - counters.last_tx_bytes))
                  (floats.ratio 8 1))
                elapsed)
              (floats.ratio 1000000 1);
        last_tx_bytes = counters.tx_bytes;
        last_sample = now;
      }

  unfoldable pub initial_state : ℕ → List StrategyInterface → StrategyState floats
  unfolding by_name
  initial_state now interfaces = record {
    mode = auto;
    strategy = split;
    weighted_auto_split = true;
    monitor_packets = true;
    packets = 0;
    payload_bytes = 0;
    round_robin_cursor = 0;
    endpoint_ids_by_interface = by_name (λ i. i.endpoint_id) interfaces [];
    split_percentages = by_name (λ i. none) interfaces [];
    health_by_interface = [];
    interface_failures = [];
    interface_status = by_name (λ i. connected) interfaces [];
    interface_traffic = by_name (λ i. no_traffic now) interfaces [];
  }

  unfoldable pub effective_split_percentages : ℕ → StrategyState floats → List (ℕ × floats.F)
  effective_split_percentages now s =
      effective_split_percentages_for floats now (keys s.endpoint_ids_by_interface) s

  pub record InterfaceControlStatus : Type 0 where
    pub name : ℕ
    pub status : InterfaceLinkStatus
    pub split_percentage : floats.F
    pub tx_packets : ℕ
    pub tx_bytes : ℕ
    pub tx_mbps : floats.F
    pub server_mbps : Option floats.wire.F
    pub server_last_seq : Option ℕ
    pub server_max_seq : Option ℕ

  pub record ControlStatus : Type 0 where
    pub mode : StrategyMode
    pub effective_strategy : PathStrategy
    pub monitor_packets : Bool
    pub packets : ℕ
    pub payload_bytes : ℕ
    pub interfaces : List InterfaceControlStatus

  abbrev or_dead : Option InterfaceLinkStatus → InterfaceLinkStatus
  or_dead none = dead
  or_dead (some status) = status

  abbrev or_zero : Option floats.F → floats.F
  or_zero none = floats.ratio 0 1
  or_zero (some percentage) = percentage

  abbrev or_no_traffic : ℕ → Option (InterfaceTraffic floats) → InterfaceTraffic floats
  or_no_traffic now none = no_traffic now
  or_no_traffic now (some counters) = counters

  abbrev mbps_of : Option (InterfaceHealth floats) → Option floats.wire.F
  mbps_of none = none
  mbps_of (some health) = some health.server_mbps

  abbrev last_seq_of : Option (InterfaceHealth floats) → Option ℕ
  last_seq_of none = none
  last_seq_of (some health) = health.last_seq

  abbrev max_seq_of : Option (InterfaceHealth floats) → Option ℕ
  max_seq_of none = none
  max_seq_of (some health) = health.max_seq

  unfoldable pub updated :
      ℕ → List (ℕ × InterfaceTraffic floats) → List (ℕ × InterfaceTraffic floats)
  unfolding update_rate
  updated now [] = []
  updated now ((name, counters) ∷ rest) = (name, update_rate now counters) ∷ updated now rest

  -- The row of an interface.
  unfoldable pub interface_status_of :
      ℕ
      → List (ℕ × InterfaceTraffic floats)
      → List (ℕ × floats.F)
      → StrategyState floats
      → ℕ
      → InterfaceControlStatus
  interface_status_of now traffic percentages s name =
      let counters = or_no_traffic now (lookup name traffic) in
      let health = lookup name s.health_by_interface in
      record {
        name = name;
        status = or_dead (lookup name s.interface_status);
        split_percentage = or_zero (lookup name percentages);
        tx_packets = counters.tx_packets;
        tx_bytes = counters.tx_bytes;
        tx_mbps = counters.tx_mbps;
        server_mbps = mbps_of health;
        server_last_seq = last_seq_of health;
        server_max_seq = max_seq_of health;
      }

  -- The state with its rates brought up to date, and what is shown.
  unfoldable pub status : ℕ → StrategyState floats → StrategyState floats × ControlStatus
  unfolding updated interface_status_of effective_split_percentages
  status now s =
      let traffic = updated now s.interface_traffic in
      let percentages = effective_split_percentages now s in
      (
        record s { interface_traffic = traffic },
        record {
          mode = s.mode;
          effective_strategy = current floats s;
          monitor_packets = s.monitor_packets;
          packets = s.packets;
          payload_bytes = s.payload_bytes;
          interfaces =
              map (interface_status_of now traffic percentages s)
                (keys s.endpoint_ids_by_interface);
        },
      )

  fresh_of-initial_state :
      (now began : ℕ) (is : List StrategyInterface) (names : List ℕ)
      → fresh_of floats now (initial_state began is) names ≡ []
  unfolding fresh_of fresh_health initial_state lookup
  fresh_of-initial_state now began is [] = refl
  fresh_of-initial_state now began is (name ∷ names) = fresh_of-initial_state now began is names

  unready_start :
      (now began : ℕ) (is : List StrategyInterface) (names : List ℕ)
      → auto_split_ready floats now names (initial_state began is) ≡ false
  unfolding auto_split_ready auto_path_groups initial_state healthy_of best_seq
  unready_start now began is names = elim (Bool-cases (ltb (length (candidates names)) 2)) [
    | inl few ↦ rw few (ground (arith, few))
    | inr several ↦ rw (several, fresh_of-initial_state now began is (candidates names)) refl
  ]
    where
      candidates : List ℕ → List ℕ
      candidates = keep (λ i. not (member i []))

  -- The client starts in split mode, without a report. Its first round finds no path healthy and falls
  -- back to sending redundantly, whatever the backlogs are.
  pub tick-initial_state :
      (now began : ℕ) (t : Thresholds floats) (backlogs : List (ℕ × Option ℕ))
      (is : List StrategyInterface)
      → (current floats (initial_state began is) ≡ split)
        × (current floats (tick floats now t backlogs (initial_state began is)) ≡ redundant)
  unfolding tick initial_state current degrade_to_redundant
  tick-initial_state now began t backlogs is =
      (refl, rw (unready_start now began is t.interfaces) refl)
