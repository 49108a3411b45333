-- ===== src/Tests/Strategy.antt =====
-- The path strategy of crates/client/src/path_strategy.rs on concrete states.
use irohsion.Prelude.{
  ℕ, ◌+◌, ◌-◌, ◌*◌, ◌/◌, ◌≤◌, ◌<◌, ◌≡◌, refl, ltb, leb, arith, Bool, true, false, ◌||◌, List, [],
  ◌∷◌, ◌&&◌, Option, none, some, ok, min, max,
}
use irohsion.Prelude.Map.{member, lookup}
use irohsion.Tests.Transport.{thousandths}
use irohsion.Client.Split.{redundant, auto, split}
use irohsion.Client.Fec
use irohsion.Client.Fec.{FecEncoder, fixed}
use irohsion.Client.Fec.Recovery.{HasGroups, IsEncoder}
use irohsion.Client.Strategy.{
  reconnecting, Floats, InterfaceHealth, StrategyState, current, fresh_health,
}
use irohsion.Client.Strategy.Groups.{
  keep, best_seq, sum_mbps, fresh_of, path_health_allows_split, healthy_of, auto_path_groups,
  auto_split_ready,
}
use irohsion.Client.Strategy.Groups.Cover.{auto_path_groups-Cover, auto_split_ready-Sound}
use irohsion.Client.Strategy.Fec.{adaptive_fec_group_packets, new-HasGroups}
use irohsion.Client.Strategy.Tick.{Thresholds, tick, splits, worst_backlog}
use irohsion.Client.Strategy.Tick.Stability.{tick-settles}
use irohsion.Transport.Path.{
  PathConnection, is_connected, connect_path, mark_failed, should_clear, wants_reconnect,
}
use irohsion.Transport.Path.Reconnect.{Reach, after, failed, from_connection}
use irohsion.Client.PathSend.{send_on_path, send_on_path-Failed}

-- Both kinds of numbers in thousandths.
abbrev pub thousands : Floats
thousands = record {
  wire = thousandths;
  F = ℕ;
  zero32 = 0;
  infinity32 = 1000000000;
  ratio32 = λ a b. a * 1000 / b;
  add32 = λ a b. a + b;
  mul32 = λ a b. a * b / 1000;
  div_count32 = λ a n. a / n;
  max32 = max;
  min32 = min;
  less32 = ltb;
  less_eq32 = leb;
  widen = λ a. a;
  epsilon = 0;
  ratio = λ a b. a * 1000 / b;
  of_count = λ n. n * 1000;
  add = λ a b. a + b;
  sub = λ a b. a - b;
  mul = λ a b. a * b / 1000;
  div = λ a b. a * 1000 / b;
  max_float = max;
  clamp_float = λ lo hi x. max lo (min hi x);
  less_eq = leb;
  scaled_round = λ n w. n * w / 1000;
}

abbrev pub health_at : ℕ → ℕ → InterfaceHealth thousands
health_at last mbps = record {
  last_seq = some last;
  max_seq = some last;
  server_mbps = mbps;
  last_unix_ms = 5000;
}

abbrev pub two_up : StrategyState thousands
two_up = record {
  mode = auto;
  strategy = split;
  weighted_auto_split = true;
  monitor_packets = true;
  packets = 0;
  payload_bytes = 0;
  round_robin_cursor = 0;
  endpoint_ids_by_interface = [];
  split_percentages = [];
  health_by_interface = (1, health_at 900 2000) ∷ (2, health_at 890 1500) ∷ [];
  interface_failures = [];
  interface_status = [];
  interface_traffic = [];
}

abbrev both : List ℕ
both = 1 ∷ 2 ∷ []

two_ready : auto_split_ready thousands 5100 both two_up ≡ true
unfolding auto_split_ready auto_path_groups keep healthy_of fresh_of best_seq sum_mbps
    path_health_allows_split fresh_health lookup member
two_ready = refl

auto_path_groups-Cover_example :
    let groups = auto_path_groups thousands 5100 both two_up in
    (member 2 both ≡ true → (member 2 groups.0 || member 2 groups.1) ≡ true)
    × (member 2 groups.0 ≡ true
        → (member 2 both ≡ true) × (member 2 two_up.interface_failures ≡ false))
auto_path_groups-Cover_example = auto_path_groups-Cover thousands 5100 two_up 2 both

second_there : member 2 both ≡ true
unfolding member
second_there = refl

auto_split_ready-Sound_example :
    (member 2 (auto_path_groups thousands 5100 both two_up).0 ≡ true)
    × (member 2 two_up.interface_failures ≡ false)
    × ((h : InterfaceHealth thousands) × (fresh_health thousands 5100 2 two_up ≡ some h))
auto_split_ready-Sound_example =
    auto_split_ready-Sound thousands 5100 two_up 2 both two_ready second_there

abbrev encoder : FecEncoder
encoder = record { mode = fixed 4; mtu = none; packets = [] }

encoder_made : Fec.new false 4 none ≡ ok encoder
unfolding Fec.new
encoder_made = refl

new-HasGroups_example :
    IsEncoder encoder
    × HasGroups (adaptive_fec_group_packets thousands 5100 two_up) encoder
    × (3 ≤ adaptive_fec_group_packets thousands 5100 two_up)
    × (adaptive_fec_group_packets thousands 5100 two_up ≤ 6)
new-HasGroups_example = new-HasGroups thousands false 4 none 5100 two_up encoder encoder_made

abbrev limits : ℕ → Thresholds thousands
limits recover = record {
  interfaces = both;
  degrade_backlog_bytes = 4000;
  recover_backlog_bytes = recover;
  qdisc_reset = none;
}

abbrev backlogs : List (ℕ × Option ℕ)
backlogs = (1, some 4000) ∷ (2, none) ∷ []

abbrev splitting : StrategyState thousands → Bool
splitting s = splits thousands (current thousands s)

below_limit : 2000 < 4000
below_limit = omega arith

tick-settles_example :
    splitting (
      tick thousands 5100
        (limits 2000)
        backlogs
        (tick thousands 5100 (limits 2000) backlogs two_up))
    ≡ splitting (tick thousands 5100 (limits 2000) backlogs two_up)
tick-settles_example = tick-settles thousands 5100 (limits 2000) backlogs two_up refl below_limit

worst_is : worst_backlog none backlogs ≡ some 4000
unfolding worst_backlog
worst_is = refl

abbrev down : PathConnection
down =
    (mark_failed (some 1) (connect_path (record { stable_id = 1; bind_ip = 10; endpoint = 100 }))).0

down-Reach : Reach down
down-Reach =
    after (from_connection (record { stable_id = 1; bind_ip = 10; endpoint = 100 }))
      (failed _ (some 1))

down_fails : (is_connected down && true) ≡ false
unfolding is_connected mark_failed should_clear
down_fails = refl

send_on_path-Failed_example :
    let (left, s', endpoint) = send_on_path thousands true 2 1200 down two_up in
    (is_connected left ≡ false)
    × (wants_reconnect left ≡ true)
    × (lookup 2 s'.interface_status ≡ some reconnecting)
    × (member 2 (auto_path_groups thousands 5100 both s').0 ≡ false)
    × (auto ≡ auto → current thousands s' ≡ redundant)
send_on_path-Failed_example =
    send_on_path-Failed thousands true 2 1200 down two_up 5100 both down-Reach down_fails
