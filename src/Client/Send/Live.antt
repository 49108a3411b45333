-- ===== src/Client/Send/Live.antt =====
-- The client of crates/client/src/main.rs from its command line to the datagrams that it sends: the
-- checks of `main`, and the loop over the datagrams of the local peer with what `StrategyState` of
-- crates/client/src/path_strategy.rs says at each of them. The floats' test of a rate is `is_rate`.
use irohsion.Prelude.{
  ℕ, ◌%◌, ◌==◌, if◌then◌else◌, ltb, Bool, false, not, ◌&&◌, ◌||◌, List, map, Option, none, some,
}
use irohsion.Protocol.{PackedHeaderTail, max_fragments}
use irohsion.Client.Split.{mpeg_ts_packet_size}
use irohsion.Client.Strategy.{Floats, StrategyState, split_float, current}
use irohsion.Client.Strategy.Groups.{auto_path_groups}
use irohsion.Client.Strategy.Weights.{active_split_weights}
use irohsion.Client.Send.{PathView, Routing, path_names}
use irohsion.Client.Send.Chunks.{Sent, ingest_loop}

pub data ConfigError : Type 0 where
  status_file_interval : ConfigError
  mpeg_ts_chunk : ConfigError
  empty_mtu : ConfigError
  repair_cache_age : ConfigError
  repair_cache_size : ConfigError
  ticket_combined : ConfigError
  too_many_interfaces : ConfigError
  backlog_poll : ConfigError
  backlog_thresholds : ConfigError
  qdisc_backlog : ConfigError
  qdisc_rate : ConfigError
  qdisc_cooldown : ConfigError

module _ (tail : PackedHeaderTail) (floats : Floats) where
  -- The options that the checks and the sending read; `has_endpoint` and the like stand for options
  -- that only their presence matters of.
  pub record Cli : Type 0 where
    pub status_file_interval_ms : ℕ
    pub mpeg_ts_chunk_bytes : Option ℕ
    pub mtu : Option ℕ
    pub split_threshold_bytes : Option ℕ
    pub repair_cache_ms : ℕ
    pub repair_cache_packets : ℕ
    pub has_ticket : Bool
    pub has_endpoint : Bool
    pub has_addrs : Bool
    pub tc_backlog_poll_ms : ℕ
    pub tc_backlog_recover_bytes : ℕ
    pub tc_backlog_degrade_bytes : ℕ
    pub tc_qdisc_reset : Bool
    pub tc_qdisc_reset_backlog_bytes : ℕ
    pub tc_qdisc_reset_max_server_mbps : floats.wire.F
    pub tc_qdisc_reset_cooldown_ms : ℕ

  -- `chunk_bytes == 0 || chunk_bytes % MPEG_TS_PACKET_SIZE != 0`
  abbrev bad_chunk : Option ℕ → Bool
  bad_chunk none = false
  bad_chunk (some n) = n == 0 || not (n % mpeg_ts_packet_size == 0)

  abbrev is_zero : Option ℕ → Bool
  is_zero none = false
  is_zero (some n) = n == 0

  -- The checks at the start of `main`, in their order.
  unfoldable pub check_options : Cli → Option ConfigError
  check_options cli =
      if cli.status_file_interval_ms == 0
      then some status_file_interval
      else if bad_chunk cli.mpeg_ts_chunk_bytes
      then some mpeg_ts_chunk
      else if is_zero cli.mtu
      then some empty_mtu
      else if cli.repair_cache_ms == 0
      then some repair_cache_age
      else if cli.repair_cache_packets == 0
      then some repair_cache_size
      else if cli.has_ticket && (cli.has_endpoint || cli.has_addrs)
      then some ticket_combined
      else none

  -- The checks once the paths are there; `is_rate` says whether a float is finite and not negative.
  unfoldable pub check_paths : (floats.wire.F → Bool) → ℕ → Cli → Option ConfigError
  check_paths is_rate path_count cli =
      if ltb max_fragments path_count
      then some too_many_interfaces
      else if cli.tc_backlog_poll_ms == 0
      then some backlog_poll
      else if ltb cli.tc_backlog_degrade_bytes cli.tc_backlog_recover_bytes
      then some backlog_thresholds
      else if not cli.tc_qdisc_reset
      then none
      else if cli.tc_qdisc_reset_backlog_bytes == 0
      then some qdisc_backlog
      else if not (is_rate cli.tc_qdisc_reset_max_server_mbps)
      then some qdisc_rate
      else if cli.tc_qdisc_reset_cooldown_ms == 0
      then some qdisc_cooldown
      else none

  -- A datagram of the local peer, with the time, the paths and the strategy when it comes.
  pub record Datagram : Type 0 where
    pub payload : List ℕ
    pub now : ℕ
    pub paths : List PathView
    pub strategy : StrategyState floats

  -- What `send_payload` reads: the methods of the strategy, called with the paths' names.
  unfoldable pub routing_of : Cli → Datagram → Routing tail (split_float floats)
  unfolding current auto_path_groups active_split_weights
  routing_of cli d = record {
    split_threshold_bytes = cli.split_threshold_bytes;
    mtu = cli.mtu;
    mpeg_ts_chunk_bytes = cli.mpeg_ts_chunk_bytes;
    paths = d.paths;
    mode = d.strategy.mode;
    effective = current floats d.strategy;
    auto_path_groups =
        auto_path_groups floats d.now (path_names tail (split_float floats) d.paths) d.strategy;
    active_split_weights = λ names. active_split_weights floats d.now names d.strategy;
    round_robin_next = d.strategy.round_robin_cursor;
  }

  -- The loop of `main`, from the first sequence on.
  unfoldable pub client_loop : Cli → List Datagram → Option Sent
  unfolding routing_of ingest_loop
  client_loop cli datagrams =
      ingest_loop tail (split_float floats) 0 (map (λ d. (d.payload, routing_of cli d)) datagrams)
