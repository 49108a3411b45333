-- ===== src/Tests/Sending.antt =====
-- Payloads on their way from crates/client/src/main.rs to crates/server/src/main.rs.
use irohsion.Prelude.{
  ℕ, ◌≤◌, ◌≡◌, refl, arith, Bool, true, false, List, [], ◌∷◌, ◌++◌, some, none, length, replicate,
  All,
}
use irohsion.Server.Window.{Event}
use irohsion.Server.Window.Sound.{Sound}
use irohsion.Server.Loop.{ReceivedPacket, Arrival, packet, Config, start, reorder_loop}
use irohsion.Server.Loop.Stream.{Stream, ended, next, again, Forwards, reorder_loop-Stream}
use irohsion.Server.Frame.{Signal, datagram, silence, arrivals}
use irohsion.Server.Frame.Sound.{reorder_loop-arrivals}
use irohsion.Client.Split.{redundant_mode, auto, redundant, split, is_mpeg_ts_payload, is_empty}
use irohsion.Client.Send.{Routing, active_paths, among, path_groups}
use irohsion.Prelude.Map.{member}
use irohsion.Server.Sequence.{next_sequence}
use irohsion.Client.Send.Chunks.{Sent, send_mpeg_ts_chunks}
use irohsion.Client.Send.Chunks.Delivery.{Delivers, concat}
use irohsion.Client.Send.Chunks.Routes.{
  active, split_paths, has_route, send_mpeg_ts_chunks-Delivers,
}
use irohsion.Client.Send.Chunks.Usable.{AllOrNothing, send_payload-AllOrNothing}
use irohsion.Client.Send.Live.{Cli, Datagram}
use irohsion.Link.{IsSent, Passes, payload_round_trip}
use irohsion.Tests.{packed}
use irohsion.Tests.Client.{percent}
use irohsion.Tests.Strategy.{thousands, two_up}

-- Two packets of an MPEG transport stream.
abbrev media : List ℕ
media = 71 ∷ (replicate 187 5 ++ (71 ∷ replicate 187 9))

media_is : is_mpeg_ts_payload media ≡ true
unfolding is_mpeg_ts_payload
media_is = refl

-- Two paths, one of them connected.
abbrev routing : Routing packed percent
routing = record {
  split_threshold_bytes = none;
  mtu = none;
  mpeg_ts_chunk_bytes = some 188;
  paths =
      record { display_name = 4; connected = false }
      ∷ record { display_name = 7; connected = true }
      ∷ [];
  mode = redundant_mode;
  effective = redundant;
  auto_path_groups = ([], []);
  active_split_weights = λ names. replicate (length names) 50;
  round_robin_next = 0;
}

abbrev socket : List Event → List ℕ → Bool
socket log payload = true

abbrev config : Config
config = record { repair = some 10; flow_idle_reset = 1000; max_reorder_delay = 100 }

weights_fit :
    length (routing.active_split_weights (split_paths packed percent routing))
    ≡ length (split_paths packed percent routing)
unfolding active_paths among member path_groups
weights_fit = refl

connected_one : is_empty (active packed percent routing) ≡ false
unfolding active_paths
connected_one = refl

routed : has_route packed percent routing ≡ true
routed = refl

send_mpeg_ts_chunks-Delivers_example :
    (cs : List (List ℕ)) × (concat cs ≡ media)
    × All (λ c. length c ≤ 188) cs
    × (sent : Sent) × (send_mpeg_ts_chunks packed percent 3 media routing ≡ some (some sent))
    × Delivers packed percent (active packed percent routing) 3 cs sent
send_mpeg_ts_chunks-Delivers_example =
    send_mpeg_ts_chunks-Delivers packed percent routing 188 3 media refl (omega arith) (omega arith)
      media_is weights_fit (omega arith) connected_one routed

payload_round_trip_example :
    (cs : List (List ℕ)) × (packets : List (List ℕ)) × (sent : Sent) × (send_mpeg_ts_chunks packed
        percent 3 media routing
      ≡ some (some sent))
    × All (IsSent packed (active packed percent routing) sent.0) packets
    × (concat cs ≡ media)
    × Passes packed socket config (λ log payload. refl) cs packets
payload_round_trip_example =
    payload_round_trip packed socket config (λ log payload. refl) percent routing 188 3 media refl
      (omega arith) (omega arith) media_is weights_fit (omega arith) connected_one routed

-- The automatic mode, which splits, while no path is fit for it.
abbrev unfit : Routing packed percent
unfit = record routing { mode = auto; effective = split; auto_path_groups = ([], 4 ∷ 7 ∷ []) }

unfit_weights :
    length (unfit.active_split_weights (split_paths packed percent unfit))
    ≡ length (split_paths packed percent unfit)
unfolding active_paths among member path_groups
unfit_weights = refl

send_payload-AllOrNothing_example : AllOrNothing packed percent unfit 188 3 media
send_payload-AllOrNothing_example =
    send_payload-AllOrNothing packed percent unfit 188 3 media refl (omega arith) (omega arith)
      media_is unfit_weights (omega arith)

abbrev cli : Cli packed thousands
cli = record {
  status_file_interval_ms = 1000;
  mpeg_ts_chunk_bytes = some 376;
  mtu = some 1200;
  split_threshold_bytes = none;
  repair_cache_ms = 500;
  repair_cache_packets = 4096;
  has_ticket = true;
  has_endpoint = false;
  has_addrs = false;
  tc_backlog_poll_ms = 100;
  tc_backlog_recover_bytes = 1000;
  tc_backlog_degrade_bytes = 2000;
  tc_qdisc_reset = false;
  tc_qdisc_reset_backlog_bytes = 0;
  tc_qdisc_reset_max_server_mbps = 0;
  tc_qdisc_reset_cooldown_ms = 0;
}

abbrev datagrams : List (Datagram packed thousands)
datagrams =
    record { payload = media; now = 5100; paths = routing.paths; strategy = two_up }
    ∷ record { payload = 1 ∷ 2 ∷ []; now = 5101; paths = []; strategy = two_up }
    ∷ []

abbrev single : ℕ → ReceivedPacket
single s = record {
  remote = 1 ∷ [];
  connection_id = 1;
  header = record { sequence = s; fragment = 0; fragments = 1 };
  payload = s ∷ [];
}

abbrev copied : List (ℕ × Arrival)
copied = (2, packet (single 4)) ∷ (2, packet (single 3)) ∷ (9, packet (single 5)) ∷ []

copied-Stream : Stream (next_sequence 3) ((4 ∷ []) ∷ (5 ∷ []) ∷ []) copied
unfolding next_sequence
copied-Stream =
    next 2 (single 4) refl
      (again {n = 5} 2 (single 3) (omega arith) (omega arith) (next 9 (single 5) refl (ended 6)))

reorder_loop-Stream_example :
    Forwards socket config
      (λ log payload. refl)
      ((3 ∷ []) ∷ (4 ∷ []) ∷ (5 ∷ []) ∷ [])
      []
      (reorder_loop socket config ((1, packet (single 3)) ∷ copied) start)
reorder_loop-Stream_example =
    reorder_loop-Stream socket config (λ log payload. refl) 1 (single 3) ((4 ∷ []) ∷ (5 ∷ []) ∷ [])
      copied refl copied-Stream

-- A packet, bytes that are no frame, and silence.
abbrev signals : List (ℕ × Signal)
signals =
    (1, datagram (1 ∷ []) 1 (3 ∷ 0 ∷ 0 ∷ 32 ∷ 9 ∷ []))
    ∷ (2, datagram (1 ∷ []) 1 (255 ∷ []))
    ∷ (900, silence)
    ∷ []

reorder_loop-arrivals_example : Sound (reorder_loop socket config (arrivals packed signals) start)
reorder_loop-arrivals_example = reorder_loop-arrivals packed socket config signals (
  (omega arith, (omega arith, (omega arith, (omega arith, (omega arith, tt))))),
  ((omega arith, tt), (tt, tt)),
)
