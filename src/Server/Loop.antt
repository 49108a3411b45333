-- ===== src/Server/Loop.antt =====
-- `reorder_loop` of crates/server/src/main.rs, one round at a time: a frame that arrives, or the
-- timeout. The parts of its body are functions of their own, in the order of the source.
pub mod Cases
pub mod Order
pub mod Sound
pub mod Calm
pub mod Stream
use irohsion.Prelude.{
  ℕ, zero, suc, ◌+◌, ◌-◌, ◌≤◌, ◌<◌, ◌≡◌, refl, ◌==◌, if◌then◌else◌, ltb, leb, arith, Bool, true,
  false, not, ◌&&◌, ◌||◌, List, [], ◌∷◌, ◌++◌, map, Option, none, some, length, min,
}
use irohsion.Prelude.Bytes.{bytes_eq}
use irohsion.Prelude.Map.{lookup, insert, remove, contains_key, member, add}
use irohsion.Protocol.{PacketHeader, FecFrame}
use irohsion.Server.Assembly
use irohsion.Server.Assembly.{
  FragmentAssembly, fragments_count, insert_fragment, is_complete, into_payload,
}
use irohsion.Server.Skipped
use irohsion.Server.Restart.{RestartDetector, observe, cleared}
use irohsion.Server.FecState
use irohsion.Server.FecState.{FecState, insert_frame}
use irohsion.Server.Window.{
  Event, received, buffered_at, duplicate, late_after_skip, flow_start, flow_reset, Window, Outcome,
  running, stopped, panicked, ◌>>=◌, has_pending_state, recover_fec_ready, accept_complete_payload,
  advance_reorder_window,
}

pub record ReceivedPacket : Type 0 where
  pub remote : List ℕ
  pub connection_id : ℕ
  pub header : PacketHeader
  pub payload : List ℕ

pub record ReceivedFecFrame : Type 0 where
  pub remote : List ℕ
  pub frame : FecFrame

-- What `timeout(timeout_duration, rx.recv())` gives; the closed channel ends the loop.
pub data Arrival : Type 0 where
  packet : ReceivedPacket → Arrival
  fec : ReceivedFecFrame → Arrival
  timed_out : Arrival

-- The arguments of `reorder_loop`; `repair` is the request interval.
pub record Config : Type 0 where
  pub repair : Option ℕ
  pub flow_idle_reset : ℕ
  pub max_reorder_delay : ℕ

-- The locals that `reorder_loop` starts with.
abbrev pub start : Window
start = record {
  initialized = false;
  next_seq = 0;
  buffered = [];
  fragments = [];
  seen = [];
  skipped_sequences = Skipped.empty;
  gap_repair_requests = [];
  restart_detector = cleared;
  flow_connections = [];
  fec_state = FecState.empty;
  reply_routes = [];
  log = [];
}

unfoldable pub timeout_duration : Config → Window → ℕ
timeout_duration config w =
    if has_pending_state w
    then elim config.repair [
      | none ↦ config.max_reorder_delay
      | some interval ↦ min interval config.max_reorder_delay
    ]
    else config.flow_idle_reset

unfoldable pub any_eq : List ℕ → List (List ℕ) → Bool
any_eq remote [] = false
any_eq remote (r ∷ rs) = bytes_eq r remote || any_eq remote rs

unfoldable pub set_reply_routes : List ℕ → Bool → List (List ℕ) → List (List ℕ)
unfolding any_eq
set_reply_routes remote reset routes =
    let kept : List (List ℕ) = if reset then [] else routes in
    if any_eq remote kept then kept else kept ++ (remote ∷ [])

-- The reset of a flow that went idle.
unfoldable pub reset_idle : Window → Window
reset_idle w = record w {
  initialized = false;
  next_seq = 0;
  restart_detector = cleared;
  skipped_sequences = Skipped.empty;
  gap_repair_requests = [];
  flow_connections = [];
  fec_state = FecState.empty;
}

-- `record_received`, and the start of a flow on its first packet.
unfoldable pub begin_flow : ReceivedPacket → Window → Window
unfolding set_reply_routes
begin_flow p w =
    let log = received (length p.payload) ∷ w.log in
    if w.initialized
    then record w { reply_routes = set_reply_routes p.remote false w.reply_routes; log = log }
    else record w {
      initialized = true;
      next_seq = p.header.sequence;
      reply_routes = set_reply_routes p.remote true w.reply_routes;
      flow_connections = add p.connection_id w.flow_connections;
      log = flow_start p.header.sequence ∷ log;
    }

-- The confirmed restart of a sender: everything is forgotten but the routes' new owner.
unfoldable pub restart_flow : ReceivedPacket → Window → Window
unfolding set_reply_routes
restart_flow p w = record w {
  next_seq = p.header.sequence;
  buffered = [];
  fragments = [];
  seen = [];
  skipped_sequences = Skipped.empty;
  gap_repair_requests = [];
  flow_connections = add p.connection_id [];
  fec_state = FecState.empty;
  reply_routes = set_reply_routes p.remote true w.reply_routes;
  log = flow_reset p.header.sequence ∷ w.log;
}

abbrev pub record_duplicate : Window → Window
record_duplicate w = record w { log = duplicate (length w.buffered) w.next_seq ∷ w.log }

abbrev pub record_late : ℕ → Window → Window
record_late sequence w = record w {
  log = late_after_skip sequence (length w.buffered + length w.fragments) w.next_seq ∷ w.log;
}

abbrev pub with_detector : RestartDetector → Window → Window
with_detector d w = record w { restart_detector = d }

-- A packet at or above `next_seq` makes its connection one of the flow.
abbrev pub join_flow : ReceivedPacket → Window → Window
join_flow p w = record w {
  restart_detector = cleared;
  flow_connections = add p.connection_id w.flow_connections;
}

-- What happens to a packet below `next_seq`: `true` if it goes on, as the first of a new flow.
-- The detector observes packets of connections that are new to the flow only.
unfoldable pub handle_stale : ReceivedPacket → Window → Bool × Window
handle_stale p w =
    let sequence = p.header.sequence in
    let watched = not (member p.connection_id w.flow_connections) in
    let seen_restart = observe sequence w.next_seq w.restart_detector in
    let w' : Window = with_detector (if watched then seen_restart.0 else w.restart_detector) w in
    if watched && seen_restart.1
    then (true, restart_flow p w')
    else if Skipped.contains sequence w.skipped_sequences
    then (false, record_late sequence w')
    else (false, record_duplicate w')

-- The tests of `sequence` against `next_seq`, `seen` and `buffered` that follow.
unfoldable pub recheck : ReceivedPacket → Bool × Window → Bool × Window
recheck p (false, w) = (false, w)
recheck p (true, w) =
    let sequence = p.header.sequence in
    if ltb sequence w.next_seq || (member sequence w.seen || contains_key sequence w.buffered)
    then (false, record_duplicate w)
    else (true, w)

unfoldable pub classify : ReceivedPacket → Window → Bool × Window
classify p w = if ltb p.header.sequence w.next_seq then handle_stale p w else (true, join_flow p w)

-- Whether a packet is worth taking in: the code from `sequence < next_seq` to the fragments.
unfoldable pub admit : ReceivedPacket → Window → Bool × Window
unfolding recheck classify
admit p w = recheck p (classify p w)

-- What the fragment tables make of an admitted packet.
pub data Assembled : Type 0 where
  complete : List ℕ → Window → Assembled
  waiting : Window → Assembled
  rejected : Window → Assembled
  broken : Assembled

-- What the window of an assembly satisfies.
abbrev pub EachAssembled : (Window → Type 0) → Assembled → Type 0
EachAssembled P (complete payload w) = P w
EachAssembled P (waiting w) = P w
EachAssembled P (rejected w) = P w
EachAssembled P broken = Unit {0}

-- The end of the fragment branch, with the entry after the insertion.
unfoldable pub settle_fragment : ℕ → FragmentAssembly → Bool → Window → Assembled
settle_fragment sequence entry fresh w =
    let stored : Window = record w { fragments = insert sequence entry w.fragments } in
    if not fresh
    then rejected (record_duplicate stored)
    else if not (is_complete entry)
    then waiting (record stored {
      log = buffered_at (length w.buffered + length stored.fragments) w.next_seq ∷ w.log;
    })
    else elim (into_payload entry) [
      | none ↦ broken
      | some payload ↦
          complete payload
            (record w { fragments = remove sequence stored.fragments; seen = add sequence w.seen })
    ]

unfoldable pub assemble : ℕ → ReceivedPacket → Window → Assembled
unfolding settle_fragment
assemble now p w =
    let sequence = p.header.sequence in
    if p.header.fragments == 1
    then complete p.payload
        (record w { fragments = remove sequence w.fragments; seen = add sequence w.seen })
    else let entry : FragmentAssembly = elim (lookup sequence w.fragments) [
      | none ↦ Assembly.new p.header.fragments now
      | some old ↦ old
    ] in
      if not (fragments_count entry == p.header.fragments)
      then rejected (record_duplicate w)
      else elim (insert_fragment p.header.fragment p.payload entry) [
        | none ↦ broken
        | some (entry', fresh) ↦ settle_fragment sequence entry' fresh w
      ]

module _ (socket : List Event → List ℕ → Bool) (config : Config) where
  abbrev pub advance : ℕ → Window → Outcome Window
  advance now = advance_reorder_window socket now config.repair config.max_reorder_delay

  -- `recover_fec_ready`, then `advance_reorder_window`.
  unfoldable pub recover_and_advance : ℕ → Window → Outcome Window
  recover_and_advance now w = recover_fec_ready socket now w >>= advance now

  unfoldable pub handle_timeout : ℕ → Window → Outcome Window
  unfolding reset_idle
  handle_timeout now w =
      if not w.initialized
      then running w
      else if has_pending_state w
      then advance now w
      else running (reset_idle w)

  unfoldable pub handle_fec : ℕ → ReceivedFecFrame → Window → Outcome Window
  handle_fec now f w =
      let w' : Window = record w { fec_state = insert_frame f.frame w.fec_state } in
      if w.initialized
      then recover_and_advance now
          (record w' { reply_routes = set_reply_routes f.remote false w.reply_routes })
      else running w'

  -- What follows the assembly of a packet.
  unfoldable pub deliver : ℕ → ℕ → Assembled → List Event → Outcome Window
  deliver now sequence (complete payload w) log =
      accept_complete_payload socket now sequence payload w >>= recover_and_advance now
  deliver now sequence (waiting w) log = advance now w
  deliver now sequence (rejected w) log = running w
  deliver now sequence broken log = panicked log

  unfoldable pub handle_packet : ℕ → ReceivedPacket → Window → Outcome Window
  handle_packet now p w =
      let admitted = admit p (begin_flow p w) in
      if admitted.0
      then deliver now p.header.sequence (assemble now p admitted.1) admitted.1.log
      else running admitted.1

  unfoldable pub round : ℕ → Arrival → Window → Outcome Window
  unfolding handle_packet handle_fec handle_timeout
  round now (packet p) w = handle_packet now p w
  round now (fec f) w = handle_fec now f w
  round now timed_out w = handle_timeout now w

  -- The loop over a history of arrivals, each with the clock's reading.
  unfoldable pub reorder_loop : List (ℕ × Arrival) → Window → Outcome Window
  unfolding round
  reorder_loop [] w = running w
  reorder_loop ((now, a) ∷ rest) w = round now a w >>= reorder_loop rest
