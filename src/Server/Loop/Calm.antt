-- ===== src/Server/Loop/Calm.antt =====
-- The window of `reorder_loop` of crates/server/src/main.rs when nothing waits in it, and what a packet
-- of one fragment makes of it.
use irohsion.Prelude.{
  ℕ, zero, suc, ◌+◌, ◌-◌, ◌<◌, ◌≡◌, refl, ap, ==_refl, if◌then◌else◌, arith, Bool, true, false, not,
  ◌||◌, List, [], ◌∷◌, ◌++◌, Option, none, some, length, ltb, Bool-cases, inl, inr, le→ltb, lt→ltb,
}
use irohsion.Prelude.Map.{lookup, remove, contains_key, member, add, discard}
use irohsion.Protocol.{FecFrame, max_media_sequence}
use irohsion.Server.Sequence.{next_sequence}
use irohsion.Server.Skipped.{RecentSkippedSequences}
use irohsion.Server.Skipped
use irohsion.Server.Restart.{RestartDetector, observe, cleared, restart_backward_gap}
use irohsion.Server.FecState.{
  FecState, insert_payload, enforce_payload_limit, recover_ready, recover_bases,
}
use irohsion.Server.Window.{
  Event, received, forwarded, skipped, buffered_at, duplicate, late_after_skip, flow_start,
  flow_reset, fec_recovered, repair_requested, Window, running, expire_round, expire_loop,
  expire_reorder_gap, forward, drain_ready, drain_loop, oldest, pending_times, request_due_repairs,
  gap_due, gap_request, fragment_requests, due_fragments, recover_fec_ready, recover_loop,
  recover_round, accept_all, accept_complete_payload, advance_reorder_window,
}
use irohsion.Server.Loop.{
  ReceivedPacket, Config, start, begin_flow, set_reply_routes, admit, recheck, classify,
  handle_stale, assemble, handle_packet, deliver, recover_and_advance, join_flow,
}

-- What a window may differ in when nothing waits in it.
pub record Rest : Type 0 where
  pub gaps : List (ℕ × ℕ)
  pub detector : RestartDetector
  pub connections : List ℕ
  pub skip_order : List ℕ
  pub frame_order : List ℕ
  pub payloads : List (ℕ × List ℕ)
  pub payload_order : List ℕ
  pub routes : List (List ℕ)
  pub log : List Event

-- A running flow at `n`, in which nothing waits and nothing was skipped, without parity frames.
abbrev pub calm : ℕ → Rest → Window
calm n r = record {
  initialized = true;
  next_seq = n;
  buffered = [];
  fragments = [];
  seen = [];
  skipped_sequences = record { order = r.skip_order; lookup = [] };
  gap_repair_requests = r.gaps;
  restart_detector = r.detector;
  flow_connections = r.connections;
  fec_state = record {
    frames = [];
    frame_order = r.frame_order;
    payloads = r.payloads;
    payload_order = r.payload_order;
  };
  reply_routes = r.routes;
  log = r.log;
}

-- The payloads that were forwarded, oldest first.
abbrev pub outputs : List Event → List (List ℕ)
outputs [] = []
outputs (forwarded s payload ∷ log) = outputs log ++ (payload ∷ [])
outputs (received bytes ∷ log) = outputs log
outputs (skipped reason s ∷ log) = outputs log
outputs (buffered_at count next ∷ log) = outputs log
outputs (duplicate count next ∷ log) = outputs log
outputs (late_after_skip s count next ∷ log) = outputs log
outputs (flow_start s ∷ log) = outputs log
outputs (flow_reset s ∷ log) = outputs log
outputs (fec_recovered s bytes ∷ log) = outputs log
outputs (repair_requested r ∷ log) = outputs log

-- Nothing was skipped and nothing was asked for again.
abbrev pub Lossless : List Event → Type 0
Lossless [] = Unit {0}
Lossless (skipped reason s ∷ log) = ⊥
Lossless (repair_requested r ∷ log) = ⊥
Lossless (flow_reset s ∷ log) = ⊥
Lossless (forwarded s payload ∷ log) = Lossless log
Lossless (received bytes ∷ log) = Lossless log
Lossless (buffered_at count next ∷ log) = Lossless log
Lossless (duplicate count next ∷ log) = Lossless log
Lossless (late_after_skip s count next ∷ log) = Lossless log
Lossless (flow_start s ∷ log) = Lossless log
Lossless (fec_recovered s bytes ∷ log) = Lossless log

expire_loop-calm :
    (now delay fuel n : ℕ) (r : Rest) → expire_loop now delay fuel (calm n r) ≡ calm n r
unfolding expire_loop expire_round contains_key lookup oldest pending_times
expire_loop-calm now delay zero n r = refl
expire_loop-calm now delay (suc fuel) n r = refl

insert_payload-frames :
    (s : ℕ) (payload : List ℕ) (f : FecState) → (insert_payload s payload f).frames ≡ f.frames
unfolding insert_payload enforce_payload_limit
insert_payload-frames s payload f =
    elim (Bool-cases (ltb max_media_sequence s || contains_key s f.payloads)) [
      | inl e ↦ rw e refl
      | inr e ↦ rw e refl
    ]

module _ (socket : List Event → List ℕ → Bool) (config : Config) where
  recover_fec_ready-calm :
      (now n : ℕ) (r : Rest) → recover_fec_ready socket now (calm n r) ≡ running (calm n r)
  unfolding recover_fec_ready recover_loop recover_round accept_all recover_ready recover_bases
  recover_fec_ready-calm now n r = refl

  request_due_repairs-calm :
      (now interval n : ℕ) (r : Rest) → request_due_repairs now interval (calm n r) ≡ calm n r
  unfolding request_due_repairs gap_due gap_request fragment_requests due_fragments contains_key
  request_due_repairs-calm now interval n r = refl

  settle_calm :
      (now delay n : ℕ) (r : Rest)
      → drain_ready socket (expire_reorder_gap now delay (calm n r)) ≡ running (calm n r)
  unfolding expire_reorder_gap drain_ready drain_loop
  settle_calm now delay n r = rw (expire_loop-calm now delay _ n r) refl

  advance_calm :
      (now delay n : ℕ) (repair : Option ℕ) (r : Rest)
      → advance_reorder_window socket now repair delay (calm n r) ≡ running (calm n r)
  unfolding advance_reorder_window
  advance_calm now delay n none r = rw (recover_fec_ready-calm now n r) (settle_calm now delay n r)
  advance_calm now delay n (some interval) r =
      rw (recover_fec_ready-calm now n r, request_due_repairs-calm now interval n r)
        (settle_calm now delay n r)

  recover_and_advance-calm :
      (now n : ℕ) (r : Rest) → recover_and_advance socket config now (calm n r) ≡ running (calm n r)
  unfolding recover_and_advance
  recover_and_advance-calm now n r =
      rw (recover_fec_ready-calm now n r)
        (advance_calm now config.max_reorder_delay n config.repair r)

  -- What a packet in order makes of the rest.
  abbrev pub passed : ℕ → List ℕ → Rest → Rest
  passed n payload r =
      let fec_state : FecState = insert_payload n payload (calm n r).fec_state in
      record r {
        gaps = remove n r.gaps;
        frame_order = fec_state.frame_order;
        payloads = fec_state.payloads;
        payload_order = fec_state.payload_order;
        log = forwarded n payload ∷ r.log;
      }

  accept_calm :
      (now n : ℕ) (payload : List ℕ) (r : Rest)
      → socket r.log payload ≡ true
      → accept_complete_payload socket now n payload (record (calm n r) { seen = n ∷ [] })
        ≡ running (calm (next_sequence n) (passed n payload r))
  unfolding accept_complete_payload forward drain_ready drain_loop add discard member
  accept_calm now n payload r sent =
      let after : List (ℕ × FecFrame) → Window = λ frames.
        record (calm (next_sequence n) (passed n payload r)) {
          fec_state = record (insert_payload n payload (calm n r).fec_state) { frames = frames };
        } in
      rw (==_refl n, sent, ==_refl n)
        (ap (λ frames. running (after frames))
          (insert_payload-frames n payload (calm n r).fec_state))

  -- The packet at `next_seq` is taken in.
  admit-calm :
      (p : ReceivedPacket) (r : Rest)
      → admit p (calm p.header.sequence r) ≡ (true, join_flow p (calm p.header.sequence r))
  unfolding admit recheck classify member contains_key
  admit-calm p r =
      let level = le→ltb p.header.sequence p.header.sequence (omega arith) in
      rw level (rw level refl)

  -- What it makes of the window.
  abbrev pub joined : ReceivedPacket → Rest → Rest
  joined p r = record r { detector = cleared; connections = add p.connection_id r.connections }

  take_in :
      (now : ℕ) (p : ReceivedPacket) (r : Rest)
      → p.header.fragments ≡ 1
      → socket r.log p.payload ≡ true
      → deliver socket config now p.header.sequence
          (assemble now p (join_flow p (calm p.header.sequence r)))
          r.log
        ≡ running (
            calm
              (next_sequence p.header.sequence)
              (passed p.header.sequence p.payload (joined p r)))
  unfolding deliver assemble add member remove
  take_in now p r f sent =
      rw (f, accept_calm now p.header.sequence p.payload (joined p r) sent)
        (recover_and_advance-calm now (next_sequence p.header.sequence) _)

  -- A packet of one fragment that the window waits for is forwarded at once.
  pub handle_packet-calm :
      (now : ℕ) (p : ReceivedPacket) (w : Window) (r : Rest)
      → begin_flow p w ≡ calm p.header.sequence r
      → p.header.fragments ≡ 1
      → socket r.log p.payload ≡ true
      → handle_packet socket config now p w
        ≡ running (
            calm
              (next_sequence p.header.sequence)
              (passed p.header.sequence p.payload (joined p r)))
  unfolding handle_packet
  handle_packet-calm now p w r begun f sent = rw (begun, admit-calm p r) (take_in now p r f sent)

  -- What each packet changes first.
  abbrev pub begun : ReceivedPacket → Rest → Rest
  begun p r = record r {
    routes = set_reply_routes p.remote false r.routes;
    log = received (length p.payload) ∷ r.log;
  }

  abbrev pub first : ReceivedPacket → Rest
  first p = record {
    gaps = [];
    detector = cleared;
    connections = add p.connection_id [];
    skip_order = [];
    frame_order = [];
    payloads = [];
    payload_order = [];
    routes = set_reply_routes p.remote true [];
    log = flow_start p.header.sequence ∷ received (length p.payload) ∷ [];
  }

  pub begin_flow-calm :
      (n : ℕ) (p : ReceivedPacket) (r : Rest) → begin_flow p (calm n r) ≡ calm n (begun p r)
  unfolding begin_flow
  begin_flow-calm n p r = refl

  pub begin_flow-first :
      (p : ReceivedPacket) → begin_flow p start ≡ calm p.header.sequence (first p)
  unfolding begin_flow
  begin_flow-first p = refl

  -- A copy of a packet that was forwarded changes nothing but the log.
  abbrev pub repeated : ℕ → ReceivedPacket → Rest → Rest
  repeated n p r = record (begun p r) {
    detector = if not (member p.connection_id r.connections) then cleared else r.detector;
    log = duplicate 0 n ∷ received (length p.payload) ∷ r.log;
  }

  pub late_calm :
      (now n : ℕ) (p : ReceivedPacket) (r : Rest)
      → p.header.sequence < n
      → n < p.header.sequence + 4096
      → handle_packet socket config now p (calm n r) ≡ running (calm n (repeated n p r))
  unfolding handle_packet admit recheck classify handle_stale observe Skipped.contains member
  late_calm now n p r below near =
      let low : ltb p.header.sequence n ≡ true = lt→ltb _ _ below in
      let recent : ltb (n - p.header.sequence) restart_backward_gap ≡ true =
        lt→ltb _ _ (omega arith) in
      rw (begin_flow-calm n p r, low, recent)
        (elim (Bool-cases (member p.connection_id r.connections)) [
          | inl e ↦ rw (e, recheck) refl
          | inr e ↦ rw (e, recheck) refl
        ])
