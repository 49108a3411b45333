-- ===== src/Server/Window.antt =====
-- The reorder window of crates/server/src/main.rs: the locals of `reorder_loop` as a record, and the
-- functions that take them by `&mut`: accept, recover, repair, expire and drain.
-- One clock reading serves a whole round of the loop. What a round does to the outside, calls of
-- `ctx` and datagrams, is the log, newest first. `socket log payload` says whether `send_to`
-- succeeds; when it fails, `reorder_loop` returns and only the log is left.
pub mod Yields
pub mod Expire
pub mod Trace
pub mod Drain
pub mod Repairs
pub mod Sound
use irohsion.Prelude.{
  ℕ, zero, suc, ◌+◌, ◌-◌, ◌≤◌, ◌<◌, ◌≡◌, refl, ◌==◌, if◌then◌else◌, ltb, leb, arith, Bool, true,
  false, not, ◌&&◌, ◌||◌, List, [], ◌∷◌, ◌++◌, map, Option, none, some, length, min, max_of,
}
use irohsion.Prelude.Map.{lookup, insert, remove, contains_key, keys, values, member, add, discard}
use irohsion.Protocol.{repair_all_fragments_mask, RepairRequest}
use irohsion.Server.Sequence.{next_sequence}
use irohsion.Server.Assembly.{FragmentAssembly, missing_mask}
use irohsion.Server.Skipped.{RecentSkippedSequences}
use irohsion.Server.Skipped
use irohsion.Server.Restart.{RestartDetector}
use irohsion.Server.FecState.{FecState, BufferedPacket, insert_payload, recover_ready}

pub data SkipReason : Type 0 where
  never_received fragment_incomplete : SkipReason

pub data Event : Type 0 where
  received : ℕ → Event
  forwarded : ℕ → List ℕ → Event
  skipped : SkipReason → ℕ → Event
  buffered_at : ℕ → ℕ → Event
  duplicate : ℕ → ℕ → Event
  late_after_skip : ℕ → ℕ → ℕ → Event
  flow_start : ℕ → Event
  flow_reset : ℕ → Event
  fec_recovered : ℕ → ℕ → Event
  repair_requested : RepairRequest → Event

pub record Window : Type 0 where
  pub initialized : Bool
  pub next_seq : ℕ
  pub buffered : List (ℕ × BufferedPacket)
  pub fragments : List (ℕ × FragmentAssembly)
  pub seen : List ℕ
  pub skipped_sequences : RecentSkippedSequences
  pub gap_repair_requests : List (ℕ × ℕ)
  pub restart_detector : RestartDetector
  pub flow_connections : List ℕ
  pub fec_state : FecState
  pub reply_routes : List (List ℕ)
  pub log : List Event

-- `stopped` is a return of `reorder_loop` with an error; `panicked` is a panic of its task.
pub data Outcome (A : Type 0) : Type 0 where
  running : A → Outcome A
  stopped : List Event → Outcome A
  panicked : List Event → Outcome A

infixl 5 ◌>>=◌
abbrev pub ◌>>=◌ : {A B : Type 0} → Outcome A → (A → Outcome B) → Outcome B
running a >>= f = f a
stopped log >>= f = stopped log
panicked log >>= f = panicked log

abbrev pub max_repair_requests_per_tick : ℕ
max_repair_requests_per_tick = 64

unfoldable pub has_pending_state : Window → Bool
has_pending_state w =
    not ((length w.buffered == 0 && length w.fragments == 0) && length w.seen == 0)

unfoldable pub skip_sequence : SkipReason → Window → Window
skip_sequence reason w = record w {
  next_seq = next_sequence w.next_seq;
  gap_repair_requests = remove w.next_seq w.gap_repair_requests;
  skipped_sequences = Skipped.insert w.next_seq w.skipped_sequences;
  log = skipped reason w.next_seq ∷ w.log;
}

-- `.min()` over the instants of everything that waits.
unfoldable pub oldest : List ℕ → Option ℕ
oldest [] = none
oldest (t ∷ ts) = elim (oldest ts) [ none ↦ some t | some u ↦ some (min t u) ]

unfoldable pub pending_times : Window → List ℕ
pending_times w =
    map (λ p. p.received_at) (values w.buffered) ++ map (λ a. a.first_seen) (values w.fragments)

unfoldable pub drop_fragment : Window → Window
drop_fragment w = record w {
  fragments = remove w.next_seq w.fragments;
  seen = discard w.next_seq w.seen;
}

-- One round of the loop of `expire_reorder_gap`: `none` is `break`.
unfoldable pub expire_round : ℕ → ℕ → Window → Option Window
unfolding skip_sequence oldest pending_times drop_fragment
expire_round now max_reorder_delay w =
    if contains_key w.next_seq w.buffered then none else elim (lookup w.next_seq w.fragments) [
      | some assembly ↦
          if ltb (now - assembly.first_seen) max_reorder_delay
          then none
          else some (skip_sequence fragment_incomplete (drop_fragment w))
      | none ↦ elim (oldest (pending_times w)) [
        | none ↦ none
        | some since ↦
            if ltb (now - since) max_reorder_delay
            then none
            else some (skip_sequence never_received w)
      ]
    ]

unfoldable pub expire_loop : ℕ → ℕ → ℕ → Window → Window
expire_loop now max_reorder_delay zero w = w
expire_loop now max_reorder_delay (suc fuel) w = elim (expire_round now max_reorder_delay w) [
  | none ↦ w
  | some w' ↦ expire_loop now max_reorder_delay fuel w'
]

-- The loop skips at most the sequences up to the largest one that waits.
unfoldable pub expire_fuel : Window → ℕ
expire_fuel w = max_of (keys w.buffered ++ keys w.fragments) + 2 - w.next_seq

unfoldable pub expire_reorder_gap : ℕ → ℕ → Window → Window
unfolding expire_fuel expire_loop
expire_reorder_gap now max_reorder_delay w = expire_loop now max_reorder_delay (expire_fuel w) w

-- The loop over the fragments in `request_due_repairs`; `count` requests are made already.
unfoldable pub due_fragments :
    ℕ → ℕ → ℕ → List (ℕ × FragmentAssembly) → List (ℕ × FragmentAssembly) × List RepairRequest
due_fragments now interval count [] = ([], [])
due_fragments now interval count ((sequence, assembly) ∷ rest) =
    let recent : Bool = elim assembly.last_repair_request [
      | none ↦ false
      | some last ↦ ltb (now - last) interval
    ] in
    let mask = missing_mask assembly in
    let due = not (recent || mask == 0) in
    let later = due_fragments now interval (if due then count + 1 else count) rest in
    if leb max_repair_requests_per_tick count
    then ((sequence, assembly) ∷ rest, [])
    else if due
    then (
      (sequence, record assembly { last_repair_request = some now }) ∷ later.0,
      record { sequence = sequence; missing_mask = mask } ∷ later.1,
    )
    else ((sequence, assembly) ∷ later.0, later.1)

-- Whether the gap at `next_seq` itself is asked for.
unfoldable pub gap_due : ℕ → ℕ → Window → Bool
gap_due now interval w =
    not (contains_key w.next_seq w.buffered)
    && (not (contains_key w.next_seq w.fragments)
        && (not (length w.buffered == 0 && length w.fragments == 0)
            && elim (lookup w.next_seq w.gap_repair_requests) [
              | none ↦ true
              | some last ↦ leb interval (now - last)
            ]))

abbrev pub log_requests : List RepairRequest → List Event → List Event
log_requests [] log = log
log_requests (r ∷ rs) log = log_requests rs (repair_requested r ∷ log)

unfoldable pub gap_request : ℕ → ℕ → Window → List RepairRequest
unfolding gap_due
gap_request now interval w =
    if gap_due now interval w
    then record { sequence = w.next_seq; missing_mask = repair_all_fragments_mask } ∷ []
    else []

-- The loop over the fragments, with what it asks for.
unfoldable pub fragment_requests : ℕ → ℕ → Window → List (ℕ × FragmentAssembly) × List RepairRequest
unfolding due_fragments gap_request
fragment_requests now interval w =
    due_fragments now interval (length (gap_request now interval w)) w.fragments

unfoldable pub request_due_repairs : ℕ → ℕ → Window → Window
unfolding fragment_requests
request_due_repairs now interval w = record w {
  gap_repair_requests =
      if gap_due now interval w
      then insert w.next_seq now w.gap_repair_requests
      else w.gap_repair_requests;
  fragments = (fragment_requests now interval w).0;
  log = log_requests (gap_request now interval w ++ (fragment_requests now interval w).1) w.log;
}

module _ (socket : List Event → List ℕ → Bool) where
  -- `forward_payload` of the payload of `sequence`, and the bookkeeping that follows a datagram that
  -- was sent: the window moves on from where it is, whatever `sequence` was sent.
  unfoldable pub forward : ℕ → List ℕ → Window → Outcome Window
  forward sequence payload w =
      if socket w.log payload
      then running (record w {
        log = forwarded sequence payload ∷ w.log;
        seen = discard sequence w.seen;
        next_seq = next_sequence w.next_seq;
      })
      else stopped w.log

  -- The body of the loop of `drain_ready`, on the packet at `next_seq`.
  unfoldable pub drain_one : BufferedPacket → Window → Outcome Window
  unfolding forward
  drain_one packet w = forward w.next_seq packet.payload (record w {
    buffered = remove w.next_seq w.buffered;
    gap_repair_requests = remove w.next_seq w.gap_repair_requests;
    fec_state = insert_payload w.next_seq packet.payload w.fec_state;
  })

  unfoldable pub drain_loop : ℕ → Window → Outcome Window
  drain_loop zero w = running w
  drain_loop (suc fuel) w = elim (lookup w.next_seq w.buffered) [
    | none ↦ running w
    | some packet ↦ drain_one packet w >>= λ w'. drain_loop fuel w'
  ]

  -- Every round takes a packet out of `buffered`.
  unfoldable pub drain_ready : Window → Outcome Window
  unfolding drain_loop
  drain_ready w = drain_loop (length w.buffered) w

  unfoldable pub accept_complete_payload : ℕ → ℕ → List ℕ → Window → Outcome Window
  unfolding forward
  accept_complete_payload now sequence payload w =
      let w' : Window = record w {
        seen = add sequence w.seen;
        fec_state = insert_payload sequence payload w.fec_state;
      } in
      if sequence == w.next_seq
      then forward sequence payload
          (record w' { gap_repair_requests = remove sequence w.gap_repair_requests })
        >>= drain_ready
      else running (record w' {
        buffered = insert sequence (record { payload = payload; received_at = now }) w.buffered;
        log =
            buffered_at
              (length
                (insert sequence (record { payload = payload; received_at = now }) w.buffered))
              w.next_seq
            ∷ w.log;
      })

  -- The `for (sequence, payload) in recovered` loop, with its `accepted` flag.
  unfoldable pub accept_all : ℕ → List (ℕ × List ℕ) → Bool → Window → Outcome (Bool × Window)
  accept_all now [] accepted w = running (accepted, w)
  accept_all now ((sequence, payload) ∷ rest) accepted w =
      elim (ltb sequence w.next_seq
        || (member sequence w.seen || contains_key sequence w.buffered)) [
          | true ↦ accept_all now rest accepted w
          | false ↦
              accept_complete_payload now sequence payload (record w {
                fragments = remove sequence w.fragments;
                log = fec_recovered sequence (length payload) ∷ w.log;
              })
              >>= λ w'. accept_all now rest true w'
        ]

  -- One round of the loop of `recover_fec_ready`: nothing recovered is nothing accepted.
  unfoldable pub recover_round : ℕ → Window → Outcome (Bool × Window)
  unfolding accept_all
  recover_round now w = elim (recover_ready w.next_seq w.buffered w.fec_state) [
    | none ↦ panicked w.log
    | some (fec_state, packets) ↦ accept_all now packets false (record w { fec_state = fec_state })
  ]

  unfoldable pub recover_loop : ℕ → ℕ → Window → Outcome Window
  recover_loop now zero w = running w
  recover_loop now (suc fuel) w = recover_round now w >>= λ r. elim r.0 [
    | true ↦ recover_loop now fuel r.1
    | false ↦ running r.1
  ]

  -- Every round that recovers a packet uses up a frame.
  unfoldable pub recover_fec_ready : ℕ → Window → Outcome Window
  unfolding recover_loop
  recover_fec_ready now w = recover_loop now (length w.fec_state.frames + 1) w

  unfoldable pub advance_reorder_window : ℕ → Option ℕ → ℕ → Window → Outcome Window
  advance_reorder_window now repair max_reorder_delay w = recover_fec_ready now w >>= λ w'.
      drain_ready (
        expire_reorder_gap now max_reorder_delay
          (elim repair [ none ↦ w' | some interval ↦ request_due_repairs now interval w' ]))
