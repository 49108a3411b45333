-- ===== src/Tests/Server.antt =====
-- The server of crates/server/src/main.rs on concrete arrived_packets.
use irohsion.Prelude.{ℕ, ◌≡◌, ◌≤◌, length, ◌+◌, ◌%◌, refl, List, [], ◌∷◌, some, true, arith, Bool}
use irohsion.Prelude.Map.{lookup}
use irohsion.Prelude.Parity.{xor_all, xor_into}
use irohsion.Protocol.{RepairRequest, FecFrame, max_media_sequence}
use irohsion.Server.Sequence.{sequence_after, sequence_after-mod}
use irohsion.Server.Assembly
use irohsion.Server.Assembly.{
  IsAssembly, Inserted, insert_fragment, insert_fragment-Inserted, new-IsAssembly,
}
use irohsion.Server.Skipped
use irohsion.Server.Skipped.{IsTracking, insert-IsTracking, contains, contains-insert}
use irohsion.Server.FecState.{FecState, BufferedPacket, recover_ready, payload_for}
use irohsion.Server.FecState.Recovery.{Covers, Among, recover_ready-Among}
use irohsion.Server.Window.{
  Event, Window, drain_ready, request_due_repairs, log_requests, max_repair_requests_per_tick,
}
use irohsion.Server.Window.Drain.{Drained, Returned, drain_ready-Drained}
use irohsion.Server.Window.Repairs.{request_due_repairs-bound}
use irohsion.Server.Window.Trace.{Orderly}
use irohsion.Server.Window.Yields.{Yields}
use irohsion.Server.Loop.{ReceivedPacket, Arrival, packet, timed_out, Config, reorder_loop, start}
use irohsion.Server.Loop.Order.{InOrder, reorder_loop-InOrder}

sequence_after-mod_example :
    sequence_after max_media_sequence 2 ≡ (max_media_sequence + 2) % (max_media_sequence + 1)
sequence_after-mod_example = sequence_after-mod 2 max_media_sequence (omega arith)

insert_fragment-Inserted_example :
    Inserted 1 (7 ∷ []) (Assembly.new 2 5) (insert_fragment 1 (7 ∷ []) (Assembly.new 2 5))
insert_fragment-Inserted_example =
    insert_fragment-Inserted 1 (7 ∷ []) (Assembly.new 2 5)
      (new-IsAssembly 2 5 (omega arith) (omega arith)) (unfold Assembly.new in omega arith)

empty-IsTracking : IsTracking Skipped.empty
empty-IsTracking = record {
  agrees = record { same = λ j. refl; distinct = tt };
  bounded = omega arith;
}

abbrev parity_frame : FecFrame
parity_frame = record { base_sequence = 4; payload_lengths = 2 ∷ 1 ∷ 2 ∷ []; parity = 6 ∷ 11 ∷ [] }

-- Packets 4 and 6 are known, 5 is lost.
abbrev state : FecState
state = record {
  frames = (4, parity_frame) ∷ [];
  frame_order = 4 ∷ [];
  payloads = (4, 1 ∷ 2 ∷ []) ∷ [];
  payload_order = 4 ∷ [];
}

abbrev buffer : List (ℕ × BufferedPacket)
buffer = (6, record { payload = 3 ∷ 9 ∷ []; received_at = 0 }) ∷ []

state-Covers :
    Covers
      (payload_for state buffer)
      parity_frame
      ((1 ∷ 2 ∷ []) ∷ [])
      (4 ∷ [])
      ((3 ∷ 9 ∷ []) ∷ [])
      2
unfolding xor_all xor_into payload_for lookup sequence_after
state-Covers = record {
  lengths = refl;
  parity = refl;
  bounded = ground arith;
  know_before = (refl, tt);
  know_after = (refl, tt);
  lacks = refl;
}

here : lookup 4 state.frames ≡ some parity_frame
unfolding lookup
here = refl

recover_ready-Among_example :
    (r : FecState × List (ℕ × List ℕ)) × (recover_ready 5 buffer state ≡ some r)
    × Among (sequence_after 4 1) (4 ∷ []) r.1
recover_ready-Among_example =
    recover_ready-Among 5 buffer state 4 parity_frame ((1 ∷ 2 ∷ []) ∷ []) (4 ∷ [])
      ((3 ∷ 9 ∷ []) ∷ []) 2 here state-Covers (unfold sequence_after in omega arith)

abbrev config : Config
config = record { repair = some 10; flow_idle_reset = 1000; max_reorder_delay = 100 }

abbrev single : ℕ → ReceivedPacket
single s = record {
  remote = 1 ∷ [];
  connection_id = 1;
  header = record { sequence = s; fragment = 0; fragments = 1 };
  payload = s ∷ [];
}

abbrev socket : List Event → List ℕ → Bool
socket log payload = true

-- Packet 5 comes late, and 4 never.
abbrev arrived_packets : List (ℕ × Arrival)
arrived_packets =
    (0, packet (single 3)) ∷ (1, packet (single 6)) ∷ (2, packet (single 5)) ∷ (200, timed_out) ∷ []

reorder_loop-InOrder_example :
    Yields InOrder Orderly Orderly (reorder_loop socket config arrived_packets start)
reorder_loop-InOrder_example = reorder_loop-InOrder socket config arrived_packets

-- Sequence 5 waits, 6 is missing and 7 waits behind it.
abbrev waiting_window : Window
waiting_window = record start {
  initialized = true;
  next_seq = 5;
  buffered =
      (5, record { payload = 1 ∷ []; received_at = 0 })
      ∷ (7, record { payload = 2 ∷ []; received_at = 0 })
      ∷ [];
}

drain_ready-Drained_example : Yields Drained Returned (λ _. ⊥) (drain_ready socket waiting_window)
drain_ready-Drained_example = drain_ready-Drained socket waiting_window

request_due_repairs-bound_example :
    let v = request_due_repairs 50 10 waiting_window in
    (v.next_seq ≡ 5)
    × (v.buffered ≡ waiting_window.buffered)
    × ((asked : List RepairRequest) × (v.log ≡ log_requests asked [])
        × (length asked ≤ max_repair_requests_per_tick))
request_due_repairs-bound_example = request_due_repairs-bound 50 10 waiting_window
