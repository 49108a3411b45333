-- ===== src/Server/Loop/Order.antt =====
-- The order of the server's output over a whole run of `reorder_loop`.
use irohsion.Prelude.{
  ℕ, ◌≡◌, refl, if◌then◌else◌, arith, Bool, true, false, not, List, [], ◌∷◌, Bool-cases, inl, inr,
}
use irohsion.Server.Assembly.{FragmentAssembly}
use irohsion.Server.Window.{
  Event, Window, Outcome, running, stopped, panicked, recover_fec_ready, accept_complete_payload,
  has_pending_state,
}
use irohsion.Server.Loop.Cases.{admit_cases}
use irohsion.Server.Window.Yields.{Yields, Yields-bind}
use irohsion.Server.Window.Trace.{
  Orderly, InTrace, accept_complete_payload-Keeps, recover_fec_ready-Keeps,
  advance_reorder_window-Keeps,
}
use irohsion.Server.Loop.{
  ReceivedPacket, ReceivedFecFrame, Arrival, packet, fec, timed_out, Config, start, begin_flow,
  admit, EachAssembled, Assembled, complete, waiting, rejected, broken, settle_fragment, assemble,
  handle_timeout, handle_fec, deliver, handle_packet, round, recover_and_advance, advance,
  reorder_loop, reset_idle, restart_flow,
}

-- A window whose log is in order, and leads up to `next_seq` while a flow runs.
pub record InOrder (w : Window) : Type 0 where
  pub orderly : Orderly w.log
  pub current : w.initialized ≡ true → InTrace w

InTrace-InOrder : (w : Window) → InTrace w → InOrder w
InTrace-InOrder w h = record { orderly = (w.next_seq, h); current = λ _. h }

begin_flow-InTrace : (p : ReceivedPacket) (w : Window) → InOrder w → InTrace (begin_flow p w)
unfolding begin_flow
begin_flow-InTrace p w h = elim (Bool-cases w.initialized) [
  | inl going ↦ rw (going, begin_flow) (h.current going)
  | inr new ↦ rw (new, begin_flow) (refl, h.orderly.0, h.orderly.1)
]

admit-InTrace : (p : ReceivedPacket) (w : Window) → InTrace w → InTrace (admit p w).1
admit-InTrace p w h =
    admit_cases (λ r. InTrace r.1) p w (λ _ _ _. unfold restart_flow in (refl, w.next_seq, h))
      (λ d _. h) (λ d _. h) (λ _. h) (λ _ _ _. h)

settle_fragment-InTrace :
    (s : ℕ) (entry : FragmentAssembly) (fresh : Bool) (w : Window)
    → InTrace w
    → EachAssembled InTrace (settle_fragment s entry fresh w)
unfolding settle_fragment
settle_fragment-InTrace s entry fresh w h = ground arith

assemble-InTrace :
    (now : ℕ) (p : ReceivedPacket) (w : Window)
    → InTrace w
    → EachAssembled InTrace (assemble now p w)
unfolding assemble
assemble-InTrace now p w h = ground arith

module _ (socket : List Event → List ℕ → Bool) (config : Config) where
  abbrev Orders : Outcome Window → Type 0
  Orders = Yields InTrace Orderly Orderly

  advance-Orders : (now : ℕ) (w : Window) → InTrace w → Orders (advance socket config now w)
  advance-Orders now w h =
      advance_reorder_window-Keeps socket now config.repair config.max_reorder_delay w h

  recover_and_advance-Orders :
      (now : ℕ) (w : Window) → InTrace w → Orders (recover_and_advance socket config now w)
  unfolding recover_and_advance
  recover_and_advance-Orders now w h =
      Yields-bind Orderly Orderly InTrace InTrace (recover_fec_ready socket now w)
        (advance socket config now) (recover_fec_ready-Keeps socket now w h) (advance-Orders now)

  deliver-Orders :
      (now s : ℕ) (a : Assembled) (log : List Event)
      → EachAssembled InTrace a
      → Orderly log
      → Orders (deliver socket config now s a log)
  unfolding deliver
  deliver-Orders now s (complete payload w) log h o =
      Yields-bind Orderly Orderly InTrace InTrace (accept_complete_payload socket now s payload w)
        (recover_and_advance socket config now)
        (accept_complete_payload-Keeps socket now s payload w h) (recover_and_advance-Orders now)
  deliver-Orders now s (waiting w) log h o = advance-Orders now w h
  deliver-Orders now s (rejected w) log h o = h
  deliver-Orders now s broken log h o = o

  handle_packet-Orders :
      (now : ℕ) (p : ReceivedPacket) (w : Window)
      → InOrder w
      → Orders (handle_packet socket config now p w)
  unfolding handle_packet
  handle_packet-Orders now p w h =
      go (admit p (begin_flow p w)) (admit-InTrace p _ (begin_flow-InTrace p w h))
    where
      go :
          (r : Bool × Window)
          → InTrace r.1
          → Orders (
              if r.0
              then deliver socket config now p.header.sequence (assemble now p r.1) r.1.log
              else running r.1)
      go (true, v) k =
          deliver-Orders now p.header.sequence (assemble now p v) v.log (assemble-InTrace now p v k)
            (v.next_seq, k)
      go (false, v) k = k

  handled : (o : Outcome Window) → Orders o → Yields InOrder Orderly Orderly o
  handled (running w) h = InTrace-InOrder w h
  handled (stopped log) h = h
  handled (panicked log) h = h

  handle_fec-InOrder :
      (now : ℕ) (f : ReceivedFecFrame) (w : Window)
      → InOrder w
      → Yields InOrder Orderly Orderly (handle_fec socket config now f w)
  unfolding handle_fec
  handle_fec-InOrder now f w h = elim (Bool-cases w.initialized) [
    | inl going ↦
        rw (going, handle_fec)
          (handled (recover_and_advance socket config now _)
            (recover_and_advance-Orders now _ (h.current going)))
    | inr idle ↦ rw (idle, handle_fec) (record { orderly = h.orderly; current = λ going. cc })
  ]

  handle_timeout-InOrder :
      (now : ℕ) (w : Window)
      → InOrder w
      → Yields InOrder Orderly Orderly (handle_timeout socket config now w)
  unfolding handle_timeout reset_idle
  handle_timeout-InOrder now w h = go w.initialized (has_pending_state w) refl
    where
      go :
          (b pending : Bool)
          → w.initialized ≡ b
          → Yields InOrder Orderly Orderly (
              if not b
              then running w
              else if pending
              then advance socket config now w
              else running (reset_idle w))
      go false pending e = h
      go true true e = handled (advance socket config now w) (advance-Orders now w (h.current e))
      go true false e = record { orderly = h.orderly; current = λ impossible. cc }

  round-InOrder :
      (now : ℕ) (a : Arrival) (w : Window)
      → InOrder w
      → Yields InOrder Orderly Orderly (round socket config now a w)
  unfolding round
  round-InOrder now (packet p) w h =
      handled (handle_packet socket config now p w) (handle_packet-Orders now p w h)
  round-InOrder now (fec f) w h = handle_fec-InOrder now f w h
  round-InOrder now timed_out w h = handle_timeout-InOrder now w h

  runs-InOrder :
      (history : List (ℕ × Arrival)) (w : Window)
      → InOrder w
      → Yields InOrder Orderly Orderly (reorder_loop socket config history w)
  unfolding reorder_loop
  runs-InOrder [] w h = h
  runs-InOrder ((now, a) ∷ rest) w h =
      Yields-bind Orderly Orderly InOrder InOrder (round socket config now a w) _
        (round-InOrder now a w h) (runs-InOrder rest)

  start-InOrder : InOrder start
  start-InOrder = record { orderly = (0, tt); current = λ e. tt }

  -- In every run of the loop from its start, whatever arrives, whenever the socket fails and
  -- whether the loop goes on, returns or panics, the log is in order: since the start of each flow
  -- the server forwards or skips the consecutive sequences (modulo the wrap of `next_sequence`),
  -- each once; and while a flow runs, `next_seq` follows the last of them.
  pub reorder_loop-InOrder :
      (history : List (ℕ × Arrival))
      → Yields InOrder Orderly Orderly (reorder_loop socket config history start)
  reorder_loop-InOrder history = runs-InOrder history start start-InOrder
