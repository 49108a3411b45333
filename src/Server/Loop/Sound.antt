-- ===== src/Server/Loop/Sound.antt =====
-- `reorder_loop` of crates/server/src/main.rs does not panic.
use irohsion.Prelude.{
  ℕ, ◌≤◌, ◌<◌, ◌≡◌, refl, ◌==◌, if◌then◌else◌, arith, Bool, true, false, not, List, [], ◌∷◌, Option,
  none, some, All, ltb, Bool-cases, Option-cases, inl, inr, ==_iff,
}
use irohsion.Prelude.Map.{lookup, insert, remove}
use irohsion.Protocol.{max_media_sequence, max_fragments}
use irohsion.Server.Assembly
use irohsion.Server.Assembly.{
  FragmentAssembly, IsAssembly, new-IsAssembly, insert_fragment, insert_fragment-Inserted, Inserted,
  is_complete, into_payload, fragments_count,
}
use irohsion.Server.Window.{
  Event, Window, running, recover_fec_ready, accept_complete_payload, has_pending_state,
}
use irohsion.Server.Window.Yields.{Yields-bind}
use irohsion.Server.Window.Sound.{
  Asked, IsEntry, IsSound, Sound, insert-IsEntry, remove-IsEntry, lookup-IsEntry,
  accept_complete_payload-Sound, recover_fec_ready-Sound, advance_reorder_window-Sound,
}
use irohsion.Server.Loop.Cases.{admit_cases}
use irohsion.Server.Loop.{
  ReceivedPacket, ReceivedFecFrame, Arrival, packet, fec, timed_out, Config, start, begin_flow,
  admit, Assembled, complete, waiting, rejected, broken, settle_fragment, assemble, handle_timeout,
  handle_fec, deliver, handle_packet, round, recover_and_advance, advance, reorder_loop, reset_idle,
  restart_flow, record_duplicate,
}

-- What decoding promises of a packet.
abbrev pub IsPacket : ReceivedPacket → Type 0
IsPacket p =
    (p.header.sequence ≤ max_media_sequence)
    × (p.header.fragment < p.header.fragments)
    × (p.header.fragments ≤ max_fragments)

abbrev pub IsArrival : Arrival → Type 0
IsArrival (packet p) = IsPacket p
IsArrival (fec f) = Unit {0}
IsArrival timed_out = Unit {0}

begin_flow-IsSound :
    (p : ReceivedPacket) (w : Window) → IsPacket p → IsSound w → IsSound (begin_flow p w)
unfolding begin_flow
begin_flow-IsSound p w h v = elim (Bool-cases w.initialized) [
  | inl going ↦
      rw (going, begin_flow)
        (record { position = v.position; entries = v.entries; asked = v.asked })
  | inr new ↦ rw (new, begin_flow) (record { position = h.0; entries = v.entries; asked = v.asked })
]

admit-IsSound : (p : ReceivedPacket) (w : Window) → IsPacket p → IsSound w → IsSound (admit p w).1
admit-IsSound p w h v =
    admit_cases (λ r. IsSound r.1) p w
      (λ _ _ _. unfold restart_flow in record { position = h.0; entries = tt; asked = v.asked })
      (λ d _. record { position = v.position; entries = v.entries; asked = v.asked })
      (λ d _. record { position = v.position; entries = v.entries; asked = v.asked })
      (λ _. record { position = v.position; entries = v.entries; asked = v.asked })
      (λ _ _ _. record { position = v.position; entries = v.entries; asked = v.asked })

-- The fragment tables never break.
abbrev Whole : Assembled → Type 0
Whole (complete payload w) = IsSound w
Whole (waiting w) = IsSound w
Whole (rejected w) = IsSound w
Whole broken = ⊥

-- The entry that a fragment goes to.
entry-IsAssembly :
    (now : ℕ) (p : ReceivedPacket) (w : Window)
    → IsPacket p
    → IsSound w
    → not (p.header.fragments == 1) ≡ true
    → IsAssembly (elim (lookup p.header.sequence w.fragments) [
      | none ↦ Assembly.new p.header.fragments now
      | some old ↦ old
    ])
entry-IsAssembly now p w h v several = elim (Option-cases (lookup p.header.sequence w.fragments)) [
  | inl e ↦ rw e (new-IsAssembly p.header.fragments now (ground (arith, h, several)) h.2)
  | inr (a, e) ↦ rw e (lookup-IsEntry p.header.sequence w.fragments a v.entries e)
]

settle_duplicate :
    (s : ℕ) (entry : FragmentAssembly) (w : Window)
    → IsSound w
    → IsEntry (s, entry)
    → Whole (settle_fragment s entry false w)
unfolding settle_fragment
settle_duplicate s entry w v k = record {
  position = v.position;
  entries = insert-IsEntry s entry w.fragments k v.entries;
  asked = v.asked;
}

settle_waiting :
    (s : ℕ) (entry : FragmentAssembly) (w : Window)
    → IsSound w
    → IsEntry (s, entry)
    → is_complete entry ≡ false
    → Whole (settle_fragment s entry true w)
unfolding settle_fragment
settle_waiting s entry w v k e =
    rw (e, settle_fragment)
      (record {
        position = v.position;
        entries = insert-IsEntry s entry w.fragments k v.entries;
        asked = v.asked;
      })

-- Taking out the entry that was just put in leaves entries of the table.
remove-insert-IsEntry :
    (k : ℕ) (a : FragmentAssembly) (m : List (ℕ × FragmentAssembly))
    → All IsEntry m
    → All IsEntry (remove k (insert k a m))
unfolding remove insert
remove-insert-IsEntry k a [] h = ground arith
remove-insert-IsEntry k a ((j, b) ∷ m) h = elim (Bool-cases (j == k)) [
  | inl same ↦ rw (same, self) (remove-IsEntry k m h.1)
  | inr other ↦ elim (Bool-cases (ltb k j)) [
    | inl less ↦ rw (other, less, self, other) (h.0, remove-IsEntry k m h.1)
    | inr more ↦ rw (other, more, other) (h.0, remove-insert-IsEntry k a m h.1)
  ]
]
  where
    self : (k == k) ≡ true
    self = (==_iff k k).1 refl

settle_complete :
    (s : ℕ) (entry : FragmentAssembly) (payload : List ℕ) (w : Window)
    → IsSound w
    → is_complete entry ≡ true
    → into_payload entry ≡ some payload
    → Whole (settle_fragment s entry true w)
unfolding settle_fragment
settle_complete s entry payload w v full joined =
    rw (full, joined, settle_fragment)
      (record {
        position = v.position;
        entries = remove-insert-IsEntry s entry w.fragments v.entries;
        asked = v.asked;
      })

-- What the insertion leads to.
Inserted-Whole :
    (s i : ℕ) (p : List ℕ) (a : FragmentAssembly) (w : Window)
    (result : Option (FragmentAssembly × Bool))
    → s ≤ max_media_sequence
    → IsSound w
    → IsAssembly a
    → Inserted i p a result
    → Whole (elim result [ none ↦ broken | some (entry, fresh) ↦ settle_fragment s entry fresh w ])
Inserted-Whole s i p a w result h v k (inl (f, held, old)) =
    rw old (settle_duplicate s a w v (h, k))
Inserted-Whole s i p a w result h v k (inr (b, free, e, filled, inl (waits, unfull))) =
    rw e (settle_waiting s b w v (h, waits) unfull)
Inserted-Whole s i p a w result h v k (inr (b, free, e, filled, inr (full, payload, joined))) =
    rw e (settle_complete s b payload w v full joined)

assemble-Whole :
    (now : ℕ) (p : ReceivedPacket) (w : Window) → IsPacket p → IsSound w → Whole (assemble now p w)
unfolding assemble
assemble-Whole now p w h v = elim (Bool-cases (p.header.fragments == 1)) [
  | inl one ↦
      rw (one, assemble)
        (record {
          position = v.position;
          entries = remove-IsEntry p.header.sequence w.fragments v.entries;
          asked = v.asked;
        })
  | inr several ↦
      rw (several, assemble) (into_entry _ (entry-IsAssembly now p w h v (ground (arith, several))))
]
  where
    into_entry :
        (entry : FragmentAssembly)
        → IsAssembly entry
        → Whole (
            if not (fragments_count entry == p.header.fragments)
            then rejected (record_duplicate w)
            else elim (insert_fragment p.header.fragment p.payload entry) [
              | none ↦ broken
              | some (entry', fresh) ↦ settle_fragment p.header.sequence entry' fresh w
            ])
    into_entry entry k = elim (Bool-cases (fragments_count entry == p.header.fragments)) [
      | inl same ↦ rw same (
          Inserted-Whole p.header.sequence p.header.fragment p.payload entry w _ h.0 v k (
            insert_fragment-Inserted p.header.fragment p.payload entry k
              (unfold fragments_count in ground (arith, same, h))))
      | inr other ↦
          rw other (record { position = v.position; entries = v.entries; asked = v.asked })
    ]

module _ (socket : List Event → List ℕ → Bool) (config : Config) where
  advance-Sound : (now : ℕ) (w : Window) → IsSound w → Sound (advance socket config now w)
  advance-Sound now w v =
      advance_reorder_window-Sound socket now config.repair config.max_reorder_delay w v

  recover_and_advance-Sound :
      (now : ℕ) (w : Window) → IsSound w → Sound (recover_and_advance socket config now w)
  unfolding recover_and_advance
  recover_and_advance-Sound now w v =
      Yields-bind Asked (λ _. ⊥) IsSound IsSound (recover_fec_ready socket now w)
        (advance socket config now) (recover_fec_ready-Sound socket now w v) (advance-Sound now)

  deliver-Sound :
      (now s : ℕ) (a : Assembled) (log : List Event)
      → Whole a
      → Sound (deliver socket config now s a log)
  unfolding deliver
  deliver-Sound now s (complete payload w) log v =
      Yields-bind Asked (λ _. ⊥) IsSound IsSound (accept_complete_payload socket now s payload w)
        (recover_and_advance socket config now)
        (accept_complete_payload-Sound socket now s payload w v) (recover_and_advance-Sound now)
  deliver-Sound now s (waiting w) log v = advance-Sound now w v
  deliver-Sound now s (rejected w) log v = v
  deliver-Sound now s broken log v = v

  handle_packet-Sound :
      (now : ℕ) (p : ReceivedPacket) (w : Window)
      → IsPacket p
      → IsSound w
      → Sound (handle_packet socket config now p w)
  unfolding handle_packet
  handle_packet-Sound now p w h v =
      go (admit p (begin_flow p w)) (admit-IsSound p _ h (begin_flow-IsSound p w h v))
    where
      go :
          (r : Bool × Window)
          → IsSound r.1
          → Sound (
              if r.0
              then deliver socket config now p.header.sequence (assemble now p r.1) r.1.log
              else running r.1)
      go (true, u) k =
          deliver-Sound now p.header.sequence (assemble now p u) u.log (assemble-Whole now p u h k)
      go (false, u) k = k

  handle_fec-Sound :
      (now : ℕ) (f : ReceivedFecFrame) (w : Window)
      → IsSound w
      → Sound (handle_fec socket config now f w)
  unfolding handle_fec
  handle_fec-Sound now f w v = elim (Bool-cases w.initialized) [
    | inl going ↦
        rw (going, handle_fec)
          (recover_and_advance-Sound now _
            (record { position = v.position; entries = v.entries; asked = v.asked }))
    | inr idle ↦
        rw (idle, handle_fec)
          (record { position = v.position; entries = v.entries; asked = v.asked })
  ]

  handle_timeout-Sound :
      (now : ℕ) (w : Window) → IsSound w → Sound (handle_timeout socket config now w)
  unfolding handle_timeout reset_idle
  handle_timeout-Sound now w v = go w.initialized (has_pending_state w)
    where
      go :
          (b pending : Bool)
          → Sound (
              if not b
              then running w
              else if pending
              then advance socket config now w
              else running (reset_idle w))
      go false pending = v
      go true true = advance-Sound now w v
      go true false = record { position = omega arith; entries = v.entries; asked = v.asked }

  round-Sound :
      (now : ℕ) (a : Arrival) (w : Window)
      → IsArrival a
      → IsSound w
      → Sound (round socket config now a w)
  unfolding round
  round-Sound now (packet p) w h v = handle_packet-Sound now p w h v
  round-Sound now (fec f) w h v = handle_fec-Sound now f w v
  round-Sound now timed_out w h v = handle_timeout-Sound now w v

  runs-Sound :
      (history : List (ℕ × Arrival)) (w : Window)
      → All (λ e. IsArrival e.1) history
      → IsSound w
      → Sound (reorder_loop socket config history w)
  unfolding reorder_loop
  runs-Sound [] w h v = v
  runs-Sound ((now, a) ∷ rest) w h v =
      Yields-bind Asked (λ _. ⊥) IsSound IsSound (round socket config now a w) _
        (round-Sound now a w h.0 v) (λ u k. runs-Sound rest u h.1 k)

  start-IsSound : IsSound start
  start-IsSound = record { position = omega arith; entries = tt; asked = tt }

  pub reorder_loop-Sound :
      (history : List (ℕ × Arrival))
      → All (λ e. IsArrival e.1) history
      → Sound (reorder_loop socket config history start)
  reorder_loop-Sound history h = runs-Sound history start h start-IsSound
