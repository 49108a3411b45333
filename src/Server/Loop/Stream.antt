-- ===== src/Server/Loop/Stream.antt =====
-- `reorder_loop` of crates/server/src/main.rs on a link that loses nothing: packets of one fragment that
-- arrive in order, with late copies in between.
use irohsion.Prelude.{append-nil, append_assoc}
use irohsion.Prelude.{ℕ, ◌+◌, ◌<◌, ◌≡◌, refl, sym, ap, ◌∙◌, Bool, true, List, [], ◌∷◌, ◌++◌, length}
use irohsion.Server.Sequence.{next_sequence}
use irohsion.Server.Window.{
  Event, received, forwarded, duplicate, flow_start, Window, Outcome, running, stopped, panicked,
}
use irohsion.Server.Loop.{ReceivedPacket, Arrival, packet, Config, start, round, reorder_loop}
use irohsion.Server.Loop.Calm.{
  Rest, calm, outputs, Lossless, begun, first, handle_packet-calm, begin_flow-calm,
  begin_flow-first, late_calm,
}

-- What the link hands to the server from `n` on: each chunk in a packet of its own, in order, and in
-- between copies of packets that came before, at most 4095 sequences back.
pub data Stream : ℕ → List (List ℕ) → List (ℕ × Arrival) → Type 0 where
  ended : (n : ℕ) → Stream n [] []
  next :
      {cs : List (List ℕ)} {rest : List (ℕ × Arrival)} (now : ℕ) (p : ReceivedPacket)
      → p.header.fragments ≡ 1
      → Stream (next_sequence p.header.sequence) cs rest
      → Stream p.header.sequence (p.payload ∷ cs) ((now, packet p) ∷ rest)
  again :
      {n : ℕ} {cs : List (List ℕ)} {rest : List (ℕ × Arrival)} (now : ℕ) (p : ReceivedPacket)
      → p.header.sequence < n
      → n < p.header.sequence + 4096
      → Stream n cs rest
      → Stream n cs ((now, packet p) ∷ rest)

module _ (socket : List Event → List ℕ → Bool) (config : Config)
    (sent : (log : List Event) (payload : List ℕ) → socket log payload ≡ true) where
  -- The run ends in a window that has forwarded the chunks after what it had forwarded before.
  abbrev pub Forwards : List (List ℕ) → List Event → Outcome Window → Type 0
  Forwards cs log (stopped _) = ⊥
  Forwards cs log (panicked _) = ⊥
  Forwards cs log (running w) =
      (outputs w.log ≡ outputs log ++ cs) × (Lossless log → Lossless w.log)

  -- A run after one that forwarded `front`.
  Forwards-after :
      (o : Outcome Window) (front cs : List (List ℕ)) (log log' : List Event)
      → outputs log' ≡ outputs log ++ front
      → (Lossless log → Lossless log')
      → Forwards cs log' o
      → Forwards (front ++ cs) log o
  Forwards-after (stopped _) front cs log log' e k h = h
  Forwards-after (panicked _) front cs log log' e k h = h
  Forwards-after (running w) front cs log log' e k h =
      (h.0 ∙ ap (λ t. t ++ cs) e ∙ append_assoc (outputs log) front cs, λ clean. h.1 (k clean))

  runs :
      {n : ℕ} {cs : List (List ℕ)} {arrivals : List (ℕ × Arrival)} (r : Rest)
      → Stream n cs arrivals
      → Forwards cs r.log (reorder_loop socket config arrivals (calm n r))
  unfolding reorder_loop round
  runs r (ended n) = (sym (append-nil (outputs r.log)), λ clean. clean)
  runs r (next {cs = cs} now p f rest) =
      rw
        (handle_packet-calm socket config now p (calm p.header.sequence r) (begun socket config p r)
          (begin_flow-calm socket config p.header.sequence p r) f (sent _ p.payload))
        (Forwards-after _ (p.payload ∷ []) cs r.log
          (forwarded p.header.sequence p.payload ∷ received (length p.payload) ∷ r.log) refl
          (λ clean. clean) (runs _ rest))
  runs r (again {n = n} {cs = cs} now p below near rest) =
      rw (late_calm socket config now n p r below near) (
        Forwards-after _ [] cs r.log (duplicate 0 n ∷ received (length p.payload) ∷ r.log)
          (sym (append-nil (outputs r.log))) (λ clean. clean) (runs _ rest))

  -- On a link that loses nothing the server adds nothing, drops nothing and waits for nothing, as
  -- long as its socket works: when a server that has just started gets a packet of one fragment,
  -- then one for each of the sequences that follow, in order, and in between packets below the
  -- expected sequence by less than 4096, as late copies are, on whatever connections and at
  -- whatever times, then the loop forwards the payloads of the former, each once and in order,
  -- skips none, and asks for none again.
  pub reorder_loop-Stream :
      (now : ℕ) (p : ReceivedPacket) (cs : List (List ℕ)) (arrivals : List (ℕ × Arrival))
      → p.header.fragments ≡ 1
      → Stream (next_sequence p.header.sequence) cs arrivals
      → Forwards (p.payload ∷ cs) [] (reorder_loop socket config ((now, packet p) ∷ arrivals) start)
  unfolding reorder_loop round
  reorder_loop-Stream now p cs arrivals f rest =
      rw
        (handle_packet-calm socket config now p start (first socket config p)
          (begin_flow-first socket config p) f (sent _ p.payload))
        (Forwards-after _ (p.payload ∷ []) cs []
          (forwarded p.header.sequence p.payload
            ∷ flow_start p.header.sequence
            ∷ received (length p.payload)
            ∷ [])
          refl (λ clean. clean) (runs _ rest))
