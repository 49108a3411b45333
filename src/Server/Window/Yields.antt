-- ===== src/Server/Window/Yields.antt =====
-- Statements about an outcome: `P` of the state if the loop goes on, `L` of
-- the log if it returns, `K` of the log if it panics.
use irohsion.Prelude.{ℕ, zero, suc, List, ◌≡◌, Bool, true, false, some, Option-cases, inl, inr}
use irohsion.Prelude.Map.{lookup}
use irohsion.Server.FecState.{FecState, BufferedPacket}
use irohsion.Server.FecState.InRange.{recover_ready_total}
use irohsion.Server.Window.{
  Event, Outcome, running, stopped, panicked, ◌>>=◌, Window, accept_all, recover_round,
  recover_loop, drain_one, drain_loop,
}

abbrev pub Yields :
    {A : Type 0} → (A → Type 0) → (List Event → Type 0) → (List Event → Type 0) → Outcome A → Type 0
Yields P L K (running a) = P a
Yields P L K (stopped log) = L log
Yields P L K (panicked log) = K log

-- No panic, and no claim on a log.
abbrev pub Safely : {A : Type 0} → (A → Type 0) → Outcome A → Type 0
Safely P = Yields P (λ _. Unit {0}) (λ _. ⊥)

module _ (L K : List Event → Type 0) where
  pub Yields-bind :
      {A B : Type 0} (P : A → Type 0) (Q : B → Type 0) (m : Outcome A) (f : A → Outcome B)
      → Yields P L K m
      → ((a : A) → P a → Yields Q L K (f a))
      → Yields Q L K (m >>= f)
  Yields-bind P Q (running a) f h k = k a h
  Yields-bind P Q (stopped log) f h k = h
  Yields-bind P Q (panicked log) f h k = h

  module _ (socket : List Event → List ℕ → Bool) (Q : Bool × Window → Type 0) where
    -- Recovery itself never panics, so a round is the loop over what it gives back.
    pub recover_round_rule :
        (now : ℕ) (w : Window)
        → ((f : FecState) (packets : List (ℕ × List ℕ))
            → Yields Q L K (accept_all socket now packets false (record w { fec_state = f })))
        → Yields Q L K (recover_round socket now w)
    unfolding recover_round
    recover_round_rule now w keep =
        let (r, e) = recover_ready_total w.next_seq w.buffered w.fec_state in
        rw (e, recover_round) (keep r.0 r.1)

  module _ (socket : List Event → List ℕ → Bool) (P : Window → Type 0) where
    -- What the body of a loop keeps, the loop keeps.
    pub drain_loop_rule :
        ((w : Window) (packet : BufferedPacket)
          → P w
          → lookup w.next_seq w.buffered ≡ some packet
          → Yields P L K (drain_one socket packet w))
        → (fuel : ℕ) (w : Window) → P w
        → Yields P L K (drain_loop socket fuel w)
    unfolding drain_loop
    drain_loop_rule keep zero w h = h
    drain_loop_rule keep (suc fuel) w h = elim (Option-cases (lookup w.next_seq w.buffered)) [
      | inl e ↦ rw (e, drain_loop) h
      | inr (packet, e) ↦
          rw (e, drain_loop)
            (Yields-bind P P (drain_one socket packet w) _ (keep w packet h e)
              (λ v k. drain_loop_rule keep fuel v k))
    ]

    pub recover_loop_rule :
        (now : ℕ)
        → ((w : Window)
            → P w
            → Yields (λ (r : Bool × Window). P r.1) L K (recover_round socket now w))
        → (fuel : ℕ) (w : Window) → P w
        → Yields P L K (recover_loop socket now fuel w)
    unfolding recover_loop
    recover_loop_rule now keep zero w h = h
    recover_loop_rule now keep (suc fuel) w h =
        Yields-bind (λ (r : Bool × Window). P r.1) P (recover_round socket now w) _ (keep w h)
          (λ r k. again r.0 r.1 k (recover_loop_rule now keep fuel))
      where
        again :
            (accepted : Bool) (v : Window)
            → P v
            → ((u : Window) → P u → Yields P L K (recover_loop socket now fuel u))
            → Yields P L K
                (elim accepted [ true ↦ recover_loop socket now fuel v | false ↦ running v ])
        again true v k rec = rec v k
        again false v k rec = k
