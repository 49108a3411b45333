-- ===== src/Server/Window/Drain.antt =====
-- `drain_ready` of crates/server/src/main.rs stops only when the next sequence is not buffered: the
-- rounds that `drain_loop` is given are enough.
use irohsion.Prelude.{
  ℕ, zero, suc, ◌≤◌, ◌<◌, ◌≡◌, refl, arith, Bool, List, [], ◌∷◌, none, length, Bool-cases,
  Option-cases, inl, inr,
}
use irohsion.Prelude.Map.{lookup, remove, length-remove-lt}
use irohsion.Server.FecState.{BufferedPacket}
use irohsion.Server.Window.{Event, Window, forward, drain_one, drain_loop, drain_ready}
use irohsion.Server.Window.Yields.{Yields, Yields-bind}

abbrev pub Returned : List Event → Type 0
Returned log = Unit {0}

-- The next sequence waits no more.
abbrev pub Drained : Window → Type 0
Drained w = lookup w.next_seq w.buffered ≡ none

lookup_in_none : (k : ℕ) (m : List (ℕ × BufferedPacket)) → length m ≡ 0 → lookup k m ≡ none
unfolding lookup
lookup_in_none k [] h = refl
lookup_in_none k (e ∷ m) h = absurd (omega arith)

module _ (socket : List Event → List ℕ → Bool) where
  drain_one-shrinks :
      (packet : BufferedPacket) (w : Window)
      → Yields
          (λ v. length v.buffered ≡ length (remove w.next_seq w.buffered))
          Returned
          (λ _. ⊥)
          (drain_one socket packet w)
  unfolding drain_one forward
  drain_one-shrinks packet w = elim (Bool-cases (socket w.log packet.payload)) [
    | inl sent ↦ rw (sent, drain_one, forward) refl
    | inr failed ↦ rw (failed, drain_one, forward) tt
  ]

  drain_loop-Drained :
      (fuel : ℕ) (w : Window)
      → length w.buffered ≤ fuel
      → Yields Drained Returned (λ _. ⊥) (drain_loop socket fuel w)
  unfolding drain_loop
  drain_loop-Drained zero w h = lookup_in_none w.next_seq w.buffered (omega arith)
  drain_loop-Drained (suc fuel) w h = elim (Option-cases (lookup w.next_seq w.buffered)) [
    | inl e ↦ rw (e, drain_loop) e
    | inr (packet, e) ↦
        let shorter : length (remove w.next_seq w.buffered) < length w.buffered =
          length-remove-lt w.next_seq w.buffered e in
        rw (e, drain_loop)
          (Yields-bind Returned (λ _. ⊥)
            (λ v. length v.buffered ≡ length (remove w.next_seq w.buffered)) Drained
            (drain_one socket packet w) _ (drain_one-shrinks packet w)
            (λ v k. drain_loop-Drained fuel v (omega (arith, k))))
  ]

  -- Draining never panics, and when it returns without an error of the socket, the next sequence
  -- is not buffered: every packet that was ready has been taken.
  pub drain_ready-Drained : (w : Window) → Yields Drained Returned (λ _. ⊥) (drain_ready socket w)
  unfolding drain_ready
  drain_ready-Drained w = drain_loop-Drained (length w.buffered) w (omega arith)
