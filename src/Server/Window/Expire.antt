-- ===== src/Server/Window/Expire.antt =====
-- `expire_reorder_gap` of crates/server/src/main.rs: the cases of one round of its loop.
use irohsion.Prelude.{
  ℕ, zero, suc, ◌-◌, ◌≤◌, ◌<◌, ◌≡◌, ◌⊎◌, inl, inr, true, false, Option, none, some, ltb, Bool-cases,
  Option-cases, ltb→lt, ltb→le,
}
use irohsion.Prelude.Map.{lookup, contains_key}
use irohsion.Server.Assembly.{FragmentAssembly}
use irohsion.Server.Window.{
  Window, never_received, fragment_incomplete, skip_sequence, oldest, pending_times, drop_fragment,
  expire_round, expire_loop,
}

-- Why the loop breaks: the next packet is at hand, or it is a fragmented one that is still young,
-- or nothing waits, or what waits is still young.
abbrev pub Settled : ℕ → ℕ → Window → Type 0
Settled now delay w =
    (contains_key w.next_seq w.buffered ≡ true)
    ⊎ ((a : FragmentAssembly) × (lookup w.next_seq w.fragments ≡ some a)
        × (now - a.first_seen < delay))
    ⊎ (oldest (pending_times w) ≡ none)
    ⊎ ((t : ℕ) × (oldest (pending_times w) ≡ some t) × (now - t < delay))

-- What a state that may not be there satisfies.
abbrev pub Each : (Window → Type 0) → Option Window → Type 0
Each P none = Unit {0}
Each P (some w) = P w

-- What every round keeps, the loop keeps.
pub expire_loop_rule :
    (P : Window → Type 0) (now delay : ℕ)
    → ((w : Window) → P w → Each P (expire_round now delay w))
    → (fuel : ℕ) (w : Window) → P w
    → P (expire_loop now delay fuel w)
unfolding expire_loop
expire_loop_rule P now delay keep zero w h = h
expire_loop_rule P now delay keep (suc fuel) w h =
    go (expire_round now delay w) (keep w h) (expire_loop_rule P now delay keep fuel)
  where
    go :
        (r : Option Window)
        → Each P r
        → ((v : Window) → P v → P (expire_loop now delay fuel v))
        → P (elim r [ none ↦ w | some w' ↦ expire_loop now delay fuel w' ])
    go none e rec = h
    go (some w') e rec = rec w' e

module _ {ℓ} (P : Option Window → Type ℓ) (now delay : ℕ) (w : Window) where
  round_young :
      (Settled now delay w → P none)
      → ((t : ℕ)
          → delay ≤ now - t
          → oldest (pending_times w) ≡ some t
          → P (some (skip_sequence never_received w)))
      → contains_key w.next_seq w.buffered ≡ false
      → lookup w.next_seq w.fragments ≡ none
      → P (expire_round now delay w)
  unfolding expire_round
  round_young stop never absent missing = elim (Option-cases (oldest (pending_times w))) [
    | inl e ↦ rw (absent, missing, e, expire_round) (stop (inr (inr (inl e))))
    | inr (t, e) ↦ elim (Bool-cases (ltb (now - t) delay)) [
      | inl young ↦
          rw (absent, missing, e, young, expire_round)
            (stop (inr (inr (inr (t, e, ltb→lt (now - t) delay young)))))
      | inr old ↦
          rw (absent, missing, e, old, expire_round) (never t (ltb→le (now - t) delay old) e)
    ]
  ]

  -- One round breaks, gives up an overdue fragmented packet, or gives up a packet that never came
  -- while something behind it is overdue.
  pub expire_round_cases :
      (Settled now delay w → P none)
      → ((a : FragmentAssembly)
          → contains_key w.next_seq w.buffered ≡ false
          → lookup w.next_seq w.fragments ≡ some a
          → delay ≤ now - a.first_seen
          → P (some (skip_sequence fragment_incomplete (drop_fragment w))))
      → ((t : ℕ)
          → contains_key w.next_seq w.buffered ≡ false
          → lookup w.next_seq w.fragments ≡ none
          → delay ≤ now - t
          → oldest (pending_times w) ≡ some t
          → P (some (skip_sequence never_received w)))
      → P (expire_round now delay w)
  unfolding expire_round
  expire_round_cases stop incomplete never =
      elim (Bool-cases (contains_key w.next_seq w.buffered)) [
        | inl here ↦ rw (here, expire_round) (stop (inl here))
        | inr absent ↦ elim (Option-cases (lookup w.next_seq w.fragments)) [
          | inl missing ↦ round_young stop (λ t old e. never t absent missing old e) absent missing
          | inr (a, e) ↦ elim (Bool-cases (ltb (now - a.first_seen) delay)) [
            | inl young ↦
                rw (absent, e, young, expire_round)
                  (stop (inr (inl (a, e, ltb→lt (now - a.first_seen) delay young))))
            | inr old ↦
                rw (absent, e, old, expire_round)
                  (incomplete a absent e (ltb→le (now - a.first_seen) delay old))
          ]
        ]
      ]
