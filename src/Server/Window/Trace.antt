-- ===== src/Server/Window/Trace.antt =====
-- The order of what the window lets through: since the start of a flow, the log disposes of the
-- consecutive sequences, each once, by forwarding or by skipping it.
use irohsion.Prelude.{
  ℕ, ◌≡◌, refl, sym, ap, ==_iff, ◌==◌, Bool, true, false, List, [], ◌∷◌, ◌++◌, Option, none, some,
  length, Bool-cases, inl, inr, ◌||◌, ltb,
}
use irohsion.Prelude.Map.{contains_key, member}
use irohsion.Protocol.{RepairRequest}
use irohsion.Server.Sequence.{next_sequence}
use irohsion.Server.Window.{
  Event, received, forwarded, skipped, buffered_at, duplicate, late_after_skip, flow_start,
  flow_reset, fec_recovered, repair_requested, Window, Outcome, skip_sequence, drop_fragment,
  expire_round, expire_reorder_gap, request_due_repairs, log_requests, forward, drain_one,
  drain_ready, accept_complete_payload, accept_all, recover_round, gap_request, fragment_requests,
  recover_fec_ready, advance_reorder_window,
}
use irohsion.Server.Window.Expire.{Each, expire_loop_rule, expire_round_cases}
use irohsion.Server.Window.Yields.{
  Yields, Yields-bind, drain_loop_rule, recover_loop_rule, recover_round_rule,
}

-- The sequences of the log lead up to `n` without a gap; before the last start of a flow, those of
-- the earlier flows lead up to some sequence each.
abbrev pub Traced : ℕ → List Event → Type 0
Traced n [] = Unit {0}
Traced n (forwarded s payload ∷ log) = (n ≡ next_sequence s) × Traced s log
Traced n (skipped reason s ∷ log) = (n ≡ next_sequence s) × Traced s log
Traced n (flow_start s ∷ log) = (n ≡ s) × (m : ℕ) × Traced m log
Traced n (flow_reset s ∷ log) = (n ≡ s) × (m : ℕ) × Traced m log
Traced n (received bytes ∷ log) = Traced n log
Traced n (buffered_at count next ∷ log) = Traced n log
Traced n (duplicate count next ∷ log) = Traced n log
Traced n (late_after_skip s count next ∷ log) = Traced n log
Traced n (fec_recovered s bytes ∷ log) = Traced n log
Traced n (repair_requested r ∷ log) = Traced n log

abbrev pub Orderly : List Event → Type 0
Orderly log = (m : ℕ) × Traced m log

abbrev pub InTrace : Window → Type 0
InTrace w = Traced w.next_seq w.log

expire_round-InTrace :
    (now delay : ℕ) (w : Window) → InTrace w → Each InTrace (expire_round now delay w)
expire_round-InTrace now delay w h =
    expire_round_cases (Each InTrace) now delay w (λ _. tt)
      (λ a _ _ _. unfold skip_sequence drop_fragment in (refl, h))
      (λ t _ _ _ _. unfold skip_sequence in (refl, h))

log_requests-Traced :
    (rs : List RepairRequest) (n : ℕ) (log : List Event)
    → Traced n log
    → Traced n (log_requests rs log)
log_requests-Traced [] n log h = h
log_requests-Traced (r ∷ rs) n log h = log_requests-Traced rs n (repair_requested r ∷ log) h

request_due_repairs-InTrace :
    (now interval : ℕ) (w : Window) → InTrace w → InTrace (request_due_repairs now interval w)
unfolding request_due_repairs
request_due_repairs-InTrace now interval w h =
    log_requests-Traced (gap_request now interval w ++ (fragment_requests now interval w).1)
      w.next_seq w.log h

expire_reorder_gap-InTrace :
    (now delay : ℕ) (w : Window) → InTrace w → InTrace (expire_reorder_gap now delay w)
unfolding expire_reorder_gap
expire_reorder_gap-InTrace now delay w h =
    expire_loop_rule InTrace now delay (λ v k. expire_round-InTrace now delay v k) _ w h

module _ (socket : List Event → List ℕ → Bool) where
  abbrev Keeps : Outcome Window → Type 0
  Keeps = Yields InTrace Orderly Orderly

  -- The sequence sent is the one that the window stands at.
  forward-Keeps :
      (s : ℕ) (payload : List ℕ) (w : Window)
      → s ≡ w.next_seq
      → InTrace w
      → Keeps (forward socket s payload w)
  unfolding forward
  forward-Keeps s payload w same h = elim (Bool-cases (socket w.log payload)) [
    | inl sent ↦ rw (sent, forward) (ap next_sequence (sym same), rw same h)
    | inr failed ↦ rw (failed, forward) (w.next_seq, h)
  ]

  drain_ready-Keeps : (w : Window) → InTrace w → Keeps (drain_ready socket w)
  unfolding drain_ready drain_one
  drain_ready-Keeps w h =
      drain_loop_rule Orderly Orderly socket InTrace
        (λ v packet k _. forward-Keeps v.next_seq packet.payload _ refl k) (length w.buffered) w h

  pub accept_complete_payload-Keeps :
      (now s : ℕ) (payload : List ℕ) (w : Window)
      → InTrace w
      → Keeps (accept_complete_payload socket now s payload w)
  unfolding accept_complete_payload
  accept_complete_payload-Keeps now s payload w h = elim (Bool-cases (s == w.next_seq)) [
    | inl next ↦
        rw (next, accept_complete_payload)
          (Yields-bind Orderly Orderly InTrace InTrace (forward socket s payload _) _
            (forward-Keeps s payload _ ((==_iff s w.next_seq).0 next) h)
            (λ v k. drain_ready-Keeps v k))
    | inr later ↦ rw (later, accept_complete_payload) h
  ]

  abbrev KeepsFlagged : Outcome (Bool × Window) → Type 0
  KeepsFlagged = Yields (λ r. InTrace r.1) Orderly Orderly

  accept_all-Keeps :
      (now : ℕ) (rs : List (ℕ × List ℕ)) (accepted : Bool) (w : Window)
      → InTrace w
      → KeepsFlagged (accept_all socket now rs accepted w)
  unfolding accept_all
  accept_all-Keeps now [] accepted w h = h
  accept_all-Keeps now ((s, payload) ∷ rest) accepted w h =
      elim (Bool-cases (ltb s w.next_seq || (member s w.seen || contains_key s w.buffered))) [
        | inl old ↦ rw (old, accept_all) (accept_all-Keeps now rest accepted w h)
        | inr fresh ↦
            rw (fresh, accept_all)
              (Yields-bind Orderly Orderly InTrace (λ r. InTrace r.1)
                (accept_complete_payload socket now s payload _) _
                (accept_complete_payload-Keeps now s payload _ h)
                (λ v k. accept_all-Keeps now rest true v k))
      ]

  pub recover_fec_ready-Keeps :
      (now : ℕ) (w : Window) → InTrace w → Keeps (recover_fec_ready socket now w)
  unfolding recover_fec_ready recover_round
  recover_fec_ready-Keeps now w h =
      recover_loop_rule Orderly Orderly socket InTrace now
        (λ v k.
          recover_round_rule Orderly Orderly socket (λ r. InTrace r.1) now v
            (λ f packets. accept_all-Keeps now packets false (record v { fec_state = f }) k))
        _ w h

  pub advance_reorder_window-Keeps :
      (now : ℕ) (repair : Option ℕ) (delay : ℕ) (w : Window)
      → InTrace w
      → Keeps (advance_reorder_window socket now repair delay w)
  unfolding advance_reorder_window
  advance_reorder_window-Keeps now none delay w h =
      Yields-bind Orderly Orderly InTrace InTrace (recover_fec_ready socket now w) _
        (recover_fec_ready-Keeps now w h)
        (λ v k. drain_ready-Keeps _ (expire_reorder_gap-InTrace now delay v k))
  advance_reorder_window-Keeps now (some interval) delay w h =
      Yields-bind Orderly Orderly InTrace InTrace (recover_fec_ready socket now w) _
        (recover_fec_ready-Keeps now w h)
        (λ v k.
          drain_ready-Keeps _
            (expire_reorder_gap-InTrace now delay _ (request_due_repairs-InTrace now interval v k)))
