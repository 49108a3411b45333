-- ===== src/Server/Window/Repairs.antt =====
-- The repair requests of one call of `request_due_repairs` of crates/server/src/main.rs.
use irohsion.Prelude.{
  ℕ, ◌+◌, ◌≤◌, ◌<◌, ◌≡◌, refl, leb, arith, Bool, true, false, List, [], ◌∷◌, ◌++◌, some, length,
  length-append, Bool-cases, inl, inr, if◌then◌else◌, leb→lt,
}
use irohsion.Protocol.{RepairRequest}
use irohsion.Server.Assembly.{FragmentAssembly, missing_mask}
use irohsion.Server.Window.{
  Window, due_fragments, gap_request, fragment_requests, request_due_repairs, log_requests,
  max_repair_requests_per_tick,
}

due_fragments-le :
    (now interval count : ℕ) (fs : List (ℕ × FragmentAssembly))
    → count ≤ max_repair_requests_per_tick
    → count + length (due_fragments now interval count fs).1 ≤ max_repair_requests_per_tick
unfolding due_fragments
due_fragments-le now interval count [] h = omega arith
due_fragments-le now interval count ((s, a) ∷ rest) h =
    elim (Bool-cases (leb max_repair_requests_per_tick count)) [
      | inl full ↦ rw full (omega arith)
      | inr free ↦
          rw free (go _ (leb→lt _ _ free) (λ k room. due_fragments-le now interval k rest room))
    ]
  where
    later : Bool → List (ℕ × FragmentAssembly) × List RepairRequest
    later due = due_fragments now interval (if due then count + 1 else count) rest

    go :
        (due : Bool)
        → count < max_repair_requests_per_tick
        → ((k : ℕ)
            → k ≤ max_repair_requests_per_tick
            → k + length (due_fragments now interval k rest).1 ≤ max_repair_requests_per_tick)
        → let answer : List (ℕ × FragmentAssembly) × List RepairRequest =
            if due
            then (
              (s, record a { last_repair_request = some now }) ∷ (later due).0,
              record { sequence = s; missing_mask = missing_mask a } ∷ (later due).1,
            )
            else ((s, a) ∷ (later due).0, (later due).1) in
          count + length answer.1 ≤ max_repair_requests_per_tick
    go true room le = omega (arith, le (count + 1) (omega arith))
    go false room le = le count h

gap_request-le : (now interval : ℕ) (w : Window) → length (gap_request now interval w) ≤ 1
unfolding gap_request
gap_request-le now interval w = ground arith

-- One call of `request_due_repairs` adds to the log requests only, at most 64 of them, and changes
-- neither the position of the window nor what it has buffered.
pub request_due_repairs-bound :
    (now interval : ℕ) (w : Window)
    → let v = request_due_repairs now interval w in
      (v.next_seq ≡ w.next_seq)
      × (v.buffered ≡ w.buffered)
      × ((asked : List RepairRequest) × (v.log ≡ log_requests asked w.log)
          × (length asked ≤ max_repair_requests_per_tick))
unfolding request_due_repairs fragment_requests
request_due_repairs-bound now interval w = (
  refl,
  refl,
  (
    gap_request now interval w ++ (fragment_requests now interval w).1,
    refl,
    omega (
      arith,
      length-append (gap_request now interval w) (fragment_requests now interval w).1,
      due_fragments-le now interval (length (gap_request now interval w)) w.fragments
          (omega (arith, gap_request-le now interval w)),
    ),
  ),
)
