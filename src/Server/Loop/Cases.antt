-- ===== src/Server/Loop/Cases.antt =====
-- The cases of `admit`: how a round of `reorder_loop` sorts the packet that arrived.
use irohsion.Prelude.{
  ◌≤◌, ◌<◌, ◌≡◌, if◌then◌else◌, arith, Bool, true, false, Bool-cases, inl, inr, ltb, ltb→lt, ltb→le,
  le→ltb,
}
use irohsion.Prelude.Map.{member, contains_key}
use irohsion.Server.Restart.{RestartDetector, observe}
use irohsion.Server.Skipped
use irohsion.Server.Window.{Window}
use irohsion.Server.Loop.{
  ReceivedPacket, handle_stale, recheck, classify, admit, restart_flow, record_duplicate,
  record_late, with_detector, join_flow,
}

abbrev pub watching : ReceivedPacket → Window → RestartDetector × Bool
watching p w = observe p.header.sequence w.next_seq w.restart_detector

recheck_restarted :
    (p : ReceivedPacket) (w : Window) (d : RestartDetector)
    → recheck p (true, restart_flow p (with_detector d w))
      ≡ (true, restart_flow p (with_detector d w))
unfolding recheck restart_flow member contains_key
recheck_restarted p w d = rw (le→ltb p.header.sequence p.header.sequence (omega arith))

module _ {ℓ} (P : Bool × Window → Type ℓ) (p : ReceivedPacket) (w : Window) where
  sort_late :
      (d : RestartDetector)
      → P (false, record_late p.header.sequence (with_detector d w))
      → P (false, record_duplicate (with_detector d w))
      → P (
          if Skipped.contains p.header.sequence w.skipped_sequences
          then (false, record_late p.header.sequence (with_detector d w))
          else (false, record_duplicate (with_detector d w)))
  sort_late d late duplicated =
      elim (Bool-cases (Skipped.contains p.header.sequence w.skipped_sequences)) [
        | inl e ↦ rw e late
        | inr e ↦ rw e duplicated
      ]

  -- A packet below `next_seq` restarts the flow, if its connection is new to the flow and the
  -- detector says so; otherwise it is dropped, as late or as a duplicate.
  pub stale_cases :
      (member p.connection_id w.flow_connections ≡ false
        → (watching p w).1 ≡ true
        → P (true, restart_flow p (with_detector (watching p w).0 w)))
      → ((d : RestartDetector) → P (false, record_late p.header.sequence (with_detector d w)))
      → ((d : RestartDetector) → P (false, record_duplicate (with_detector d w)))
      → P (handle_stale p w)
  unfolding handle_stale
  stale_cases restarts late duplicated =
      elim (Bool-cases (member p.connection_id w.flow_connections)) [
        | inl known ↦
            rw (known, handle_stale)
              (sort_late w.restart_detector (late w.restart_detector)
                (duplicated w.restart_detector))
        | inr new ↦ elim (Bool-cases (watching p w).1) [
          | inl fires ↦ rw (new, fires, handle_stale) (restarts new fires)
          | inr silent ↦
              rw (new, silent, handle_stale)
                (sort_late (watching p w).0 (late (watching p w).0) (duplicated (watching p w).0))
        ]
      ]

  recheck_joined :
      (w.next_seq ≤ p.header.sequence → P (false, record_duplicate (join_flow p w)))
      → (w.next_seq ≤ p.header.sequence
          → member p.header.sequence w.seen ≡ false
          → contains_key p.header.sequence w.buffered ≡ false
          → P (true, join_flow p w))
      → w.next_seq ≤ p.header.sequence
      → P (recheck p (true, join_flow p w))
  unfolding recheck
  recheck_joined again fresh above =
      rw (le→ltb p.header.sequence w.next_seq above)
        (elim (Bool-cases (member p.header.sequence w.seen)) [
          | inl known ↦ rw known (again above)
          | inr new ↦ elim (Bool-cases (contains_key p.header.sequence w.buffered)) [
            | inl known ↦ rw (new, known) (again above)
            | inr absent ↦ rw (new, absent) (fresh above new absent)
          ]
        ])

module _ {ℓ} (P : Bool × Window → Type ℓ) (p : ReceivedPacket) (w : Window) where
  -- A packet below `next_seq` restarts the flow or is dropped; one above is dropped if it waits
  -- already, and otherwise goes on as part of the flow.
  pub admit_cases :
      (member p.connection_id w.flow_connections ≡ false
        → (watching p w).1 ≡ true
        → p.header.sequence < w.next_seq
        → P (true, restart_flow p (with_detector (watching p w).0 w)))
      → ((d : RestartDetector)
          → p.header.sequence < w.next_seq
          → P (false, record_late p.header.sequence (with_detector d w)))
      → ((d : RestartDetector)
          → p.header.sequence < w.next_seq
          → P (false, record_duplicate (with_detector d w)))
      → (w.next_seq ≤ p.header.sequence → P (false, record_duplicate (join_flow p w)))
      → (w.next_seq ≤ p.header.sequence
          → member p.header.sequence w.seen ≡ false
          → contains_key p.header.sequence w.buffered ≡ false
          → P (true, join_flow p w))
      → P (admit p w)
  unfolding admit recheck classify
  admit_cases restarts late duplicated again fresh =
      elim (Bool-cases (ltb p.header.sequence w.next_seq)) [
        | inl below ↦
            let lt = ltb→lt p.header.sequence w.next_seq below in
            rw (below, admit)
              (stale_cases (λ r. P (recheck p r)) p w
                (λ new fires. rw (recheck_restarted p w (watching p w).0) (restarts new fires lt))
                (λ d. late d lt) (λ d. duplicated d lt))
        | inr above ↦
            rw (above, admit)
              (recheck_joined P p w again fresh (ltb→le p.header.sequence w.next_seq above))
      ]
