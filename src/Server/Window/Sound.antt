-- ===== src/Server/Window/Sound.antt =====
-- What keeps the server's loop from a panic: the assemblies that wait are well formed, and every
-- repair request names a media sequence and a fragment, as `encode_repair_request` asserts.
use irohsion.Prelude.{
  ℕ, ◌+◌, ◌≤◌, ◌≡◌, ◌==◌, leb, ltb, if◌then◌else◌, arith, Bool, true, false, ◌||◌, List, [], ◌∷◌,
  Option, none, some, length, All, All-append, Bool-cases, inl, inr,
}
use irohsion.Prelude.Map.{lookup, insert, remove, contains_key, member}
use irohsion.Protocol.{RepairRequest, max_media_sequence}
use irohsion.Protocol.Repair.{IsRequest}
use irohsion.Server.Sequence.{next_sequence-le}
use irohsion.Server.Assembly.{FragmentAssembly, IsAssembly, missing_mask}
use irohsion.Server.Assembly.Mask.{missing_mask-bounds}
use irohsion.Server.Window.{
  Event, received, forwarded, skipped, buffered_at, duplicate, late_after_skip, flow_start,
  flow_reset, fec_recovered, repair_requested, Window, Outcome, skip_sequence, drop_fragment,
  expire_round, expire_reorder_gap, request_due_repairs, log_requests, forward, drain_one,
  drain_ready, accept_complete_payload, accept_all, recover_round, due_fragments, gap_request,
  fragment_requests, recover_fec_ready, advance_reorder_window, max_repair_requests_per_tick,
}
use irohsion.Server.Window.Expire.{Each, expire_loop_rule, expire_round_cases}
use irohsion.Server.Window.Yields.{
  Yields, Yields-bind, drain_loop_rule, recover_loop_rule, recover_round_rule,
}

-- The requests of a log are valid.
abbrev pub Asked : List Event → Type 0
Asked [] = Unit {0}
Asked (repair_requested r ∷ log) = IsRequest r × Asked log
Asked (forwarded s payload ∷ log) = Asked log
Asked (skipped reason s ∷ log) = Asked log
Asked (flow_start s ∷ log) = Asked log
Asked (flow_reset s ∷ log) = Asked log
Asked (received bytes ∷ log) = Asked log
Asked (buffered_at count next ∷ log) = Asked log
Asked (duplicate count next ∷ log) = Asked log
Asked (late_after_skip s count next ∷ log) = Asked log
Asked (fec_recovered s bytes ∷ log) = Asked log

-- An entry of the fragment table.
abbrev pub IsEntry : ℕ × FragmentAssembly → Type 0
IsEntry e = (e.0 ≤ max_media_sequence) × IsAssembly e.1

pub record IsSound (w : Window) : Type 0 where
  pub position : w.next_seq ≤ max_media_sequence
  pub entries : All IsEntry w.fragments
  pub asked : Asked w.log

pub remove-IsEntry :
    (k : ℕ) (m : List (ℕ × FragmentAssembly)) → All IsEntry m → All IsEntry (remove k m)
unfolding remove
remove-IsEntry k [] h = tt
remove-IsEntry k ((j, a) ∷ m) h = elim (Bool-cases (j == k)) [
  | inl e ↦ rw e (remove-IsEntry k m h.1)
  | inr e ↦ rw e (h.0, remove-IsEntry k m h.1)
]

pub insert-IsEntry :
    (k : ℕ) (a : FragmentAssembly) (m : List (ℕ × FragmentAssembly))
    → IsEntry (k, a)
    → All IsEntry m
    → All IsEntry (insert k a m)
unfolding insert
insert-IsEntry k a [] v h = (v, tt)
insert-IsEntry k a ((j, b) ∷ m) v h = elim (Bool-cases (j == k)) [
  | inl e ↦ rw e (v, h.1)
  | inr e ↦ elim (Bool-cases (ltb k j)) [
    | inl less ↦ rw (e, less) (v, h)
    | inr more ↦ rw (e, more) (h.0, insert-IsEntry k a m v h.1)
  ]
]

pub lookup-IsEntry :
    (k : ℕ) (m : List (ℕ × FragmentAssembly)) (a : FragmentAssembly)
    → All IsEntry m
    → lookup k m ≡ some a
    → IsAssembly a
unfolding lookup
lookup-IsEntry k [] a h e = absurd (cc)
lookup-IsEntry k ((j, b) ∷ m) a h e = elim (Bool-cases (j == k)) [
  | inl same ↦
      let found : some b ≡ some a = rw (same, lookup) at e in let one : a ≡ b = cc in rw one (h.0.1)
  | inr other ↦ lookup-IsEntry k m a h.1 (rw (other, lookup) at e)
]

-- What a list of entries, with the requests for some of them, satisfies.
abbrev Allowed : List (ℕ × FragmentAssembly) × List RepairRequest → Type 0
Allowed r = All IsEntry r.0 × All IsRequest r.1

-- The request for an entry is valid.
entry-IsRequest :
    (s : ℕ) (a : FragmentAssembly)
    → IsEntry (s, a)
    → IsRequest (record { sequence = s; missing_mask = missing_mask a })
entry-IsRequest s a v =
    let (pos, fits) = missing_mask-bounds a v.1 in
    record { sequence_fits = omega (arith, v.0); mask_pos = pos; mask_fits = fits }

due_fragments-Allowed :
    (now interval count : ℕ) (fs : List (ℕ × FragmentAssembly))
    → All IsEntry fs
    → Allowed (due_fragments now interval count fs)
unfolding due_fragments
due_fragments-Allowed now interval count [] h = (tt, tt)
due_fragments-Allowed now interval count ((s, a) ∷ rest) h =
    elim (Bool-cases (leb max_repair_requests_per_tick count)) [
      | inl full ↦ rw full (h, tt)
      | inr free ↦ rw free (go _ (λ k. due_fragments-Allowed now interval k rest h.1))
    ]
  where
    later : Bool → List (ℕ × FragmentAssembly) × List RepairRequest
    later due = due_fragments now interval (if due then count + 1 else count) rest

    renewed : IsAssembly (record a { last_repair_request = some now })
    renewed = record {
      counted = h.0.1.counted;
      waits = h.0.1.waits;
      several = h.0.1.several;
      fits = h.0.1.fits;
    }

    go :
        (due : Bool)
        → ((k : ℕ) → Allowed (due_fragments now interval k rest))
        → Allowed (
            if due
            then (
              (s, record a { last_repair_request = some now }) ∷ (later due).0,
              record { sequence = s; missing_mask = missing_mask a } ∷ (later due).1,
            )
            else ((s, a) ∷ (later due).0, (later due).1))
    go true rec =
        (((h.0.0, renewed), (rec (count + 1)).0), (entry-IsRequest s a h.0, (rec (count + 1)).1))
    go false rec = ((h.0, (rec count).0), (rec count).1)

gap_request-IsRequest :
    (now interval : ℕ) (w : Window)
    → w.next_seq ≤ max_media_sequence
    → All IsRequest (gap_request now interval w)
unfolding gap_request
gap_request-IsRequest now interval w h = ground arith

log_requests-Asked :
    (rs : List RepairRequest) (log : List Event)
    → All IsRequest rs
    → Asked log
    → Asked (log_requests rs log)
log_requests-Asked [] log h k = k
log_requests-Asked (r ∷ rs) log h k = log_requests-Asked rs (repair_requested r ∷ log) h.1 (h.0, k)

request_due_repairs-IsSound :
    (now interval : ℕ) (w : Window) → IsSound w → IsSound (request_due_repairs now interval w)
unfolding request_due_repairs fragment_requests
request_due_repairs-IsSound now interval w v =
    let (left, asked) =
      due_fragments-Allowed now interval (length (gap_request now interval w)) w.fragments
        v.entries in
    record {
      position = v.position;
      entries = left;
      asked =
          log_requests-Asked _ w.log
            (All-append IsRequest (gap_request now interval w) (fragment_requests now interval w).1
              (gap_request-IsRequest now interval w v.position) asked)
            v.asked;
    }

expire_round-IsSound :
    (now delay : ℕ) (w : Window) → IsSound w → Each IsSound (expire_round now delay w)
unfolding skip_sequence drop_fragment
expire_round-IsSound now delay w v =
    expire_round_cases (Each IsSound) now delay w (λ _. tt)
      (λ a _ _ _. record {
        position = next_sequence-le w.next_seq v.position;
        entries = remove-IsEntry w.next_seq w.fragments v.entries;
        asked = v.asked;
      })
      (λ t _ _ _ _. record {
        position = next_sequence-le w.next_seq v.position;
        entries = v.entries;
        asked = v.asked;
      })

expire_reorder_gap-IsSound :
    (now delay : ℕ) (w : Window) → IsSound w → IsSound (expire_reorder_gap now delay w)
unfolding expire_reorder_gap
expire_reorder_gap-IsSound now delay w v =
    expire_loop_rule IsSound now delay (λ u k. expire_round-IsSound now delay u k) _ w v

-- The sound ones among the outcomes: no panic, and valid requests also when the loop returns.
abbrev pub Sound : Outcome Window → Type 0
Sound = Yields IsSound Asked (λ _. ⊥)

module _ (socket : List Event → List ℕ → Bool) where
  forward-Sound :
      (s : ℕ) (payload : List ℕ) (w : Window) → IsSound w → Sound (forward socket s payload w)
  unfolding forward
  forward-Sound s payload w v = elim (Bool-cases (socket w.log payload)) [
    | inl sent ↦
        rw (sent, forward)
          (record {
            position = next_sequence-le w.next_seq v.position;
            entries = v.entries;
            asked = v.asked;
          })
    | inr failed ↦ rw (failed, forward) (v.asked)
  ]

  drain_ready-Sound : (w : Window) → IsSound w → Sound (drain_ready socket w)
  unfolding drain_ready drain_one
  drain_ready-Sound w v =
      drain_loop_rule Asked (λ _. ⊥) socket IsSound
        (λ u packet k _.
          forward-Sound u.next_seq packet.payload _
            (record { position = k.position; entries = k.entries; asked = k.asked }))
        (length w.buffered) w v

  pub accept_complete_payload-Sound :
      (now s : ℕ) (payload : List ℕ) (w : Window)
      → IsSound w
      → Sound (accept_complete_payload socket now s payload w)
  unfolding accept_complete_payload
  accept_complete_payload-Sound now s payload w v = elim (Bool-cases (s == w.next_seq)) [
    | inl next ↦
        rw (next, accept_complete_payload)
          (Yields-bind Asked (λ _. ⊥) IsSound IsSound (forward socket s payload _) _
            (forward-Sound s payload _
              (record { position = v.position; entries = v.entries; asked = v.asked }))
            (λ u k. drain_ready-Sound u k))
    | inr later ↦
        rw (later, accept_complete_payload)
          (record { position = v.position; entries = v.entries; asked = v.asked })
  ]

  abbrev SoundFlagged : Outcome (Bool × Window) → Type 0
  SoundFlagged = Yields (λ r. IsSound r.1) Asked (λ _. ⊥)

  accept_all-Sound :
      (now : ℕ) (rs : List (ℕ × List ℕ)) (accepted : Bool) (w : Window)
      → IsSound w
      → SoundFlagged (accept_all socket now rs accepted w)
  unfolding accept_all
  accept_all-Sound now [] accepted w v = v
  accept_all-Sound now ((s, payload) ∷ rest) accepted w v =
      elim (Bool-cases (ltb s w.next_seq || (member s w.seen || contains_key s w.buffered))) [
        | inl old ↦ rw (old, accept_all) (accept_all-Sound now rest accepted w v)
        | inr fresh ↦
            rw (fresh, accept_all)
              (Yields-bind Asked (λ _. ⊥) IsSound (λ r. IsSound r.1)
                (accept_complete_payload socket now s payload _) _
                (accept_complete_payload-Sound now s payload _ (record {
                  position = v.position;
                  entries = remove-IsEntry s w.fragments v.entries;
                  asked = v.asked;
                }))
                (λ u k. accept_all-Sound now rest true u k))
      ]

  pub recover_fec_ready-Sound :
      (now : ℕ) (w : Window) → IsSound w → Sound (recover_fec_ready socket now w)
  unfolding recover_fec_ready recover_round
  recover_fec_ready-Sound now w v =
      recover_loop_rule Asked (λ _. ⊥) socket IsSound now
        (λ u k.
          recover_round_rule Asked (λ _. ⊥) socket (λ r. IsSound r.1) now u
            (λ f packets.
              accept_all-Sound now packets false (record u { fec_state = f })
                (record { position = k.position; entries = k.entries; asked = k.asked })))
        _ w v

  expired-Sound :
      (now delay : ℕ) (w : Window)
      → IsSound w
      → Sound (drain_ready socket (expire_reorder_gap now delay w))
  expired-Sound now delay w v = drain_ready-Sound _ (expire_reorder_gap-IsSound now delay w v)

  pub advance_reorder_window-Sound :
      (now : ℕ) (repair : Option ℕ) (delay : ℕ) (w : Window)
      → IsSound w
      → Sound (advance_reorder_window socket now repair delay w)
  unfolding advance_reorder_window
  advance_reorder_window-Sound now repair delay w v =
      Yields-bind Asked (λ _. ⊥) IsSound IsSound (recover_fec_ready socket now w) _
        (recover_fec_ready-Sound now w v) (by_repair repair)
    where
      by_repair :
          (r : Option ℕ) (u : Window)
          → IsSound u
          → Sound (
              drain_ready socket (
                expire_reorder_gap now delay
                  (elim r [ none ↦ u | some interval ↦ request_due_repairs now interval u ])))
      by_repair none u k = expired-Sound now delay u k
      by_repair (some interval) u k =
          expired-Sound now delay _ (request_due_repairs-IsSound now interval u k)
