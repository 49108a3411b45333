-- ===== src/Client/Fec/Recovery.antt =====
-- The frames that the client's encoder sends, and what the server recovers from them.
use irohsion.Prelude.{
  ℕ, ◌+◌, ◌≤◌, ◌<◌, ◌≡◌, refl, sym, ap, ◌∙◌, ◌==◌, if◌then◌else◌, ltb, leb, ltb→le, All-append,
  arith, true, false, List, [], ◌∷◌, ◌++◌, map, Option, none, some, length, All, max_of, Bool-cases,
  inl, inr, length-replicate, replicate, ==_iff, length-append,
}
use irohsion.Prelude.Parity.{xor_all, length-xor_all}
use irohsion.Protocol.{max_media_sequence, max_fec_group_packets}
use irohsion.Protocol.Fec.{IsFrame}
use irohsion.Server.Sequence.{next_sequence, sequence_after}
use irohsion.Server.FecState.{recover_frame}
use irohsion.Server.FecState.Recovery.{Knows, recover_frame-Covers}
use irohsion.Client.Fec.{
  FecSourcePacket, FecEncoder, FecGroupMode, disabled, adaptive_group, fixed, payloads, group_frame,
  flushed, flush, flush_or_clear, last_breaks, push_source, record_into, record_source,
  target_group_size, fec_payload_fits,
}

max_of-bound :
    (n : ℕ) (ps : List (List ℕ)) → max_of (map length ps) ≤ n → All (λ p. length p ≤ n) ps
max_of-bound n [] h = tt
max_of-bound n (p ∷ ps) h = (omega arith, max_of-bound n ps (omega arith))

-- A frame of the client that reaches the server while all payloads of its group but one are at hand
-- gives back that one, with its sequence and its bytes, unless it lies below `next_seq`.
pub recover-group_frame :
    (next_seq : ℕ) (known : ℕ → Option (List ℕ)) (base : ℕ) (before : List (List ℕ)) (p : List ℕ)
    (after : List (List ℕ))
    → Knows known base 0 before
    → Knows known base (length before + 1) after
    → known (sequence_after base (length before)) ≡ none
    → let sequence = sequence_after base (length before) in
      recover_frame next_seq known (group_frame base (before ++ (p ∷ after)))
      ≡ some (true, if ltb sequence next_seq then [] else (sequence, p) ∷ [])
recover-group_frame next_seq known base before p after k l m =
    unfold group_frame in
    recover_frame-Covers next_seq known _ before p after
      (max_of (map length (before ++ (p ∷ after))))
      (record {
        lengths = refl;
        parity = refl;
        bounded = max_of-bound _ (before ++ (p ∷ after)) (omega arith);
        know_before = k;
        know_after = l;
        lacks = m;
      })

-- Payloads of consecutive media sequences from `base` on, of at most 65535 bytes.
abbrev pub Run : ℕ → List FecSourcePacket → Type 0
Run base [] = Unit {0}
Run base (p ∷ ps) =
    (p.sequence ≡ base)
    × (base ≤ max_media_sequence)
    × (length p.payload ≤ 65535)
    × Run (next_sequence base) ps

-- What an encoder holds between packets: less than a full group of such payloads.
abbrev pub IsEncoder : FecEncoder → Type 0
IsEncoder e = (base : ℕ) × Run base e.packets × (length e.packets < max_fec_group_packets)

length-payloads : (ps : List FecSourcePacket) → length (map length (payloads ps)) ≡ length ps
length-payloads [] = refl
length-payloads (p ∷ ps) = omega (arith, length-payloads ps)

lengths_ok :
    (n : ℕ) (base : ℕ) (ps : List FecSourcePacket)
    → Run base ps
    → max_of (map length (payloads ps)) ≤ n
    → All (λ l. (l ≤ 65535) × (l ≤ n)) (map length (payloads ps))
lengths_ok n base [] r h = tt
lengths_ok n base (p ∷ ps) r h =
    ((r.2, omega arith), lengths_ok n (next_sequence base) ps r.3 (omega arith))

flushed-IsFrame :
    (base : ℕ) (ps : List FecSourcePacket)
    → Run base ps
    → length ps ≤ max_fec_group_packets
    → All IsFrame (flushed ps)
unfolding flushed group_frame
flushed-IsFrame base [] r h = tt
flushed-IsFrame base (p ∷ ps) r h =
    elim (Bool-cases (max_of (map length (payloads (p ∷ ps))) == 0)) [
      | inl empty ↦ rw empty tt
      | inr some_bytes ↦ rw some_bytes (frame_ok, tt)
    ]
  where
    group : List (List ℕ)
    group = payloads (p ∷ ps)

    size :
        length (xor_all (replicate (max_of (map length group)) 0) group) ≡ max_of (map length group)
    size = length-xor_all group _ ∙ length-replicate _ 0

    frame_ok : IsFrame (group_frame p.sequence group)
    frame_ok = record {
      base_fits = omega (arith, r.0, r.1);
      group_pos = omega arith;
      group_fits = omega (arith, length-payloads ps);
      lengths_ok = lengths_ok _ base (p ∷ ps) r (omega (arith, size));
    }

flush_or_clear-IsEncoder :
    (e : FecEncoder)
    → IsEncoder e
    → IsEncoder (flush_or_clear e).0 × All IsFrame (flush_or_clear e).1
unfolding flush_or_clear flush
flush_or_clear-IsEncoder e (base, r, h) = elim (Bool-cases (leb 2 (length e.packets))) [
  | inl several ↦ rw several ((0, tt, omega arith), flushed-IsFrame base e.packets r (omega arith))
  | inr few ↦ rw few ((0, tt, omega arith), tt)
]

Run-append :
    (base s : ℕ) (payload : List ℕ) (p : FecSourcePacket) (ps : List FecSourcePacket)
    → Run base (p ∷ ps)
    → last_breaks s (p ∷ ps) ≡ false
    → s ≤ max_media_sequence
    → length payload ≤ 65535
    → Run base (p ∷ (ps ++ (record { sequence = s; payload = payload } ∷ [])))
unfolding last_breaks
Run-append base s payload p [] r h m l =
    let follows : s ≡ next_sequence base =
      sym ((==_iff (next_sequence p.sequence) s).0 (ground arith)) ∙ ap next_sequence r.0 in
    (r.0, r.1, r.2, (follows, (rw follows at m), l, tt))
Run-append base s payload p (q ∷ ps) r h m l =
    (r.0, r.1, r.2, Run-append (next_sequence base) s payload q ps r.3 h m l)

push_source-IsEncoder :
    (group_size s : ℕ) (payload : List ℕ) (e : FecEncoder)
    → IsEncoder e
    → last_breaks s e.packets ≡ false
    → group_size ≤ max_fec_group_packets
    → s ≤ max_media_sequence
    → length payload ≤ 65535
    → IsEncoder (push_source group_size s payload e).0
      × All IsFrame (push_source group_size s payload e).1
unfolding push_source flush
push_source-IsEncoder group_size s payload e (base, r, h) next g m l =
    elim (Bool-cases (leb group_size (length full))) [
      | inl enough ↦
          rw enough
            ((0, tt, omega arith), flushed-IsFrame (grown.0) full (grown.1) (omega (arith, size)))
      | inr few ↦ rw few ((grown.0, grown.1, ground (arith, few)), tt)
    ]
  where
    source : FecSourcePacket
    source = record { sequence = s; payload = payload }

    full : List FecSourcePacket
    full = e.packets ++ (source ∷ [])

    size : length full ≡ length e.packets + 1
    size = length-append e.packets (source ∷ [])

    grow :
        (ps : List FecSourcePacket)
        → Run base ps
        → last_breaks s ps ≡ false
        → (b : ℕ) × Run b (ps ++ (source ∷ []))
    grow [] r' n = (s, (refl, m, l, tt))
    grow (p ∷ ps) r' n = (base, Run-append base s payload p ps r' n m l)

    grown : (b : ℕ) × Run b full
    grown = grow e.packets r next

record_into-IsEncoder :
    (group_size s : ℕ) (payload : List ℕ) (e : FecEncoder)
    → IsEncoder e
    → group_size ≤ max_fec_group_packets
    → s ≤ max_media_sequence
    → IsEncoder (record_into group_size s payload e).0
      × All IsFrame (record_into group_size s payload e).1
unfolding record_into
record_into-IsEncoder group_size s payload e v g m =
    elim (Bool-cases (ltb 65535 (length payload))) [
      | inl large ↦ rw large (flush_or_clear-IsEncoder e v)
      | inr small ↦ elim (Bool-cases (fec_payload_fits (length payload) group_size e.mtu)) [
        | inr wide ↦ rw (small, wide) (flush_or_clear-IsEncoder e v)
        | inl fits ↦ elim (Bool-cases (last_breaks s e.packets)) [
          | inr next ↦
              rw (small, fits, next)
                (push_source-IsEncoder group_size s payload e v next g m (ltb→le _ _ small))
          | inl gap ↦
              let (cleared, sent) = flush_or_clear-IsEncoder e v in
              let (kept, more) =
                push_source-IsEncoder group_size s payload (flush_or_clear e).0 cleared
                  (after_clear e) g m (ltb→le _ _ small) in
              rw (small, fits, gap) (kept, All-append IsFrame (flush_or_clear e).1 _ sent more)
        ]
      ]
    ]
  where
    after_clear : (e : FecEncoder) → last_breaks s (flush_or_clear e).0.packets ≡ false
    after_clear e = unfold flush_or_clear in unfold flush in unfold last_breaks in ground arith

-- The groups that the encoder fills have at most 32 packets, in either mode.
abbrev pub HasGroups : ℕ → FecEncoder → Type 0
HasGroups adaptive e =
    (adaptive ≤ max_fec_group_packets) × ((n : ℕ) → e.mode ≡ fixed n → n ≤ max_fec_group_packets)

-- The encoder never makes a frame that `encode_fec_frame` panics on. From an encoder with less than
-- a full group of consecutive payloads of at most 65535 bytes, with groups of at most 32 and a media
-- sequence, recording a payload leaves such an encoder, and the frames sent meet the assertions of
-- the frame's encoding.
pub record_source-IsEncoder :
    (adaptive s : ℕ) (payload : List ℕ) (e : FecEncoder)
    → IsEncoder e
    → HasGroups adaptive e
    → s ≤ max_media_sequence
    → IsEncoder (record_source adaptive s payload e).0
      × All IsFrame (record_source adaptive s payload e).1
unfolding record_source target_group_size
record_source-IsEncoder adaptive s payload e v g m = go e.mode refl
  where
    go :
        (mode : FecGroupMode)
        → e.mode ≡ mode
        → IsEncoder (record_source adaptive s payload e).0
          × All IsFrame (record_source adaptive s payload e).1
    go disabled q = rw (q, record_source, target_group_size) (v, tt)
    go adaptive_group q =
        rw (q, record_source, target_group_size)
          (record_into-IsEncoder adaptive s payload e v g.0 m)
    go (fixed n) q =
        rw (q, record_source, target_group_size) (record_into-IsEncoder n s payload e v (g.1 n q) m)
