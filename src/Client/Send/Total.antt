-- ===== src/Client/Send/Total.antt =====
-- That `send_payload` of crates/client/src/main.rs sends any payload without a panic.
use irohsion.Prelude.{
  ℕ, ◌+◌, ◌-◌, ◌%◌, ◌≤◌, ◌<◌, ◌≡◌, ◌≢◌, inl, inr, refl, sym, ap, arith, false, not, ◌||◌, List, [],
  ◌∷◌, ◌++◌, Option, none, some, length, take, drop, All, Bool-cases, ==_ne, leb, ◌==◌,
}
use irohsion.Protocol.{PackedHeaderTail, max_media_sequence, max_fragments}
use irohsion.Protocol.Packet.{decode-encode_packet}
use irohsion.Server.Sequence.{next_sequence, next_sequence-le}
use irohsion.Client.Split.{
  Float, packet_split_ranges, packet_exceeds_mtu, should_split, is_mpeg_ts_payload, is_empty,
  nonempty_ranges, weighted_ranges, weighted_split_ranges, mtu_chunks, whole_split_ranges,
  mtu_chunked_split_ranges,
}
use irohsion.Client.Split.Ranges.{Pieces, Pieces-le, within_slice, packet_split_ranges-Pieces}
use irohsion.Client.Split.InRange.{packet_split_ranges_total}
use irohsion.Client.Send.{
  Action, ingested, send_error, Routing, active_paths, among, path_groups, PathFragment,
  encode_fragments, single_fragment_packet, rescue, send_cut, send_split, send_whole, send_packet,
  is_round_robin,
}
use irohsion.Client.Send.Chunks.{
  chunks, Sent, route_chunks, send_in_chunks, send_mpeg_ts_chunks, send_whole_payload, or_whole,
  send_payload, ingest_loop,
}
use irohsion.Client.Send.Chunks.Delivery.{sequence_after-le}
use irohsion.Client.Send.Chunks.Routes.{reads, not_empty, has_route, route_chunks-Delivers, nowhere}

module _ (tail : PackedHeaderTail) (float : Float) where
  encode_fragments-Pieces :
      (seq : ℕ) (payload : List ℕ) (fragments : ℕ) (split_paths : List ℕ)
      (fragment limit start end : ℕ) (ranges : List (ℕ × ℕ × ℕ))
      → seq ≤ max_media_sequence
      → fragments ≤ max_fragments
      → fragment + length ranges ≤ fragments
      → Pieces (length split_paths) limit start end ranges
      → end ≤ length payload
      → (made : List (PathFragment tail float)) × (encode_fragments tail float seq payload fragments
            split_paths fragment ranges
          ≡ some made)
  unfolding encode_fragments
  encode_fragments-Pieces seq payload fragments split_paths fragment limit start end [] h k l p q =
      ([], refl)
  encode_fragments-Pieces seq payload fragments split_paths fragment limit start end
        ((i, a, b) ∷ ranges) h k l p q =
      let (path, read, there) = reads i split_paths p.0 in
      let bytes =
        within_slice a b payload (omega arith)
          (omega (arith, Pieces-le (length split_paths) limit b end ranges p.4)) in
      let (packet, made, len, back) =
        decode-encode_packet tail
          (record { sequence = seq; fragment = fragment; fragments = fragments })
          (take (b - a) (drop a payload))
          (record { sequence_fits = omega arith; fragment_in = omega arith; fragments_fit = k }) in
      let (rest, more) =
        encode_fragments-Pieces seq payload fragments split_paths (fragment + 1) limit b end ranges
          h k (omega arith) p.4 q in
      (
        record { path = path; packet = packet; payload_len = b - a } ∷ rest,
        rw (read, bytes, made, more) refl,
      )

  single_fragment_packet-Made :
      (seq : ℕ) (payload : List ℕ)
      → seq ≤ max_media_sequence
      → (packet : List ℕ) × (single_fragment_packet tail float seq payload ≡ some packet)
  unfolding single_fragment_packet
  single_fragment_packet-Made seq payload h =
      let (packet, made, len, back) =
        decode-encode_packet tail (record { sequence = seq; fragment = 0; fragments = 1 }) payload
          (record {
            sequence_fits = omega arith;
            fragment_in = omega arith;
            fragments_fit = omega arith;
          }) in
      (packet, made)

  rescue-Made :
      (seq : ℕ) (payload rescue_paths : List ℕ) (mtu : Option ℕ)
      → seq ≤ max_media_sequence
      → (actions : List Action) × (rescue tail float seq payload rescue_paths mtu ≡ some actions)
  unfolding rescue
  rescue-Made seq payload rescue_paths mtu h =
      let (packet, made) = single_fragment_packet-Made seq payload h in
      elim (Bool-cases (is_empty rescue_paths || packet_exceeds_mtu (length payload) mtu)) [
        | inl e ↦ rw e ([], refl)
        | inr e ↦ rw (e, made) (_, refl)
      ]

  no_ranges :
      (n : ℕ) (mtu : Option ℕ) (ranges : List (ℕ × ℕ × ℕ))
      → packet_split_ranges float n [] mtu ≡ some (some ranges)
      → ranges ≡ []
  unfolding packet_split_ranges whole_split_ranges mtu_chunked_split_ranges nonempty_ranges
      weighted_split_ranges weighted_ranges
  no_ranges n none ranges e = ground arith
  no_ranges n (some mtu) ranges e = elim (Bool-cases (is_empty (mtu_chunks float n n mtu 0))) [
    | inl h ↦ ground arith
    | inr h ↦ ground arith
  ]

  -- The ranges, for any weights of the paths.
  cut-Pieces :
      (n : ℕ) (weights : List float.F) (mtu : Option ℕ) (ranges : List (ℕ × ℕ × ℕ))
      → packet_split_ranges float n weights mtu ≡ some (some ranges)
      → (limit : ℕ) × (end : ℕ) × Pieces (length weights) limit 0 end ranges
        × (end ≤ n)
        × (length ranges ≤ max_fragments)
  cut-Pieces n [] mtu ranges e =
      let same = no_ranges n mtu ranges e in
      (0, 0, rw same refl, omega arith, rw same (omega arith))
  cut-Pieces n (w ∷ ws) mtu ranges e =
      let (pieces, count) = packet_split_ranges-Pieces float n w ws mtu ranges e in
      (_, n, pieces, omega arith, count)

  module _ (r : Routing tail float)
      (weights : (names : List ℕ) → length (r.active_split_weights names) ≡ length names) where
    send_cut-Made :
        (seq : ℕ) (payload split_paths rescue_paths : List ℕ)
        → seq ≤ max_media_sequence
        → (out : Option (List (ℕ × ℕ × ℕ)))
        → packet_split_ranges float (length payload) (r.active_split_weights split_paths) r.mtu
          ≡ some out
        → (actions : List Action) × (send_cut tail float seq payload r split_paths rescue_paths out
            ≡ some actions)
    unfolding send_cut
    send_cut-Made seq payload split_paths rescue_paths h none e = (send_error ∷ [], refl)
    send_cut-Made seq payload split_paths rescue_paths h (some ranges) e =
        let (limit, end, pieces, within, count) = cut-Pieces _ _ r.mtu ranges e in
        let (made, done) =
          encode_fragments-Pieces seq payload (length ranges) split_paths 0 limit 0 end ranges h
            count (omega arith) (rw (sym (weights split_paths)) pieces) within in
        let (rescued, also) = rescue-Made seq payload rescue_paths r.mtu h in
        rw (done, also) (_, refl)

    send_split-Made :
        (seq : ℕ) (payload split_paths rescue_paths : List ℕ)
        → seq ≤ max_media_sequence
        → (actions : List Action) × (send_split tail float seq payload r split_paths rescue_paths
            ≡ some actions)
    unfolding send_split
    send_split-Made seq payload split_paths rescue_paths h =
        let (out, e) =
          packet_split_ranges_total float (length payload) (r.active_split_weights split_paths)
            r.mtu in
        rw (e, send_split) (send_cut-Made seq payload split_paths rescue_paths h out e)

    send_whole-Made :
        (seq : ℕ) (payload active : List ℕ)
        → seq ≤ max_media_sequence
        → is_empty active ≡ false
        → (actions : List Action) × (send_whole tail float seq payload r active ≡ some actions)
    unfolding send_whole
    send_whole-Made seq payload active h e =
        let (packet, made) = single_fragment_packet-Made seq payload h in
        let (path, read, there) =
          reads (r.round_robin_next % length active) active
            (omega (arith, not_empty tail float active e)) in
        elim (Bool-cases (is_round_robin tail float r.effective)) [
          | inl one ↦ rw (made, one, read) (_, refl)
          | inr every_path ↦ rw (made, every_path) (_, refl)
        ]

    send_packet-Made :
        (seq : ℕ) (payload : List ℕ)
        → seq ≤ max_media_sequence
        → (actions : List Action) × (send_packet tail float seq payload r ≡ some actions)
    unfolding send_packet
    send_packet-Made seq payload h =
        let active = active_paths tail float r.paths in
        let groups = path_groups tail float r in
        let split_paths = among tail float groups.0 active in
        elim (Bool-cases (is_empty active)) [
          | inl e ↦ rw e ([], refl)
          | inr e ↦
              rw e
                elim (Bool-cases (
                  should_split (length payload) r.split_threshold_bytes r.mtu (length split_paths)
                    r.mode r.effective)) [
                      | inl cut ↦ rw cut (
                          send_split-Made seq payload split_paths (among tail float groups.1 active)
                            h)
                      | inr whole ↦ rw whole (send_whole-Made seq payload active h e)
                    ]
        ]

    send_whole_payload-Made :
        (seq : ℕ) (payload : List ℕ)
        → seq ≤ max_media_sequence
        → (sent : Sent) × (send_whole_payload tail float seq payload r ≡ some sent)
          × (sent.1 ≤ max_media_sequence)
    unfolding send_whole_payload
    send_whole_payload-Made seq payload h =
        let (actions, made) = send_packet-Made seq payload h in
        (
          (ingested seq (length payload) ∷ actions, next_sequence seq),
          rw made refl,
          next_sequence-le seq h,
        )

    abbrev IsNext : Option Sent → Type 0
    IsNext none = Unit {0}
    IsNext (some sent) = sent.1 ≤ max_media_sequence

    in_chunks-Made :
        (size seq : ℕ) (payload : List ℕ)
        → 0 < size
        → seq ≤ max_media_sequence
        → is_empty (active_paths tail float r.paths) ≡ false
        → (sent : Sent) × (route_chunks tail float seq
              (chunks (length payload) size payload)
              r
              (active_paths tail float r.paths)
            ≡ some sent)
          × (sent.1 ≤ max_media_sequence)
    in_chunks-Made size seq payload k h e =
        let cs = chunks (length payload) size payload in
        elim (Bool-cases (has_route tail float r)) [
          | inl route ↦
              let (sent, done, delivered) =
                route_chunks-Delivers tail float r seq cs (weights _) h e route in
              (sent, done, rw delivered.next (sequence_after-le seq (length cs) h))
          | inr route ↦ (([], seq), nowhere tail float r seq cs route, h)
        ]

    send_in_chunks-Made :
        (o : Option ℕ) (seq : ℕ) (payload : List ℕ)
        → o ≢ some 0
        → seq ≤ max_media_sequence
        → (out : Option Sent) × (send_in_chunks tail float seq payload r o ≡ some out) × IsNext out
    unfolding send_in_chunks
    send_in_chunks-Made none seq payload k h = (none, refl, tt)
    send_in_chunks-Made (some size) seq payload k h =
        let some_size : (size == 0) ≡ false = ==_ne size 0 (λ z. k (ap (λ (n : ℕ). some n) z)) in
        elim (Bool-cases (leb (length payload) size || not (is_mpeg_ts_payload payload))) [
          | inl whole ↦ rw whole (none, refl, tt)
          | inr cut ↦
              rw (cut, some_size)
                elim (Bool-cases (is_empty (active_paths tail float r.paths))) [
                  | inl e ↦ rw e (some ([], seq), refl, h)
                  | inr e ↦
                      let (sent, done, next) = in_chunks-Made size seq payload (ground arith) h e in
                      rw (e, done) (some sent, refl, next)
                ]
        ]

    -- No payload makes the client panic: with a weight for each path, and a chunk size above 0 if
    -- there is one, `send_payload` returns, and gives a sequence in range for the next datagram.
    pub send_payload-Made :
        (seq : ℕ) (payload : List ℕ)
        → r.mpeg_ts_chunk_bytes ≢ some 0
        → seq ≤ max_media_sequence
        → (sent : Sent) × (send_payload tail float seq payload r ≡ some sent)
          × (sent.1 ≤ max_media_sequence)
    unfolding send_payload send_mpeg_ts_chunks
    send_payload-Made seq payload k h =
        let (out, made, next) = send_in_chunks-Made r.mpeg_ts_chunk_bytes seq payload k h in
        let (sent, done, bound) = or_else out next in (sent, rw made done, bound)
      where
        or_else :
            (out : Option Sent)
            → IsNext out
            → (sent : Sent) × (or_whole tail float seq payload r out ≡ some sent)
              × (sent.1 ≤ max_media_sequence)
        or_else none next = send_whole_payload-Made seq payload h
        or_else (some sent) next = (sent, refl, next)

  -- A datagram with what the client reads at it.
  abbrev pub IsReady : List ℕ × Routing tail float → Type 0
  IsReady (payload, r) =
      ((names : List ℕ) → length (r.active_split_weights names) ≡ length names)
      × (r.mpeg_ts_chunk_bytes ≢ some 0)

  -- The client never panics on what the local peer sends: whatever the datagrams, the connections, the
  -- modes and the weights at each of them, the loop goes through all of them, as long as there is a
  -- weight for each path and the chunk size is above 0 if there is one.
  pub ingest_loop-Made :
      (seq : ℕ) (datagrams : List (List ℕ × Routing tail float))
      → All IsReady datagrams
      → seq ≤ max_media_sequence
      → (sent : Sent) × (ingest_loop tail float seq datagrams ≡ some sent)
        × (sent.1 ≤ max_media_sequence)
  unfolding ingest_loop
  ingest_loop-Made seq [] v h = (([], seq), refl, h)
  ingest_loop-Made seq ((payload, r) ∷ datagrams) v h =
      let (sent, done, next) = send_payload-Made r v.0.0 seq payload v.0.1 h in
      let (later, more, last) = ingest_loop-Made sent.1 datagrams v.1 next in
      ((sent.0 ++ later.0, later.1), rw (done, more) refl, last)
