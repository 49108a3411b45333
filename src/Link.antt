-- ===== src/Link.antt =====
-- The client and the server together (crates/client/src/main.rs and crates/server/src/main.rs): what becomes
-- of a payload that the client cuts into chunks, when the packets arrive.
use irohsion.Prelude.{
  ℕ, suc, ◌≤◌, ◌<◌, ◌≡◌, refl, ◌==◌, ==_ne, arith, Bool, true, false, List, [], ◌∷◌, some, length,
  All, ok,
}
use irohsion.Prelude.Map.{member}
use irohsion.Protocol.{PackedHeaderTail, max_media_sequence, fec_sequence}
use irohsion.Protocol.Packet.{decode_packet}
use irohsion.Server.Sequence.{next_sequence, next_sequence-le}
use irohsion.Server.Window.{Event}
use irohsion.Server.Frame.{Signal, datagram, arrivals, parse_frame}
use irohsion.Server.Loop.{ReceivedPacket, packet, Config, start, reorder_loop}
use irohsion.Server.Loop.Stream.{Stream, ended, next, Forwards, reorder_loop-Stream}
use irohsion.Client.Split.{Float, is_mpeg_ts_payload, is_empty}
use irohsion.Client.Send.{Action, send, Routing}
use irohsion.Client.Send.Chunks.{Sent, send_mpeg_ts_chunks}
use irohsion.Client.Send.Chunks.Delivery.{Has, Reaches, numbered, concat}
use irohsion.Client.Send.Chunks.Routes.{
  active, split_paths, has_route, send_mpeg_ts_chunks-Delivers,
}

-- How a packet arrives: the time, the remote that it comes from, and the connection.
abbrev pub Label : Type 0
Label = ℕ × List ℕ × ℕ

-- The packets as the server's connections receive them, in order.
abbrev pub hand_over : List Label → List (List ℕ) → List (ℕ × Signal)
hand_over [] packets = []
hand_over (l ∷ labels) [] = []
hand_over ((now, remote, id) ∷ labels) (bytes ∷ packets) =
    (now, datagram remote id bytes) ∷ hand_over labels packets

module _ (tail : PackedHeaderTail) where
  abbrev as_received : ℕ → List ℕ → List ℕ → ℕ → ReceivedPacket
  as_received seq chunk remote id = record {
    remote = remote;
    connection_id = id;
    header = record { sequence = seq; fragment = 0; fragments = 1 };
    payload = chunk;
  }

  arrivals-datagram :
      (seq now id : ℕ) (chunk remote bytes : List ℕ) (signals : List (ℕ × Signal))
      → seq ≤ max_media_sequence
      → decode_packet tail bytes
        ≡ ok (record {
          header = record { sequence = seq; fragment = 0; fragments = 1 };
          payload = chunk;
        })
      → arrivals tail ((now, datagram remote id bytes) ∷ signals)
        ≡ (now, packet (as_received seq chunk remote id)) ∷ arrivals tail signals
  unfolding arrivals parse_frame
  arrivals-datagram seq now id chunk remote bytes signals h back =
      let media : (seq == fec_sequence) ≡ false = ==_ne seq fec_sequence (λ e. omega arith) in
      rw (back, media) refl

  -- A packet that the client sent, on a path that is connected.
  abbrev pub IsSent : List ℕ → List Action → List ℕ → Type 0
  IsSent active actions bytes =
      (path : ℕ) × (len : ℕ) × (member path active ≡ true) × Has (send path bytes len) actions

  -- One packet for each chunk.
  packets_of :
      (float : Float) (actives : List ℕ) (actions : List Action) (seq : ℕ) (cs : List (List ℕ))
      → seq ≤ max_media_sequence
      → All (Reaches tail float actives actions) (numbered seq cs)
      → (packets : List (List ℕ)) × All (IsSent actives actions) packets
        × ((labels : List Label)
            → length labels ≡ length cs
            → Stream seq cs (arrivals tail (hand_over labels packets)))
  unfolding arrivals
  packets_of float actives actions seq [] h reached = ([], tt, none_left)
    where
      none_left :
          (labels : List Label)
          → length labels ≡ 0
          → Stream seq [] (arrivals tail (hand_over labels []))
      none_left [] e = ended seq
      none_left (l ∷ labels) e = ended seq
  packets_of float actives actions seq (chunk ∷ cs) h reached =
      let (path, bytes, there, has, back) = reached.0 in
      let (packets, sent, streams) =
        packets_of float actives actions (next_sequence seq) cs (next_sequence-le seq h)
          reached.1 in
      (
        bytes ∷ packets,
        ((path, length chunk, there, has), sent),
        λ labels e. one_more bytes packets labels e back streams,
      )
    where
      one_more :
          (bytes : List ℕ) (packets : List (List ℕ)) (labels : List Label)
          → length labels ≡ suc (length cs)
          → decode_packet tail bytes
            ≡ ok (record {
              header = record { sequence = seq; fragment = 0; fragments = 1 };
              payload = chunk;
            })
          → ((rest : List Label)
              → length rest ≡ length cs
              → Stream (next_sequence seq) cs (arrivals tail (hand_over rest packets)))
          → Stream seq (chunk ∷ cs) (arrivals tail (hand_over labels (bytes ∷ packets)))
      one_more bytes packets [] e back streams = absurd (omega arith)
      one_more bytes packets ((now, remote, id) ∷ labels) e back streams =
          rw (arrivals-datagram seq now id chunk remote bytes (hand_over labels packets) h back)
            (next now (as_received seq chunk remote id) refl (streams labels (omega arith)))

  module _ (socket : List Event → List ℕ → Bool) (config : Config)
      (works : (log : List Event) (payload : List ℕ) → socket log payload ≡ true) where
    -- The server forwards the chunks when their packets arrive.
    abbrev pub Passes : List (List ℕ) → List (List ℕ) → Type 0
    Passes cs packets =
        (labels : List Label)
        → length labels ≡ length cs
        → Forwards socket config works cs []
            (reorder_loop socket config (arrivals tail (hand_over labels packets)) start)

    packets-Passes :
        (float : Float) (actives : List ℕ) (actions : List Action) (seq : ℕ) (cs : List (List ℕ))
        → seq ≤ max_media_sequence
        → All (Reaches tail float actives actions) (numbered seq cs)
        → (packets : List (List ℕ)) × All (IsSent actives actions) packets × Passes cs packets
    unfolding arrivals reorder_loop
    packets-Passes float actives actions seq [] h reached = ([], tt, none_left)
      where
        none_left : Passes [] []
        none_left [] e = (refl, λ clean. clean)
        none_left (l ∷ labels) e = absurd (omega arith)
    packets-Passes float actives actions seq (chunk ∷ cs) h reached =
        let (path, bytes, there, has, back) = reached.0 in
        let (packets, sent, streams) =
          packets_of float actives actions (next_sequence seq) cs (next_sequence-le seq h)
            reached.1 in
        (
          bytes ∷ packets,
          ((path, length chunk, there, has), sent),
          first_passes bytes packets back streams,
        )
      where
        first_passes :
            (bytes : List ℕ) (packets : List (List ℕ))
            → decode_packet tail bytes
              ≡ ok (record {
                header = record { sequence = seq; fragment = 0; fragments = 1 };
                payload = chunk;
              })
            → ((rest : List Label)
                → length rest ≡ length cs
                → Stream (next_sequence seq) cs (arrivals tail (hand_over rest packets)))
            → Passes (chunk ∷ cs) (bytes ∷ packets)
        first_passes bytes packets back streams [] e = absurd (omega arith)
        first_passes bytes packets back streams ((now, remote, id) ∷ labels) e =
            rw (arrivals-datagram seq now id chunk remote bytes (hand_over labels packets) h back) (
              reorder_loop-Stream socket config works now (as_received seq chunk remote id) cs
                (arrivals tail (hand_over labels packets)) refl (streams labels (omega arith)))

    -- What goes in comes out: for every MPEG-TS payload that is longer than the chunk size, which
    -- is above 0, and every media sequence to start with, with a weight for each path, under
    -- whatever strategy it has a connected path for, the client sends a packet for each chunk on a
    -- connected path. When these packets arrive in order at a server that has just started and
    -- whose socket works, over whatever connections and at whatever times, then the server
    -- forwards payloads that make up that payload, skips nothing, and asks for nothing again.
    pub payload_round_trip :
        (float : Float) (r : Routing tail float) (size seq : ℕ) (payload : List ℕ)
        → r.mpeg_ts_chunk_bytes ≡ some size
        → 0 < size
        → size < length payload
        → is_mpeg_ts_payload payload ≡ true
        → length (r.active_split_weights (split_paths tail float r))
          ≡ length (split_paths tail float r)
        → seq ≤ max_media_sequence
        → is_empty (active tail float r) ≡ false
        → has_route tail float r ≡ true
        → (cs : List (List ℕ)) × (packets : List (List ℕ)) × (sent : Sent) × (send_mpeg_ts_chunks
              tail float seq payload r
            ≡ some (some sent))
          × All (IsSent (active tail float r) sent.0) packets
          × (concat cs ≡ payload)
          × Passes cs packets
    payload_round_trip float r size seq payload set some_size long media w h e route =
        let (cs, same, short, sent, done, delivered) =
          send_mpeg_ts_chunks-Delivers tail float r size seq payload set some_size long media w h e
            route in
        let (packets, all_sent, passes) =
          packets-Passes float (active tail float r) sent.0 seq cs h delivered.reached in
        (cs, packets, sent, done, all_sent, same, passes)
