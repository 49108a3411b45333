-- ===== src/Server/Frame/Sound.antt =====
-- The server of crates/server/src/main.rs on any datagrams.
use irohsion.Prelude.{
  ℕ, ◌≡◌, refl, ◌==◌, arith, Bool, List, [], ◌∷◌, Result, ok, err, All, Bool-cases, inl, inr,
}
use irohsion.Prelude.Bytes.{IsByte}
use irohsion.Protocol.{
  PackedHeaderTail, DecodeError, FecDecodeError, FecFrame, DecodedPacket, fec_sequence,
}
use irohsion.Protocol.Packet.{decode_packet, encode-decode_packet}
use irohsion.Protocol.Fec.{decode_fec_frame}
use irohsion.Server.Window.{Event}
use irohsion.Server.Window.Sound.{Sound}
use irohsion.Server.Loop.{Arrival, Config, start, reorder_loop}
use irohsion.Server.Loop.Sound.{IsArrival, reorder_loop-Sound}
use irohsion.Server.Frame.{
  FrameError, Signal, datagram, silence, fec_arrival, arrival_of, and_arrival, parse_frame,
  arrivals,
}

-- A datagram is made of bytes.
abbrev pub IsSignal : Signal → Type 0
IsSignal (datagram remote connection_id bytes) = All IsByte bytes
IsSignal silence = Unit {0}

module _ (tail : PackedHeaderTail) where
  abbrev Passes : Result FrameError Arrival → Type 0
  Passes (err e) = Unit {0}
  Passes (ok arrival) = IsArrival arrival

  fec_arrival-Passes :
      (remote : List ℕ) (r : Result FecDecodeError FecFrame) → Passes (fec_arrival tail remote r)
  fec_arrival-Passes remote (err e) = tt
  fec_arrival-Passes remote (ok frame) = tt

  arrival_of-Passes :
      (remote : List ℕ) (connection_id : ℕ) (bytes : List ℕ) (r : Result DecodeError DecodedPacket)
      → All IsByte bytes
      → decode_packet tail bytes ≡ r
      → Passes (arrival_of tail remote connection_id bytes r)
  arrival_of-Passes remote connection_id bytes (err e) h made = tt
  arrival_of-Passes remote connection_id bytes (ok p) h made =
      let (header, back) = encode-decode_packet tail bytes p h made in
      elim (Bool-cases (p.header.sequence == fec_sequence)) [
        | inl parity ↦ rw parity (fec_arrival-Passes remote (decode_fec_frame tail bytes))
        | inr media ↦
            rw media (
              ground (arith, media, header.sequence_fits),
              header.fragment_in,
              header.fragments_fit,
            )
      ]

  arrivals-IsArrival :
      (signals : List (ℕ × Signal))
      → All (λ s. IsSignal s.1) signals
      → All (λ e. IsArrival e.1) (arrivals tail signals)
  unfolding arrivals parse_frame
  arrivals-IsArrival [] h = tt
  arrivals-IsArrival ((now, silence) ∷ signals) h = (tt, arrivals-IsArrival signals h.1)
  arrivals-IsArrival ((now, datagram remote connection_id bytes) ∷ signals) h =
      go (arrival_of tail remote connection_id bytes (decode_packet tail bytes))
        (arrival_of-Passes remote connection_id bytes (decode_packet tail bytes) h.0 refl)
        (arrivals-IsArrival signals h.1)
    where
      go :
          (r : Result FrameError Arrival)
          → Passes r
          → All (λ e. IsArrival e.1) (arrivals tail signals)
          → All (λ e. IsArrival e.1) (and_arrival tail now r (arrivals tail signals))
      go (err e) k later = later
      go (ok arrival) k later = (k, later)

  -- Whatever bytes the connections receive, in whatever order and at whatever times, and wherever the
  -- output socket fails: the reorder loop never panics, neither on an index, nor on a missing fragment,
  -- nor in `encode_repair_request`. Its position stays a media sequence, every assembly that waits is
  -- well formed, and every repair request that it ever sent, also in a run that ends with an error of
  -- the socket, names a sequence and at least one of the seven fragments.
  pub reorder_loop-arrivals :
      (socket : List Event → List ℕ → Bool) (config : Config) (signals : List (ℕ × Signal))
      → All (λ s. IsSignal s.1) signals
      → Sound (reorder_loop socket config (arrivals tail signals) start)
  reorder_loop-arrivals socket config signals h =
      reorder_loop-Sound socket config (arrivals tail signals) (arrivals-IsArrival signals h)
