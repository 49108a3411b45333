-- ===== src/Server/Frame.antt =====
-- `parse_frame` of crates/server/src/main.rs, and the datagrams that the connections hand to the loop.
pub mod Sound
use irohsion.Prelude.{
  ℕ, ◌≡◌, ◌==◌, if◌then◌else◌, Bool, true, false, List, [], ◌∷◌, Option, none, some, Result, ok,
  err, All,
}
use irohsion.Protocol.{
  PackedHeaderTail, DecodeError, FecDecodeError, FecFrame, DecodedPacket, fec_sequence,
}
use irohsion.Protocol.Packet.{decode_packet}
use irohsion.Protocol.Fec.{decode_fec_frame}
use irohsion.Server.Loop.{Arrival, packet, fec, timed_out}

pub data FrameError : Type 0 where
  bad_packet : DecodeError → FrameError
  bad_fec : FecDecodeError → FrameError

-- A datagram of a remote's connection, or the timeout of the loop.
pub data Signal : Type 0 where
  datagram : List ℕ → ℕ → List ℕ → Signal
  silence : Signal

module _ (tail : PackedHeaderTail) where
  abbrev fec_arrival : List ℕ → Result FecDecodeError FecFrame → Result FrameError Arrival
  fec_arrival remote (err e) = err (bad_fec e)
  fec_arrival remote (ok frame) = ok (fec (record { remote = remote; frame = frame }))

  abbrev arrival_of :
      List ℕ → ℕ → List ℕ → Result DecodeError DecodedPacket → Result FrameError Arrival
  arrival_of remote connection_id bytes (err e) = err (bad_packet e)
  arrival_of remote connection_id bytes (ok p) =
      if p.header.sequence == fec_sequence
      then fec_arrival remote (decode_fec_frame tail bytes)
      else ok (
          packet (record {
            remote = remote;
            connection_id = connection_id;
            header = p.header;
            payload = p.payload;
          }))

  unfoldable pub parse_frame : List ℕ → List ℕ → ℕ → Result FrameError Arrival
  parse_frame bytes remote connection_id =
      arrival_of remote connection_id bytes (decode_packet tail bytes)

  abbrev and_arrival : ℕ → Result FrameError Arrival → List (ℕ × Arrival) → List (ℕ × Arrival)
  and_arrival now (err e) later = later
  and_arrival now (ok arrival) later = (now, arrival) ∷ later

  -- What the loop gets of the datagrams: those that are not frames are left out.
  unfoldable pub arrivals : List (ℕ × Signal) → List (ℕ × Arrival)
  unfolding parse_frame
  arrivals [] = []
  arrivals ((now, silence) ∷ signals) = (now, timed_out) ∷ arrivals signals
  arrivals ((now, datagram remote connection_id bytes) ∷ signals) =
      and_arrival now (parse_frame bytes remote connection_id) (arrivals signals)
