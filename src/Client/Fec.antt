-- ===== src/Client/Fec.antt =====
-- `FecEncoder` of crates/client/src/main.rs. The frames that it hands to `encode_fec_frame` and
-- `send_fec_packet` are its output; `adaptive` is what `adaptive_fec_group_packets` answers.
pub mod Recovery
use irohsion.Prelude.{
  ℕ, zero, suc, ◌+◌, ◌*◌, ◌-◌, ◌≤◌, ◌<◌, ◌≡◌, ◌==◌, if◌then◌else◌, ltb, leb, Bool, true, false, not,
  List, [], ◌∷◌, ◌++◌, map, Option, none, some, length, Result, ok, err, replicate, max, max_of,
}
use irohsion.Prelude.Parity.{xor_all}
use irohsion.Protocol.{max_fec_group_packets, FecFrame}
use irohsion.Server.Sequence.{next_sequence}

abbrev fec_frame_payload_overhead_without_lengths : ℕ
fec_frame_payload_overhead_without_lengths = 10

pub record FecSourcePacket : Type 0 where
  pub sequence : ℕ
  pub payload : List ℕ

pub data FecGroupMode : Type 0 where
  disabled : FecGroupMode
  adaptive_group : FecGroupMode
  fixed : ℕ → FecGroupMode

pub record FecEncoder : Type 0 where
  pub mode : FecGroupMode
  pub mtu : Option ℕ
  pub packets : List FecSourcePacket

-- The two refusals of `--fec-group-packets`.
pub data GroupError : Type 0 where
  group_of_one : GroupError
  group_too_large : GroupError

abbrev encoder : FecGroupMode → Option ℕ → FecEncoder
encoder mode mtu = record { mode = mode; mtu = mtu; packets = [] }

unfoldable pub new : Bool → ℕ → Option ℕ → Result GroupError FecEncoder
new true group_size mtu = ok (encoder disabled mtu)
new false group_size mtu =
    if group_size == 0
    then ok (encoder adaptive_group mtu)
    else if group_size == 1
    then err group_of_one
    else if ltb max_fec_group_packets group_size
    then err group_too_large
    else ok (encoder (fixed group_size) mtu)

unfoldable pub max_fec_source_payload_len : Option ℕ → ℕ → Option ℕ
max_fec_source_payload_len none group_size = none
max_fec_source_payload_len (some mtu) group_size =
    some (mtu - (fec_frame_payload_overhead_without_lengths + group_size * 2))

unfoldable pub fec_payload_fits : ℕ → ℕ → Option ℕ → Bool
unfolding max_fec_source_payload_len
fec_payload_fits payload_len group_size mtu = elim (max_fec_source_payload_len mtu group_size) [
  | none ↦ true
  | some max_len ↦ leb payload_len max_len
]

unfoldable pub target_group_size : ℕ → FecEncoder → Option ℕ
target_group_size adaptive e = elim e.mode [
  | disabled ↦ none
  | adaptive_group ↦ some adaptive
  | fixed group_size ↦ some group_size
]

abbrev pub payloads : List FecSourcePacket → List (List ℕ)
payloads packets = map (λ (p : FecSourcePacket). p.payload) packets

abbrev pub clear : FecEncoder → FecEncoder
clear e = record e { packets = [] }

-- The frame over a group that starts with `base_sequence`. The parity has the length of the longest
-- payload, so that every index of a payload is within it.
unfoldable pub group_frame : ℕ → List (List ℕ) → FecFrame
group_frame base_sequence group = record {
  base_sequence = base_sequence;
  payload_lengths = map length group;
  parity = xor_all (replicate (max_of (map length group)) 0) group;
}

-- The frame that `flush` sends, if any.
unfoldable pub flushed : List FecSourcePacket → List FecFrame
unfolding group_frame
flushed [] = []
flushed (p ∷ ps) =
    let group = payloads (p ∷ ps) in
    if max_of (map length group) == 0 then [] else group_frame p.sequence group ∷ []

unfoldable pub flush : FecEncoder → FecEncoder × List FecFrame
unfolding flushed
flush e = (clear e, flushed e.packets)

unfoldable pub flush_or_clear : FecEncoder → FecEncoder × List FecFrame
unfolding flush
flush_or_clear e = if leb 2 (length e.packets) then flush e else (clear e, [])

-- `.last().is_some_and(|packet| next_sequence(packet.sequence) != sequence)`
unfoldable pub last_breaks : ℕ → List FecSourcePacket → Bool
unfolding next_sequence
last_breaks sequence [] = false
last_breaks sequence (p ∷ []) = not (next_sequence p.sequence == sequence)
last_breaks sequence (p ∷ q ∷ ps) = last_breaks sequence (q ∷ ps)

-- `push`, and the flush of a full group.
unfoldable pub push_source : ℕ → ℕ → List ℕ → FecEncoder → FecEncoder × List FecFrame
unfolding flush
push_source group_size sequence payload e =
    let source : FecSourcePacket = record { sequence = sequence; payload = payload } in
    let full : FecEncoder = record e { packets = e.packets ++ (source ∷ []) } in
    if leb group_size (length full.packets) then flush full else (full, [])

unfoldable pub record_into : ℕ → ℕ → List ℕ → FecEncoder → FecEncoder × List FecFrame
unfolding flush_or_clear fec_payload_fits last_breaks push_source
record_into group_size sequence payload e =
    if ltb 65535 (length payload)
    then flush_or_clear e
    else if not (fec_payload_fits (length payload) group_size e.mtu)
    then flush_or_clear e
    else let first = if last_breaks sequence e.packets then flush_or_clear e else (e, []) in
      let second = push_source group_size sequence payload first.0 in
      (second.0, first.1 ++ second.1)

-- `FecEncoder::record`
unfoldable pub record_source : ℕ → ℕ → List ℕ → FecEncoder → FecEncoder × List FecFrame
unfolding target_group_size record_into
record_source adaptive sequence payload e = elim (target_group_size adaptive e) [
  | none ↦ (e, [])
  | some group_size ↦ record_into group_size sequence payload e
]
