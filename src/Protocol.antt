-- ===== src/Protocol.antt =====
-- crates/protocol/src/lib.rs: the constants, structs and errors of the wire format, and the
-- interface of the packed header that the `modular_bitfield` macro generates.
-- Bytes are numbers below 256; a `u64` sequence is a number. A panic is `none`.
pub mod Packet
pub mod Repair
pub mod Fec
use irohsion.Prelude.{
  ℕ, ◌+◌, ◌*◌, ◌^◌, ◌%◌, ◌/◌, ◌-◌, ◌≤◌, ◌<◌, ◌≡◌, ◌⊎◌, List, Option, none, some, length, All,
}
use irohsion.Prelude.Bytes.{IsByte, le_value}

abbrev pub header_len : ℕ
header_len = 4

abbrev pub max_sequence : ℕ
max_sequence = 2 ^ 26 - 1

abbrev pub fec_sequence : ℕ
fec_sequence = max_sequence

abbrev pub max_media_sequence : ℕ
max_media_sequence = fec_sequence - 1

abbrev pub max_fragments : ℕ
max_fragments = 7

abbrev pub repair_request_len : ℕ
repair_request_len = 5

abbrev pub repair_all_fragments_mask : ℕ
repair_all_fragments_mask = 2 ^ max_fragments - 1

abbrev pub max_fec_group_packets : ℕ
max_fec_group_packets = 32

pub record PacketHeader : Type 0 where
  pub sequence : ℕ
  pub fragment : ℕ
  pub fragments : ℕ

pub record DecodedPacket : Type 0 where
  pub header : PacketHeader
  pub payload : List ℕ

pub record RepairRequest : Type 0 where
  pub sequence : ℕ
  pub missing_mask : ℕ

pub record FecFrame : Type 0 where
  pub base_sequence : ℕ
  pub payload_lengths : List ℕ
  pub parity : List ℕ

pub data DecodeError : Type 0 where
  too_short : ℕ → DecodeError
  invalid_fragment : ℕ → ℕ → DecodeError

pub data RepairDecodeError : Type 0 where
  invalid_length : ℕ → RepairDecodeError
  invalid_sequence : ℕ → RepairDecodeError
  invalid_missing_mask : ℕ → RepairDecodeError

pub data FecDecodeError : Type 0 where
  invalid_packet : DecodeError → FecDecodeError
  invalid_header : PacketHeader → FecDecodeError
  fec_too_short : ℕ → FecDecodeError
  invalid_magic : FecDecodeError
  invalid_base_sequence : ℕ → FecDecodeError
  invalid_group_size : ℕ → FecDecodeError
  invalid_payload_length : ℕ → FecDecodeError

-- `#[bitfield(bits = 32)] struct PackedHeaderTail { sequence: B26, fragment: B3, fragments: B3 }`.
-- The macro's code is not part of the repository. Its documentation: a checked setter panics on a
-- value that does not fit its field, `into_bytes` lays the fields out from the lowest bit up in
-- little-endian bytes, and the getters of `from_bytes` read them back from those bits.
pub record PackedHeaderTail : Type 0 where
  -- `new().with_sequence(s).with_fragment(f).with_fragments(n).into_bytes()`
  pub into_bytes : ℕ → ℕ → ℕ → Option (List ℕ)
  pub sequence : List ℕ → ℕ
  pub fragment : List ℕ → ℕ
  pub fragments : List ℕ → ℕ
  pub into_bytes_fits :
      (s f n : ℕ)
      → s < 2 ^ 26
      → f < 8
      → n < 8
      → (bs : List ℕ) × (into_bytes s f n ≡ some bs)
        × (length bs ≡ 4)
        × All IsByte bs
        × (le_value bs ≡ s + f * 2 ^ 26 + n * 2 ^ 29)
  pub into_bytes_panics : (s f n : ℕ) → (2 ^ 26 ≤ s) ⊎ (8 ≤ f) ⊎ (8 ≤ n) → into_bytes s f n ≡ none
  pub sequence_bits :
      (bs : List ℕ) → All IsByte bs → length bs ≡ 4 → sequence bs ≡ le_value bs % 2 ^ 26
  pub fragment_bits :
      (bs : List ℕ) → All IsByte bs → length bs ≡ 4 → fragment bs ≡ le_value bs / 2 ^ 26 % 8
  pub fragments_bits :
      (bs : List ℕ) → All IsByte bs → length bs ≡ 4 → fragments bs ≡ le_value bs / 2 ^ 29 % 8

-- What the encoder asserts of a header, with the field widths.
pub record IsHeader (h : PacketHeader) : Type 0 where
  pub sequence_fits : h.sequence ≤ max_sequence
  pub fragment_in : h.fragment < h.fragments
  pub fragments_fit : h.fragments ≤ max_fragments
