-- ===== src/Tests/Protocol.antt =====
-- The wire format of crates/protocol/src/lib.rs on concrete packets.
use irohsion.Prelude.{ℕ, ◌≡◌, refl, ◌+◌, List, [], ◌∷◌, some, length, ok, arith, All}
use irohsion.Prelude.Bytes.{IsByte, le_value}
use irohsion.Protocol.{
  PacketHeader, RepairRequest, FecFrame, IsHeader, header_len, repair_request_len,
}
use irohsion.Protocol.Packet.{
  encode_packet, decode_packet, decode-encode_packet, encode-decode_packet,
}
use irohsion.Protocol.Repair.{
  encode_repair_request, decode_repair_request, decode-encode_repair_request, IsRequest,
  encode-decode_repair_request,
}
use irohsion.Protocol.Fec.{
  encode_fec_frame, decode_fec_frame, decode_fec_payload, IsFrame, decode-encode_fec_frame,
  decode_fec_frame-IsFrame,
}
use irohsion.Tests.{packed}

abbrev header : PacketHeader
header = record { sequence = 70000; fragment = 1; fragments = 3 }

header-IsHeader : IsHeader header
header-IsHeader = record {
  sequence_fits = omega arith;
  fragment_in = omega arith;
  fragments_fit = omega arith;
}

decode-encode_packet_example :
    (bytes : List ℕ) × (encode_packet packed header (9 ∷ 8 ∷ []) ≡ some bytes)
    × (length bytes ≡ header_len + 2)
    × (decode_packet packed bytes ≡ ok (record { header = header; payload = 9 ∷ 8 ∷ [] }))
decode-encode_packet_example = decode-encode_packet packed header (9 ∷ 8 ∷ []) header-IsHeader

abbrev wire : List ℕ
wire = 112 ∷ 17 ∷ 1 ∷ 100 ∷ 9 ∷ 8 ∷ []

wire-IsByte : All IsByte wire
wire-IsByte = ground arith

wire_decodes : decode_packet packed wire ≡ ok (record { header = header; payload = 9 ∷ 8 ∷ [] })
unfolding decode_packet le_value
wire_decodes = refl

encode-decode_packet_example :
    IsHeader header × (encode_packet packed header (9 ∷ 8 ∷ []) ≡ some wire)
encode-decode_packet_example =
    encode-decode_packet packed wire (record { header = header; payload = 9 ∷ 8 ∷ [] }) wire-IsByte
      wire_decodes

abbrev request : RepairRequest
request = record { sequence = 258; missing_mask = 5 }

request-IsRequest : IsRequest request
request-IsRequest = record {
  sequence_fits = omega arith;
  mask_pos = omega arith;
  mask_fits = omega arith;
}

decode-encode_repair_request_example :
    (bytes : List ℕ) × (encode_repair_request request ≡ some bytes)
    × (length bytes ≡ repair_request_len)
    × (decode_repair_request bytes ≡ ok request)
decode-encode_repair_request_example = decode-encode_repair_request request request-IsRequest

abbrev request_bytes : List ℕ
request_bytes = 2 ∷ 1 ∷ 0 ∷ 0 ∷ 5 ∷ []

request_bytes-IsByte : All IsByte request_bytes
request_bytes-IsByte = ground arith

request_decodes : decode_repair_request request_bytes ≡ ok request
unfolding decode_repair_request
request_decodes = refl

encode-decode_repair_request_example :
    IsRequest request × (encode_repair_request request ≡ some request_bytes)
encode-decode_repair_request_example =
    encode-decode_repair_request request_bytes request request_bytes-IsByte request_decodes

abbrev group : FecFrame
group = record { base_sequence = 7; payload_lengths = 2 ∷ 1 ∷ []; parity = 3 ∷ 4 ∷ [] }

group-IsFrame : IsFrame group
group-IsFrame = record {
  base_fits = omega arith;
  group_pos = omega arith;
  group_fits = omega arith;
  lengths_ok = ((omega arith, omega arith), ((omega arith, omega arith), tt));
}

decode-encode_fec_frame_example :
    (bytes : List ℕ) × (encode_fec_frame packed group ≡ some bytes)
    × (decode_fec_frame packed bytes ≡ ok group)
decode-encode_fec_frame_example = decode-encode_fec_frame packed group group-IsFrame

abbrev group_bytes : List ℕ
group_bytes =
    255 ∷ 255 ∷ 255 ∷ 35 ∷ 73 ∷ 70 ∷ 69 ∷ 67 ∷ 49 ∷ 7 ∷ 0 ∷ 0 ∷ 0 ∷ 2 ∷ 2 ∷ 0 ∷ 1 ∷ 0 ∷ 3 ∷ 4 ∷ []

group_bytes-IsByte : All IsByte group_bytes
group_bytes-IsByte = ground arith

group_decodes : decode_fec_frame packed group_bytes ≡ ok group
unfolding decode_fec_frame decode_packet decode_fec_payload
group_decodes = refl

decode_fec_frame-IsFrame_example : IsFrame group
decode_fec_frame-IsFrame_example =
    decode_fec_frame-IsFrame packed group_bytes group group_bytes-IsByte group_decodes
