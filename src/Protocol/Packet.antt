-- ===== src/Protocol/Packet.antt =====
-- `encode_packet` and `decode_packet` of crates/protocol/src/lib.rs.
use irohsion.Prelude.{
  ℕ, ◌+◌, ◌^◌, ◌%◌, ◌/◌, ◌≤◌, ◌<◌, ◌≡◌, inl, inr, ◌&&◌, ◌||◌, List, ◌++◌, Option, none, some,
  length, All, take, drop, Result, ok, err, ltb, leb, ◌==◌, if◌then◌else◌, arith, length-append,
  take-append-drop, length-take, take-append, drop-append, All-take, Bool-cases, ltb→le,
}
use irohsion.Prelude.Bytes.{IsByte, le_value, le_value_bound, le_value-injective}
use irohsion.Protocol.{
  header_len, max_sequence, PacketHeader, DecodedPacket, DecodeError, too_short, invalid_fragment,
  PackedHeaderTail, IsHeader,
}
use mathlib.Core.Option

module _ (tail : PackedHeaderTail) where
  unfoldable pub encode_packet : PacketHeader → List ℕ → Option (List ℕ)
  encode_packet header payload =
      if leb header.sequence max_sequence
        && (ltb 0 header.fragments && ltb header.fragment header.fragments)
      then Option.map (λ bytes. bytes ++ payload)
          (tail.into_bytes (header.sequence % 2 ^ 32) header.fragment header.fragments)
      else none

  unfoldable pub decode_packet : List ℕ → Result DecodeError DecodedPacket
  decode_packet bytes =
      if ltb (length bytes) header_len
      then err (too_short (length bytes))
      else let front = take 4 bytes in
        let fragment = tail.fragment front in
        let fragments = tail.fragments front in
        if fragments == 0 || leb fragments fragment
        then err (invalid_fragment fragment fragments)
        else ok (record {
          header = record {
            sequence = tail.sequence front;
            fragment = fragment;
            fragments = fragments;
          };
          payload = drop 4 bytes;
        })

  -- Every valid header with every payload is encoded in four bytes more than the payload, and
  -- decoding gives both back.
  pub decode-encode_packet :
      (h : PacketHeader) (payload : List ℕ)
      → IsHeader h
      → (bytes : List ℕ) × (encode_packet h payload ≡ some bytes)
        × (length bytes ≡ header_len + length payload)
        × (decode_packet bytes ≡ ok (record { header = h; payload = payload }))
  unfolding encode_packet decode_packet
  decode-encode_packet h payload v =
      let (front, made, len, isb, val) =
        tail.into_bytes_fits (h.sequence % 2 ^ 32) h.fragment h.fragments (omega arith)
          (omega arith) (omega arith) in
      (
        front ++ payload,
        ground (arith, made),
        omega (arith, length-append front payload),
        rw (take-append 4 front payload len, drop-append 4 front payload len)
            (ground (
              arith,
              length-append front payload,
              tail.sequence_bits front isb len,
              tail.fragment_bits front isb len,
              tail.fragments_bits front isb len,
            )),
      )

  header_bits :
      (bytes : List ℕ) (r : DecodedPacket)
      → All IsByte bytes
      → decode_packet bytes ≡ ok r
      → (4 ≤ length bytes)
        × (r.header.sequence ≡ le_value (take 4 bytes) % 2 ^ 26)
        × (r.header.fragment ≡ le_value (take 4 bytes) / 2 ^ 26 % 8)
        × (r.header.fragments ≡ le_value (take 4 bytes) / 2 ^ 29 % 8)
        × (r.header.fragment < r.header.fragments)
        × (r.payload ≡ drop 4 bytes)
  unfolding decode_packet
  header_bits bytes r isb e = elim (Bool-cases (ltb (length bytes) 4)) [
    | inl short ↦ ground arith
    | inr long ↦
        let len : length (take 4 bytes) ≡ 4 = omega (arith, length-take 4 bytes, ltb→le _ _ long) in
        ground (
          arith,
          tail.sequence_bits (take 4 bytes) (All-take IsByte 4 bytes isb) len,
          tail.fragment_bits (take 4 bytes) (All-take IsByte 4 bytes isb) len,
          tail.fragments_bits (take 4 bytes) (All-take IsByte 4 bytes isb) len,
        )
  ]

  pub decode_packet-payload :
      (bytes : List ℕ) (r : DecodedPacket) → decode_packet bytes ≡ ok r → r.payload ≡ drop 4 bytes
  unfolding decode_packet
  decode_packet-payload bytes r e = ground arith

  -- Bytes that decode to a packet have a valid header in it, and are the encoding of that packet.
  pub encode-decode_packet :
      (bytes : List ℕ) (r : DecodedPacket)
      → All IsByte bytes
      → decode_packet bytes ≡ ok r
      → IsHeader r.header × (encode_packet r.header r.payload ≡ some bytes)
  unfolding encode_packet
  encode-decode_packet bytes r isb e =
      let (long, s, f, n, lt, p) = header_bits bytes r isb e in
      let len : length (take 4 bytes) ≡ 4 = omega (arith, length-take 4 bytes) in
      let (front, made, flen, fisb, val) =
        tail.into_bytes_fits (r.header.sequence % 2 ^ 32) r.header.fragment r.header.fragments
          (omega arith) (omega arith) (omega arith) in
      let same : front ≡ take 4 bytes =
        le_value-injective front (take 4 bytes) fisb (All-take IsByte 4 bytes isb) (omega arith)
          (omega (arith, le_value_bound (take 4 bytes) (All-take IsByte 4 bytes isb) len)) in
      (
        record { sequence_fits = omega arith; fragment_in = lt; fragments_fit = omega arith },
        ground (arith, made, same, p, take-append-drop 4 bytes),
      )
