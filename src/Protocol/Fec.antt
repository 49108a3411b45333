-- ===== src/Protocol/Fec.antt =====
-- `encode_fec_frame` and `decode_fec_frame` of crates/protocol/src/lib.rs: a frame of forward error
-- correction rides in a packet of the reserved sequence number.
use irohsion.Prelude.{
  ℕ, zero, suc, ◌+◌, ◌*◌, ◌^◌, ◌%◌, ◌≤◌, ◌<◌, ◌≡◌, refl, inl, inr, Bool, true, false, not, ◌&&◌,
  ◌||◌, List, [], ◌∷◌, ◌++◌, Option, none, some, length, All, take, drop, Result, ok, err, ltb, leb,
  ◌==◌, if◌then◌else◌, arith, length-append, length-drop, Result-cases, All-drop, max_of,
}
use irohsion.Prelude.Bytes.{
  bytes_eq, IsByte, le_value, u32_to_le_bytes, u16_to_le_bytes, le_value-u32,
}
use irohsion.Protocol.{
  fec_sequence, max_media_sequence, max_fec_group_packets, PacketHeader, FecFrame, FecDecodeError,
  invalid_packet, invalid_header, fec_too_short, invalid_magic, invalid_base_sequence,
  invalid_group_size, invalid_payload_length, PackedHeaderTail,
}
use irohsion.Protocol.Packet.{
  encode_packet, decode_packet, decode-encode_packet, decode_packet-payload,
}

abbrev fec_magic : List ℕ
fec_magic = b'I' ∷ b'F' ∷ b'E' ∷ b'C' ∷ b'1' ∷ []

-- `.all(|length| *length <= u16::MAX && *length <= parity_len)`
unfoldable pub lengths_fit : ℕ → List ℕ → Bool
lengths_fit parity_len [] = true
lengths_fit parity_len (l ∷ ls) = (leb l 65535 && leb l parity_len) && lengths_fit parity_len ls

-- `.any(|length| *length > parity_len)`
unfoldable pub any_longer : ℕ → List ℕ → Bool
any_longer parity_len [] = false
any_longer parity_len (l ∷ ls) = ltb parity_len l || any_longer parity_len ls

unfoldable pub write_lengths : List ℕ → List ℕ
unfolding u16_to_le_bytes
write_lengths [] = []
write_lengths (l ∷ ls) = u16_to_le_bytes l ++ write_lengths ls

-- The `for _ in 0..count` loop of the decoder: the lengths, and what follows them.
unfoldable pub read_lengths : ℕ → List ℕ → List ℕ × List ℕ
unfolding le_value
read_lengths zero bytes = ([], bytes)
read_lengths (suc count) bytes =
    let (ls, rest) = read_lengths count (drop 2 bytes) in (le_value (take 2 bytes) ∷ ls, rest)

abbrev fec_header : PacketHeader
fec_header = record { sequence = fec_sequence; fragment = 0; fragments = 1 }

-- `payload[offset]`, past the length check.
abbrev first : List ℕ → ℕ
first bytes = elim bytes [ [] ↦ 0 | b ∷ r ↦ b ]

-- What the encoder puts behind the packet header.
unfoldable pub fec_payload : FecFrame → List ℕ
unfolding u32_to_le_bytes write_lengths
fec_payload frame =
    fec_magic
    ++ (u32_to_le_bytes (frame.base_sequence % 2 ^ 32)
        ++ (length frame.payload_lengths ∷ (write_lengths frame.payload_lengths ++ frame.parity)))

-- The decoder's checks of the payload, from the magic on.
unfoldable pub decode_fec_payload : List ℕ → Result FecDecodeError FecFrame
unfolding le_value read_lengths any_longer
decode_fec_payload payload =
    let base_sequence = le_value (take 4 (drop 5 payload)) in
    let count = first (drop 9 payload) in
    let lengths = read_lengths count (drop 10 payload) in
    if ltb (length payload) 10
    then err (fec_too_short (length payload))
    else if not (bytes_eq (take 5 payload) fec_magic)
    then err invalid_magic
    else if ltb max_media_sequence base_sequence
    then err (invalid_base_sequence base_sequence)
    else if count == 0 || ltb max_fec_group_packets count
    then err (invalid_group_size count)
    else if ltb (length payload) (10 + count * 2)
    then err (fec_too_short (length payload))
    else if any_longer (length lengths.1) lengths.0
    then err (invalid_payload_length (max_of lengths.0))
    else ok
        (record { base_sequence = base_sequence; payload_lengths = lengths.0; parity = lengths.1 })

-- What the encoder asserts of a frame.
pub record IsFrame (f : FecFrame) : Type 0 where
  pub base_fits : f.base_sequence ≤ max_media_sequence
  pub group_pos : 0 < length f.payload_lengths
  pub group_fits : length f.payload_lengths ≤ max_fec_group_packets
  pub lengths_ok : All (λ l. (l ≤ 65535) × (l ≤ length f.parity)) f.payload_lengths

length-write_lengths : (ls : List ℕ) → length (write_lengths ls) ≡ length ls * 2
unfolding write_lengths
length-write_lengths [] = refl
length-write_lengths (l ∷ ls) = omega (arith, length-write_lengths ls)

read-write_lengths :
    (n : ℕ) (ls rest : List ℕ)
    → All (λ l. (l ≤ 65535) × (l ≤ n)) ls
    → read_lengths (length ls) (write_lengths ls ++ rest) ≡ (ls, rest)
unfolding read_lengths write_lengths
read-write_lengths n [] rest h = refl
read-write_lengths n (l ∷ ls) rest h = rw (read-write_lengths n ls rest h.1) (ground arith)

lengths_fit_lem :
    (n : ℕ) (ls : List ℕ)
    → All (λ l. (l ≤ 65535) × (l ≤ n)) ls
    → (lengths_fit n ls ≡ true) × (any_longer n ls ≡ false)
unfolding lengths_fit any_longer
lengths_fit_lem n [] h = (refl, refl)
lengths_fit_lem n (l ∷ ls) h = ground (arith, lengths_fit_lem n ls h.1)

decode-fec_payload : (f : FecFrame) → IsFrame f → decode_fec_payload (fec_payload f) ≡ ok f
unfolding decode_fec_payload fec_payload
decode-fec_payload f v =
    rw (read-write_lengths (length f.parity) f.payload_lengths f.parity v.lengths_ok) (
      ground (
        arith,
        length-append (write_lengths f.payload_lengths) f.parity,
        length-write_lengths f.payload_lengths,
        (lengths_fit_lem (length f.parity) f.payload_lengths v.lengths_ok).1,
        le_value-u32 (f.base_sequence % 2 ^ 32),
        v.base_fits,
        v.group_pos,
        v.group_fits,
      ))

module _ (tail : PackedHeaderTail) where
  unfoldable pub encode_fec_frame : FecFrame → Option (List ℕ)
  unfolding lengths_fit fec_payload
  encode_fec_frame frame =
      let lengths = frame.payload_lengths in
      if leb frame.base_sequence max_media_sequence
        && ((ltb 0 (length lengths) && leb (length lengths) max_fec_group_packets)
            && lengths_fit (length frame.parity) lengths)
      then encode_packet tail fec_header (fec_payload frame)
      else none

  unfoldable pub decode_fec_frame : List ℕ → Result FecDecodeError FecFrame
  decode_fec_frame bytes = elim (decode_packet tail bytes) [
    | err e ↦ err (invalid_packet e)
    | ok packet ↦
        let header = packet.header in
        if not (header.sequence == fec_sequence)
          || (not (header.fragment == 0) || not (header.fragments == 1))
        then err (invalid_header header)
        else decode_fec_payload packet.payload
  ]

  -- Every frame that meets the encoder's assertions is encoded, and decoding gives it back.
  pub decode-encode_fec_frame :
      (f : FecFrame)
      → IsFrame f
      → (bytes : List ℕ) × (encode_fec_frame f ≡ some bytes) × (decode_fec_frame bytes ≡ ok f)
  unfolding encode_fec_frame decode_fec_frame
  decode-encode_fec_frame f v =
      let (bytes, made, len, back) = decode-encode_packet tail fec_header (fec_payload f) (record {
        sequence_fits = omega arith;
        fragment_in = omega arith;
        fragments_fit = omega arith;
      }) in
      (
        bytes,
        ground (
          arith,
          made,
          (lengths_fit_lem (length f.parity) f.payload_lengths v.lengths_ok).0,
          v.base_fits,
          v.group_pos,
          v.group_fits,
        ),
        rw (back, decode_fec_frame) (decode-fec_payload f v),
      )

read_lengths_bytes :
    (n : ℕ) (bytes : List ℕ)
    → All IsByte bytes
    → n * 2 ≤ length bytes
    → (length (read_lengths n bytes).0 ≡ n) × All (λ l. l ≤ 65535) (read_lengths n bytes).0
unfolding read_lengths
read_lengths_bytes zero bytes h e = (refl, tt)
read_lengths_bytes (suc n) [] h e = absurd (omega arith)
read_lengths_bytes (suc n) (a ∷ []) h e = absurd (omega arith)
read_lengths_bytes (suc n) (a ∷ b ∷ r) h e =
    let ih = read_lengths_bytes n r h.1.1 (omega arith) in
    (omega (arith, ih.0), (omega arith, ih.1))

any_longer_lem :
    (n : ℕ) (ls : List ℕ)
    → All (λ l. l ≤ 65535) ls
    → any_longer n ls ≡ false
    → All (λ l. (l ≤ 65535) × (l ≤ n)) ls
unfolding any_longer
any_longer_lem n [] h e = tt
any_longer_lem n (l ∷ ls) h e = ground (arith, any_longer_lem n ls h.1)

abbrev group_count : List ℕ → ℕ
group_count payload = first (drop 9 payload)

decode_fec_payload_ok :
    (payload : List ℕ) (f : FecFrame)
    → decode_fec_payload payload ≡ ok f
    → (f ≡ record {
      base_sequence = le_value (take 4 (drop 5 payload));
      payload_lengths = (read_lengths (group_count payload) (drop 10 payload)).0;
      parity = (read_lengths (group_count payload) (drop 10 payload)).1;
    })
      × (le_value (take 4 (drop 5 payload)) ≤ max_media_sequence)
      × (0 < group_count payload)
      × (group_count payload ≤ max_fec_group_packets)
      × (10 + group_count payload * 2 ≤ length payload)
      × (any_longer
            (length (read_lengths (group_count payload) (drop 10 payload)).1)
            (read_lengths (group_count payload) (drop 10 payload)).0
          ≡ false)
unfolding decode_fec_payload
decode_fec_payload_ok payload f e = ground arith

decode_fec_payload-IsFrame :
    (payload : List ℕ) (f : FecFrame)
    → All IsByte payload
    → decode_fec_payload payload ≡ ok f
    → IsFrame f
decode_fec_payload-IsFrame payload f h e =
    let (same, base, pos, fits, long, short) = decode_fec_payload_ok payload f e in
    let (len, small) =
      read_lengths_bytes (group_count payload) (drop 10 payload) (All-drop IsByte 10 payload h)
        (omega (arith, length-drop 10 payload)) in
    rw same (record {
      base_fits = base;
      group_pos = omega arith;
      group_fits = omega arith;
      lengths_ok = any_longer_lem _ _ small short;
    })

module _ (tail : PackedHeaderTail) where
  -- Whatever bytes decode to a frame, that frame meets the encoder's assertions: a media sequence
  -- as its base, one to 32 lengths, and no length above 65535 or above the parity's.
  pub decode_fec_frame-IsFrame :
      (bytes : List ℕ) (f : FecFrame)
      → All IsByte bytes
      → decode_fec_frame tail bytes ≡ ok f
      → IsFrame f
  unfolding decode_fec_frame
  decode_fec_frame-IsFrame bytes f h e = elim (Result-cases (decode_packet tail bytes)) [
    | inl (r, d) ↦
        let body : decode_fec_payload r.payload ≡ ok f = ground arith in
        decode_fec_payload-IsFrame r.payload f
          (rw (decode_packet-payload tail bytes r d) (All-drop IsByte 4 bytes h)) body
    | inr (x, d) ↦ absurd (ground arith)
  ]
