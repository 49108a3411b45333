-- ===== src/Protocol/Repair.antt =====
-- `encode_repair_request` and `decode_repair_request` of crates/protocol/src/lib.rs.
use irohsion.Prelude.{
  ℕ, ◌^◌, ◌%◌, ◌-◌, ◌≤◌, ◌<◌, ◌≡◌, refl, Bool, not, ◌&&◌, List, [], ◌∷◌, ◌++◌, Option, none, some,
  length, All, take, get_elem?, Result, ok, err, ltb, leb, ◌==◌, if◌then◌else◌, arith, bit_and,
}
use irohsion.Prelude.Bytes.{IsByte, le_value, u32_to_le_bytes}
use irohsion.Prelude.Bits.{top_bit}
use irohsion.Protocol.{
  max_sequence, repair_request_len, repair_all_fragments_mask, RepairRequest, RepairDecodeError,
  invalid_length, invalid_sequence, invalid_missing_mask,
}

-- `mask != 0 && mask & !REPAIR_ALL_FRAGMENTS_MASK == 0`, where `!` is on a `u8`.
unfoldable pub mask_ok : ℕ → Bool
mask_ok mask = not (mask == 0) && bit_and mask (255 - repair_all_fragments_mask) == 0

unfoldable pub encode_repair_request : RepairRequest → Option (List ℕ)
unfolding mask_ok u32_to_le_bytes
encode_repair_request request =
    if leb request.sequence max_sequence && mask_ok request.missing_mask
    then some (u32_to_le_bytes (request.sequence % 2 ^ 32) ++ (request.missing_mask ∷ []))
    else none

-- `bytes[4]` of a buffer whose length has been checked.
abbrev fifth : List ℕ → ℕ
fifth bytes = elim (get_elem? bytes 4) [ some b ↦ b | none ↦ 0 ]

unfoldable pub decode_repair_request : List ℕ → Result RepairDecodeError RepairRequest
unfolding mask_ok le_value
decode_repair_request bytes =
    if not (length bytes == repair_request_len)
    then err (invalid_length (length bytes))
    else let sequence = le_value (take 4 bytes) in
      let missing_mask = fifth bytes in
      if ltb max_sequence sequence
      then err (invalid_sequence sequence)
      else if not (mask_ok missing_mask)
      then err (invalid_missing_mask missing_mask)
      else ok (record { sequence = sequence; missing_mask = missing_mask })

-- A request that names a media sequence and at least one of the seven fragments.
pub record IsRequest (r : RepairRequest) : Type 0 where
  pub sequence_fits : r.sequence ≤ max_sequence
  pub mask_pos : 0 < r.missing_mask
  pub mask_fits : r.missing_mask ≤ repair_all_fragments_mask

-- Every valid request is encoded in five bytes, and decoding gives it back.
pub decode-encode_repair_request :
    (r : RepairRequest)
    → IsRequest r
    → (bytes : List ℕ) × (encode_repair_request r ≡ some bytes)
      × (length bytes ≡ repair_request_len)
      × (decode_repair_request bytes ≡ ok r)
unfolding encode_repair_request decode_repair_request
decode-encode_repair_request r v = (
  u32_to_le_bytes (r.sequence % 2 ^ 32) ++ (r.missing_mask ∷ []),
  ground (arith, top_bit r.missing_mask),
  refl,
  ground (arith, top_bit r.missing_mask),
)

-- Bytes that decode to a request are the encoding of that request, and the request is valid.
pub encode-decode_repair_request :
    (bytes : List ℕ) (r : RepairRequest)
    → All IsByte bytes
    → decode_repair_request bytes ≡ ok r
    → IsRequest r × (encode_repair_request r ≡ some bytes)
unfolding encode_repair_request decode_repair_request
encode-decode_repair_request [] r h e = absurd (ground arith)
encode-decode_repair_request (a ∷ []) r h e = absurd (ground arith)
encode-decode_repair_request (a ∷ b ∷ []) r h e = absurd (ground arith)
encode-decode_repair_request (a ∷ b ∷ c ∷ []) r h e = absurd (ground arith)
encode-decode_repair_request (a ∷ b ∷ c ∷ d ∷ []) r h e = absurd (ground arith)
encode-decode_repair_request (a ∷ b ∷ c ∷ d ∷ m ∷ []) r h e = ground (arith, top_bit m)
encode-decode_repair_request (a ∷ b ∷ c ∷ d ∷ m ∷ x ∷ s) r h e = absurd (ground arith)
