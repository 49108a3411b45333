-- ===== src/Tests.antt =====
-- Concrete runs of the modelled code, and an instance of the packed header that the macro of
-- crates/protocol/src/lib.rs generates.
mod Protocol
mod Server
mod Client
mod Transport
mod Strategy
mod Registry
mod Sending
mod Recovery
mod Context
use irohsion.Prelude.{
  ℕ, zero, suc, ◌+◌, ◌*◌, ◌^◌, ◌%◌, ◌/◌, ◌≤◌, ◌<◌, ◌≡◌, refl, ◌⊎◌, ◌&&◌, List, [], ◌∷◌, Option,
  none, some, length, All, ltb, if◌then◌else◌, arith,
}
use irohsion.Prelude.Bytes.{IsByte, le_value, u32_to_le_bytes, le_value-u32}
use irohsion.Protocol.{PackedHeaderTail}

abbrev pub pack : ℕ → ℕ → ℕ → Option (List ℕ)
pack s f n =
    if ltb s (2 ^ 26) && (ltb f 8 && ltb n 8)
    then some (u32_to_le_bytes (s + f * 2 ^ 26 + n * 2 ^ 29))
    else none

pub pack_fits :
    (s f n : ℕ)
    → s < 2 ^ 26
    → f < 8
    → n < 8
    → (bs : List ℕ) × (pack s f n ≡ some bs)
      × (length bs ≡ 4)
      × All IsByte bs
      × (le_value bs ≡ s + f * 2 ^ 26 + n * 2 ^ 29)
unfolding u32_to_le_bytes
pack_fits s f n h k l = (
  u32_to_le_bytes (s + f * 2 ^ 26 + n * 2 ^ 29),
  ground arith,
  refl,
  ground arith,
  ground (arith, le_value-u32 (s + f * 2 ^ 26 + n * 2 ^ 29)),
)

pub pack_panics : (s f n : ℕ) → (2 ^ 26 ≤ s) ⊎ (8 ≤ f) ⊎ (8 ≤ n) → pack s f n ≡ none
pack_panics s f n h = ground arith

-- The layout that the macro documents.
abbrev pub packed : PackedHeaderTail
packed = record {
  into_bytes = pack;
  sequence = λ bs. le_value bs % 2 ^ 26;
  fragment = λ bs. le_value bs / 2 ^ 26 % 8;
  fragments = λ bs. le_value bs / 2 ^ 29 % 8;
  into_bytes_fits = pack_fits;
  into_bytes_panics = pack_panics;
  sequence_bits = λ bs _ _. refl;
  fragment_bits = λ bs _ _. refl;
  fragments_bits = λ bs _ _. refl;
}
