-- ===== src/Server/Assembly/Mask.antt =====
-- `missing_mask` of crates/server/src/main.rs: the fragments that an assembly asks for.
use irohsion.Prelude.{
  ℕ, ◌+◌, ◌^◌, ◌%◌, ◌≤◌, ◌<◌, ◌≡◌, refl, ltb, arith, Bool, true, ◌&&◌, List, [], ◌∷◌, Option, none,
  some, length, bit_or,
}
use irohsion.Prelude.Bits.{every, every_holds}
use irohsion.Server.Assembly.{FragmentAssembly, IsAssembly, mask_from, missing_mask, present}

-- A mask of the seven fragments that is not empty.
abbrev fits : ℕ → Bool
fits mask = ltb 0 mask && ltb mask 128

all_bits_fit : every (λ mask. every (λ index. fits (bit_or mask (2 ^ index % 256))) 7) 128 ≡ true
unfolding every
all_bits_fit = refl

bit_fits :
    (mask index : ℕ)
    → mask < 128
    → index < 7
    → let set = bit_or mask (2 ^ index % 256) in (0 < set) × (set < 128)
bit_fits mask index h k =
    let row =
      every_holds (λ m. every (λ i. fits (bit_or m (2 ^ i % 256))) 7) 128 mask h all_bits_fit in
    let cell : fits (bit_or mask (2 ^ index % 256)) ≡ true =
      every_holds (λ i. fits (bit_or mask (2 ^ i % 256))) 7 index k row in
    ground (arith, cell)

mask_from-bounds :
    (index mask : ℕ) (fs : List (Option (List ℕ)))
    → index + length fs ≤ 7
    → mask < 128
    → (mask_from index mask fs < 128)
      × (0 < mask → 0 < mask_from index mask fs)
      × (present fs < length fs → 0 < mask_from index mask fs)
unfolding mask_from present
mask_from-bounds index mask [] h k = (k, λ p. p, λ p. absurd (omega arith))
mask_from-bounds index mask (some f ∷ fs) h k =
    let (below, keeps, missing) = mask_from-bounds (index + 1) mask fs (omega arith) k in
    (below, keeps, λ p. missing (omega arith))
mask_from-bounds index mask (none ∷ fs) h k =
    let (pos, fit) = bit_fits mask index k (omega arith) in
    let (below, keeps, missing) =
      mask_from-bounds (index + 1) (bit_or mask (2 ^ index % 256)) fs (omega arith) fit in
    (below, λ p. keeps pos, λ p. keeps pos)

-- An assembly that waits asks for at least one fragment, of the seven that a packet has at most.
pub missing_mask-bounds :
    (a : FragmentAssembly) → IsAssembly a → (0 < missing_mask a) × (missing_mask a ≤ 127)
unfolding missing_mask
missing_mask-bounds a v =
    let (below, keeps, missing) =
      mask_from-bounds 0 0 a.fragments (omega (arith, v.fits)) (omega arith) in
    (missing (omega (arith, v.counted, v.waits)), omega arith)
