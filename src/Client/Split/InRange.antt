-- ===== src/Client/Split/InRange.antt =====
-- `mtu_chunked_split_ranges` of crates/client/src/main.rs takes slices of the chunks of a packet; here is
-- why none is out of range.
use irohsion.Prelude.{
  ℕ, ◌+◌, ◌-◌, ◌≡◌, refl, ◌==◌, ltb, arith, false, ◌||◌, List, [], ◌∷◌, ◌++◌, Option, none, some,
  length, take, drop, Bool-cases, inl, inr,
}
use irohsion.Protocol.{max_fragments}
use irohsion.Client.Split.{
  Float, weighted_split_ranges, mtu_chunks, on_path, assign_chunks, mtu_chunked_split_ranges,
  packet_split_ranges, is_empty,
}
use irohsion.Client.Split.Ranges.{Chain, Chain-le, within_slice, weighted_split_ranges-Chain}

module _ (float : Float) where
  assign_chunks_total :
      (path from : ℕ) (chunks ranges : List (ℕ × ℕ))
      → Chain from (length chunks) ranges
      → (out : List (ℕ × ℕ × ℕ)) × (assign_chunks float path chunks ranges ≡ some out)
  unfolding assign_chunks
  assign_chunks_total path from chunks [] r = ([], refl)
  assign_chunks_total path from chunks ((a, b) ∷ ranges) r =
      let (rest, made) = assign_chunks_total (path + 1) b chunks ranges r.2 in
      (
        on_path float path (take (b - a) (drop a chunks)) ++ rest,
        rw (within_slice a b chunks r.1 (Chain-le b (length chunks) ranges r.2), assign_chunks)
            (rw made refl),
      )

  mtu_chunked_split_ranges_total :
      (n : ℕ) (weights : List float.F) (size : ℕ)
      → (out : Option (List (ℕ × ℕ × ℕ))) × (mtu_chunked_split_ranges float n weights size
          ≡ some out)
  unfolding mtu_chunked_split_ranges
  mtu_chunked_split_ranges_total n weights size =
      let chunks : List (ℕ × ℕ) = mtu_chunks float n n size 0 in
      elim (Bool-cases (size == 0 || ltb max_fragments (length chunks))) [
        | inl bad ↦ rw bad (none, refl)
        | inr good ↦ elim (Bool-cases (is_empty chunks || is_empty weights)) [
          | inl e ↦ rw (good, e) (some [], refl)
          | inr e ↦ rw (good, e) (assigned chunks weights (ground (arith, e)))
        ]
      ]
    where
      assigned :
          (chunks : List (ℕ × ℕ)) (ws : List float.F)
          → is_empty ws ≡ false
          → (out : Option (List (ℕ × ℕ × ℕ))) × (elim (assign_chunks float 0 chunks
                (weighted_split_ranges float (length chunks) ws)) [
                  | none ↦ none
                  | some ranges ↦ some (some ranges)
                ]
              ≡ some out)
      assigned chunks [] h = absurd (cc)
      assigned chunks (v ∷ vs) h =
          let (out, made) =
            assign_chunks_total 0 0 chunks (weighted_split_ranges float (length chunks) (v ∷ vs))
              (weighted_split_ranges-Chain float (length chunks) v vs).0 in
          (some out, rw made refl)

  -- Cutting never panics: the slices of the chunks are in range.
  pub packet_split_ranges_total :
      (n : ℕ) (weights : List float.F) (mtu : Option ℕ)
      → (out : Option (List (ℕ × ℕ × ℕ))) × (packet_split_ranges float n weights mtu ≡ some out)
  unfolding packet_split_ranges
  packet_split_ranges_total n weights none = (_, refl)
  packet_split_ranges_total n weights (some mtu) = elim (Bool-cases (ltb mtu n)) [
    | inl long ↦ rw long (mtu_chunked_split_ranges_total n weights mtu)
    | inr fits ↦ rw fits (_, refl)
  ]
