-- ===== src/Client/Split/Ranges.antt =====
-- The ranges that a payload is cut into: they follow each other from its start to its end.
use irohsion.Prelude.{
  ℕ, zero, suc, ◌+◌, ◌-◌, ◌≤◌, ◌<◌, ◌≡◌, ◌⊎◌, length-append, refl, sym, ap, ◌∙◌, ◌==◌,
  if◌then◌else◌, ltb, leb, arith, false, ◌||◌, List, [], ◌∷◌, ◌++◌, Option, none, some, length,
  take, drop, min, Bool-cases, inl, inr, ==_iff, ltb→lt, ltb→le, length-drop, length-take,
}
use irohsion.Protocol.{max_fragments}
use irohsion.Client.Split.{
  Float, weighted_ranges, weighted_split_ranges, nonempty_ranges, mtu_chunks, on_path,
  assign_chunks, mtu_chunked_split_ranges, whole_split_ranges, packet_split_ranges, clamp, is_empty,
  slice,
}

some_inj {ℓ} : {A : Type ℓ} {x y : A} → some x ≡ some y → x ≡ y
some_inj e = cc

-- Ranges that follow each other from `start` to `end`.
abbrev pub Chain : ℕ → ℕ → List (ℕ × ℕ) → Type 0
Chain start end [] = start ≡ end
Chain start end ((a, b) ∷ ranges) = (a ≡ start) × (a ≤ b) × Chain b end ranges

-- Such ranges with paths below `count`, none empty and none longer than `limit`.
abbrev pub Pieces : ℕ → ℕ → ℕ → ℕ → List (ℕ × ℕ × ℕ) → Type 0
Pieces count limit start end [] = start ≡ end
Pieces count limit start end ((path, a, b) ∷ ranges) =
    (path < count) × (a ≡ start) × (a < b) × (b ≤ a + limit) × Pieces count limit b end ranges

-- Ranges of chunks: none empty, and none longer than `limit`.
abbrev Chunks : ℕ → ℕ → ℕ → List (ℕ × ℕ) → Type 0
Chunks limit start end [] = start ≡ end
Chunks limit start end ((a, b) ∷ chunks) =
    (a ≡ start) × (a < b) × (b ≤ a + limit) × Chunks limit b end chunks

pub Chain-le : (start end : ℕ) (ranges : List (ℕ × ℕ)) → Chain start end ranges → start ≤ end
Chain-le start end [] h = omega arith
Chain-le start end ((a, b) ∷ ranges) h = omega (arith, Chain-le b end ranges h.2)

Pieces-append :
    (count limit a b c : ℕ) (xs ys : List (ℕ × ℕ × ℕ))
    → Pieces count limit a b xs
    → Pieces count limit b c ys
    → Pieces count limit a c (xs ++ ys)
Pieces-append count limit a b c [] ys h k = rw h k
Pieces-append count limit a b c ((path, s, e) ∷ xs) ys h k =
    (h.0, h.1, h.2, h.3, Pieces-append count limit e b c xs ys h.4 k)

-- Cutting ranges after the first `k`.
Chunks-split :
    (limit k start end : ℕ) (chunks : List (ℕ × ℕ))
    → Chunks limit start end chunks
    → (m : ℕ) × Chunks limit start m (take k chunks) × Chunks limit m end (drop k chunks)
Chunks-split limit zero start end chunks h = (start, refl, h)
Chunks-split limit (suc k) start end [] h = (end, h, refl)
Chunks-split limit (suc k) start end ((a, b) ∷ chunks) h =
    let (m, front, back) = Chunks-split limit k b end chunks h.3 in
    (m, (h.0, h.1, h.2, front), back)

zero_add : (m : ℕ) → 0 + m ≡ m
zero_add m = omega arith

drop_nil : {A : Type 0} (n : ℕ) → drop {A = A} n [] ≡ []
drop_nil zero = refl
drop_nil (suc n) = refl

pub drop-drop : {A : Type 0} (n m : ℕ) (xs : List A) → drop m (drop n xs) ≡ drop (n + m) xs
drop-drop zero m xs = rw (zero_add m) refl
drop-drop (suc n) m [] = drop_nil m ∙ sym (drop_nil (suc n + m))
drop-drop (suc n) m (x ∷ xs) =
    let shift : suc (n + m) ≡ suc n + m = omega arith in
    drop-drop n m xs ∙ ap (λ (t : ℕ). drop t (x ∷ xs)) shift

pub sum_back : (a b : ℕ) → a ≤ b → a + (b - a) ≡ b
sum_back a b h = omega arith

min_left : (a b : ℕ) → a ≤ b → min a b ≡ a
min_left a b h = omega arith

nothing_left :
    (limit : ℕ) (chunks : List (ℕ × ℕ)) (start end : ℕ)
    → length chunks ≡ 0
    → Chunks limit start end chunks
    → start ≡ end
nothing_left limit [] start end h c = c
nothing_left limit (x ∷ xs) start end h c = absurd (omega arith)

le_cases : (a b : ℕ) → (a ≤ b) ⊎ (b < a)
le_cases a b = omega arith

-- A slice within its bounds does not panic.
pub within_slice :
    {A : Type 0} (a b : ℕ) (all : List A)
    → a ≤ b
    → b ≤ length all
    → slice (a, b) all ≡ some (take (b - a) (drop a all))
within_slice a b all h k = ground arith

pub Pieces-le :
    (count limit start end : ℕ) (ranges : List (ℕ × ℕ × ℕ))
    → Pieces count limit start end ranges
    → start ≤ end
Pieces-le count limit start end [] h = omega arith
Pieces-le count limit start end ((path, a, b) ∷ ranges) h =
    omega (arith, Pieces-le count limit b end ranges h.4)

module _ (float : Float) where
  weighted_ranges-Chain :
      (n start : ℕ) (acc w : float.F) (ws : List float.F)
      → start ≤ n
      → Chain start n (weighted_ranges float n start acc (w ∷ ws))
        × (length (weighted_ranges float n start acc (w ∷ ws)) ≡ suc (length ws))
  unfolding weighted_ranges
  weighted_ranges-Chain n start acc w [] h = ((refl, h, refl), refl)
  weighted_ranges-Chain n start acc w (v ∷ ws) h =
      let total = float.add_float acc w in
      let end = clamp start n (float.scaled_round n total) in
      let (rest, count) = weighted_ranges-Chain n end total v ws (omega arith) in
      ((refl, omega arith, rest), omega (arith, count))

  -- Whatever the rounding gives, the ranges of one or more weights cover the packet without a gap
  -- or an overlap, one range for each weight.
  pub weighted_split_ranges-Chain :
      (n : ℕ) (w : float.F) (ws : List float.F)
      → Chain 0 n (weighted_split_ranges float n (w ∷ ws))
        × (length (weighted_split_ranges float n (w ∷ ws)) ≡ suc (length ws))
  unfolding weighted_split_ranges
  weighted_split_ranges-Chain n w ws = weighted_ranges-Chain n 0 float.zero_float w ws (omega arith)

  nonempty_ranges-Pieces :
      (path count limit start end : ℕ) (ranges : List (ℕ × ℕ))
      → path + length ranges ≤ count
      → end ≤ limit
      → Chain start end ranges
      → Pieces count limit start end (nonempty_ranges float path ranges)
  unfolding nonempty_ranges
  nonempty_ranges-Pieces path count limit start end [] h k c = c
  nonempty_ranges-Pieces path count limit start end ((a, b) ∷ ranges) h k c =
      let rest = nonempty_ranges-Pieces (path + 1) count limit b end ranges (omega arith) k c.2 in
      elim (Bool-cases (a == b)) [
        | inl same ↦ rw same (rw (sym (c.0) ∙ (==_iff a b).0 same) rest)
        | inr other ↦
            rw other
              (omega arith, c.0, ground arith, omega (arith, Chain-le b end ranges c.2), rest)
      ]

  mtu_chunks_end : (fuel n size start : ℕ) → n ≤ start → mtu_chunks float fuel n size start ≡ []
  unfolding mtu_chunks
  mtu_chunks_end zero n size start h = refl
  mtu_chunks_end (suc fuel) n size start h = ground arith

  mtu_chunks-Chunks :
      (fuel n size start : ℕ)
      → 0 < size
      → start ≤ n
      → n ≤ start + fuel
      → Chunks size start n (mtu_chunks float fuel n size start)
  unfolding mtu_chunks
  mtu_chunks-Chunks zero n size start h k f = omega arith
  mtu_chunks-Chunks (suc fuel) n size start h k f = elim (Bool-cases (ltb start n)) [
    | inr last ↦ rw last (omega (arith, ltb→le start n last))
    | inl more ↦ elim (le_cases (start + size) n) [
      | inl full ↦ rw more (
        refl,
        omega arith,
        omega arith,
        rw (min_left (start + size) n full)
            (mtu_chunks-Chunks fuel n size (start + size) h full (omega arith)),
      )
      | inr short ↦
          rw (more, mtu_chunks_end fuel n size (start + size) (omega arith))
            (refl, omega (arith, ltb→lt start n more), omega arith, omega arith)
    ]
  ]

  on_path-Pieces :
      (count limit path start end : ℕ) (chunks : List (ℕ × ℕ))
      → path < count
      → Chunks limit start end chunks
      → Pieces count limit start end (on_path float path chunks)
        × (length (on_path float path chunks) ≡ length chunks)
  unfolding on_path
  on_path-Pieces count limit path start end [] h c = (c, refl)
  on_path-Pieces count limit path start end ((a, b) ∷ chunks) h c =
      let (rest, size) = on_path-Pieces count limit path b end chunks h c.3 in
      ((h, c.0, c.1, c.2, rest), omega (arith, size))

  assign_chunks-Pieces :
      (count limit path start from end : ℕ) (chunks ranges : List (ℕ × ℕ))
      → path + length ranges ≤ count
      → Chunks limit start end (drop from chunks)
      → Chain from (length chunks) ranges
      → (out : List (ℕ × ℕ × ℕ)) × (assign_chunks float path chunks ranges ≡ some out)
        × Pieces count limit start end out
        × (length out + from ≡ length chunks)
  unfolding assign_chunks
  assign_chunks-Pieces count limit path start from end chunks [] h c r = (
    [],
    refl,
    nothing_left limit (drop from chunks) start end (omega (arith, length-drop from chunks)) c,
    omega arith,
  )
  assign_chunks-Pieces count limit path start from end chunks ((a, b) ∷ ranges) h c r =
      let bound = Chain-le b (length chunks) ranges r.2 in
      let (m, front, back) = Chunks-split limit (b - a) start end (drop a chunks) (rw r.0 c) in
      let (now, size) =
        on_path-Pieces count limit path start m (take (b - a) (drop a chunks)) (omega arith)
          front in
      let (rest, made, later, sizes) =
        assign_chunks-Pieces count limit (path + 1) m b end chunks ranges (omega arith)
          (rw (drop-drop a (b - a) chunks, sum_back a b r.1) at back) r.2 in
      (
        on_path float path (take (b - a) (drop a chunks)) ++ rest,
        rw (within_slice a b chunks r.1 bound, assign_chunks) (rw made refl),
        Pieces-append count limit start m end _ _ now later,
        omega (
          arith,
          length-append (on_path float path (take (b - a) (drop a chunks))) rest,
          length-take (b - a) (drop a chunks),
          length-drop a chunks,
        ),
      )

  mtu_chunked_split_ranges-Pieces :
      (n size : ℕ) (w : float.F) (ws : List float.F) (ranges : List (ℕ × ℕ × ℕ))
      → mtu_chunked_split_ranges float n (w ∷ ws) size ≡ some (some ranges)
      → Pieces (suc (length ws)) size 0 n ranges × (length ranges ≤ max_fragments)
  unfolding mtu_chunked_split_ranges
  mtu_chunked_split_ranges-Pieces n size w ws ranges e =
      let chunks : List (ℕ × ℕ) = mtu_chunks float n n size 0 in
      let (chain, count) = weighted_split_ranges-Chain (length chunks) w ws in
      let (pos, few, which) =
        kept size chunks
          (assign_chunks float 0 chunks (weighted_split_ranges float (length chunks) (w ∷ ws)))
          ranges e in
      let cut : Chunks size 0 n chunks =
        mtu_chunks-Chunks n n size 0 pos (omega arith) (omega arith) in
      let (out, made, cover, total) =
        assign_chunks-Pieces (suc (length ws)) size 0 0 0 n chunks
          (weighted_split_ranges float (length chunks) (w ∷ ws)) (omega (arith, count)) cut chain in
      elim which [
        | inl (empty, none_left) ↦ rw none_left (rw empty at cut, omega arith)
        | inr also ↦
            let same : out ≡ ranges = some_inj (sym made ∙ also) in
            (rw same at cover, ground (arith, same))
      ]
    where
      kept :
          (size : ℕ) (chunks : List (ℕ × ℕ)) (assigned : Option (List (ℕ × ℕ × ℕ)))
          (ranges : List (ℕ × ℕ × ℕ))
          → (if size == 0 || ltb max_fragments (length chunks)
              then some none
              else if is_empty chunks || false
              then some (some [])
              else elim assigned [ none ↦ none | some out ↦ some (some out) ])
            ≡ some (some ranges)
          → (0 < size)
            × (length chunks ≤ max_fragments)
            × (((chunks ≡ []) × (ranges ≡ [])) ⊎ (assigned ≡ some ranges))
      kept size [] assigned ranges e = ground arith
      kept size (c ∷ chunks) none ranges e = ground arith
      kept size (c ∷ chunks) (some out) ranges e = ground arith

  whole_split_ranges-Pieces :
      (n limit : ℕ) (w : float.F) (ws : List float.F) (ranges : List (ℕ × ℕ × ℕ))
      → n ≤ limit
      → whole_split_ranges float n (w ∷ ws) ≡ some ranges
      → Pieces (suc (length ws)) limit 0 n ranges × (length ranges ≤ max_fragments)
  unfolding whole_split_ranges
  whole_split_ranges-Pieces n limit w ws ranges h e =
      let (chain, count) = weighted_split_ranges-Chain n w ws in
      let all : List (ℕ × ℕ × ℕ) =
        nonempty_ranges float 0 (weighted_split_ranges float n (w ∷ ws)) in
      let cover : Pieces (suc (length ws)) limit 0 n all =
        nonempty_ranges-Pieces 0 (suc (length ws)) limit 0 n _ (omega (arith, count)) h chain in
      let (same, few) = kept all ranges e in (rw same at cover, few)
    where
      kept :
          (all ranges : List (ℕ × ℕ × ℕ))
          → (if leb (length all) max_fragments then some all else none) ≡ some ranges
          → (all ≡ ranges) × (length ranges ≤ max_fragments)
      kept all ranges e = ground arith

  -- How `packet_split_ranges` cuts a packet for one or more paths: the ranges follow each other from
  -- its first byte to its end, none is empty, each has a path that exists, at most seven are there,
  -- and with an MTU none is longer than the MTU.
  pub packet_split_ranges-Pieces :
      (n : ℕ) (w : float.F) (ws : List float.F) (mtu : Option ℕ) (ranges : List (ℕ × ℕ × ℕ))
      → packet_split_ranges float n (w ∷ ws) mtu ≡ some (some ranges)
      → Pieces (suc (length ws)) (elim mtu [ some m ↦ m | none ↦ n ]) 0 n ranges
        × (length ranges ≤ max_fragments)
  unfolding packet_split_ranges
  packet_split_ranges-Pieces n w ws none ranges e =
      whole_split_ranges-Pieces n n w ws ranges (omega arith) (some_inj e)
  packet_split_ranges-Pieces n w ws (some mtu) ranges e = elim (Bool-cases (ltb mtu n)) [
    | inl long ↦ mtu_chunked_split_ranges-Pieces n mtu w ws ranges (rw long at e)
    | inr fits ↦
        whole_split_ranges-Pieces n mtu w ws ranges (ltb→le mtu n fits) (some_inj (rw fits at e))
  ]
