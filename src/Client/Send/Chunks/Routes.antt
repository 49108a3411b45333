-- ===== src/Client/Send/Chunks/Routes.antt =====
-- The routes of `send_mpeg_ts_chunks` of crates/client/src/main.rs: round robin, redundant, or split over
-- the paths by their weights.
use irohsion.Prelude.{
  ℕ, zero, suc, ◌+◌, ◌%◌, ◌^◌, ◌≤◌, ◌<◌, ◌≡◌, refl, sym, ◌∙◌, arith, Bool, true, false, not, ◌||◌,
  List, [], ◌∷◌, some, length, drop, get_elem?, All, ==_refl, inl, inr, Bool-cases,
  take-append-drop, length-drop, length-take, subst,
}
use irohsion.Prelude.Map.{member}
use irohsion.Protocol.{PackedHeaderTail, max_media_sequence}
use irohsion.Client.Split.{Float, is_mpeg_ts_payload, weighted_split_ranges, is_empty}
use irohsion.Client.Split.Ranges.{weighted_split_ranges-Chain}
use irohsion.Client.Send.{Routing, active_paths, among, is_round_robin}
use irohsion.Client.Send.Chunks.{
  chunks, Sent, is_redundant_strategy, is_redundant_mode, split_paths_of, round_robin_path,
  send_split_chunks, route_chunks, send_in_chunks, send_mpeg_ts_chunks,
}
use irohsion.Client.Send.Chunks.Delivery.{
  Delivers, concat, send_chunks-Delivers, send_ranges-Delivers, IsChoice,
}
use irohsion.Client.Split.Ranges.{Chain}

concat-chunks :
    (fuel size : ℕ) (xs : List ℕ)
    → 0 < size
    → length xs ≤ fuel
    → (concat (chunks fuel size xs) ≡ xs) × All (λ c. length c ≤ size) (chunks fuel size xs)
unfolding chunks
concat-chunks zero size [] h k = (refl, tt)
concat-chunks zero size (x ∷ xs) h k = absurd (omega arith)
concat-chunks (suc fuel) size [] h k = (refl, tt)
concat-chunks (suc fuel) size (x ∷ xs) h k =
    let (same, each) =
      concat-chunks fuel size (drop size (x ∷ xs)) h (omega (arith, length-drop size (x ∷ xs))) in
    (rw same (take-append-drop size (x ∷ xs)), (omega (arith, length-take size (x ∷ xs)), each))

-- An index below the length.
pub reads :
    (i : ℕ) (xs : List ℕ)
    → i < length xs
    → (x : ℕ) × (get_elem? xs i ≡ some x) × (member x xs ≡ true)
unfolding member
reads i [] h = absurd (omega arith)
reads zero (x ∷ xs) h = (x, refl, rw (==_refl x) refl)
reads (suc i) (y ∷ ys) h =
    let (x, read, there) = reads i ys (omega arith) in (x, read, ground arith)

All-member_tail :
    (x : ℕ) (xs ys : List ℕ)
    → All (λ p. member p xs ≡ true) ys
    → All (λ p. member p (x ∷ xs) ≡ true) ys
unfolding member
All-member_tail x xs [] h = tt
All-member_tail x xs (y ∷ ys) h = (ground arith, All-member_tail x xs ys h.1)

All-member : (xs : List ℕ) → All (λ p. member p xs ≡ true) xs
unfolding member
All-member [] = tt
All-member (x ∷ xs) = (rw (==_refl x) refl, All-member_tail x xs xs (All-member xs))

module _ (tail : PackedHeaderTail) (float : Float) where
  All-among :
      (P : ℕ → Type 0) (names paths : List ℕ) → All P paths → All P (among tail float names paths)
  unfolding among
  All-among P names [] h = tt
  All-among P names (path ∷ paths) h = elim (Bool-cases (member path names)) [
    | inl e ↦ rw e (h.0, All-among P names paths h.1)
    | inr e ↦ rw e (All-among P names paths h.1)
  ]

  pub not_empty : (xs : List ℕ) → is_empty xs ≡ false → 0 < length xs
  not_empty [] h = absurd (cc)
  not_empty (x ∷ xs) h = omega arith

  weights-Chain :
      (n : ℕ) (ws : List float.F)
      → 0 < length ws
      → Chain 0 n (weighted_split_ranges float n ws)
        × (length (weighted_split_ranges float n ws) ≡ length ws)
  weights-Chain n [] h = absurd (omega arith)
  weights-Chain n (w ∷ ws) h = weighted_split_ranges-Chain float n w ws

  paths-IsChoice : (xs : List ℕ) → is_empty xs ≡ false → IsChoice tail float xs xs
  paths-IsChoice [] h = absurd (cc)
  paths-IsChoice (x ∷ xs) h = (All-member (x ∷ xs)).0

  module _ (r : Routing tail float) where
    abbrev pub active : List ℕ
    active = active_paths tail float r.paths

    abbrev pub split_paths : List ℕ
    split_paths = split_paths_of tail float r

    round_robin_path-IsChoice :
        (i : ℕ)
        → is_empty active ≡ false
        → (paths : List ℕ) × (round_robin_path tail float r active i ≡ some paths)
          × IsChoice tail float active paths
    round_robin_path-IsChoice i h =
        let some_path = not_empty active h in
        let (path, read, there) =
          reads ((r.round_robin_next + i) % 2 ^ 64 % length active) active (omega arith) in
        (path ∷ [], rw read refl, there)

    split-Delivers :
        (seq : ℕ) (all : List (List ℕ))
        → length (r.active_split_weights split_paths) ≡ length split_paths
        → seq ≤ max_media_sequence
        → is_empty split_paths ≡ false
        → (sent : Sent) × (send_split_chunks tail float seq all r split_paths ≡ some sent)
          × Delivers tail float active seq all sent
    unfolding send_split_chunks
    split-Delivers seq all w h e =
        let weights = r.active_split_weights split_paths in
        let (chain, count) =
          weights-Chain (length all) weights (omega (arith, not_empty split_paths e)) in
        rw e (
          send_ranges-Delivers tail float active 0 seq 0 all
            (weighted_split_ranges float (length all) weights)
            (weighted_split_ranges float (length all) weights) split_paths refl chain (count ∙ w)
            (All-among _ _ active (All-member active)) h)

    -- A connected path that the strategy may use.
    abbrev pub has_route : Bool
    has_route =
        (is_round_robin tail float r.effective
          || (is_redundant_strategy tail float r.effective || is_redundant_mode tail float r.mode))
        || not (is_empty split_paths)

    pub route_chunks-Delivers :
        (seq : ℕ) (all : List (List ℕ))
        → length (r.active_split_weights split_paths) ≡ length split_paths
        → seq ≤ max_media_sequence
        → is_empty active ≡ false
        → has_route ≡ true
        → (sent : Sent) × (route_chunks tail float seq all r active ≡ some sent)
          × Delivers tail float active seq all sent
    unfolding route_chunks
    route_chunks-Delivers seq all w h e route =
        elim (Bool-cases (is_round_robin tail float r.effective)) [
          | inl one ↦ rw one (
              send_chunks-Delivers tail float active (round_robin_path tail float r active) 0 seq
                all (λ i. round_robin_path-IsChoice i e) h)
          | inr more ↦
              rw more
                elim (Bool-cases (
                  is_redundant_strategy tail float r.effective
                  || is_redundant_mode tail float r.mode)) [
                    | inl each ↦ rw each (
                        send_chunks-Delivers tail float active (λ index. some active) 0 seq all
                          (λ i. (active, refl, paths-IsChoice active e)) h)
                    | inr cut ↦ rw cut (split-Delivers seq all w h (ground arith))
                  ]
        ]

    -- A payload of MPEG-TS packets that is longer than the chunk size, which is above 0, is sent
    -- as a whole and in order, whatever the strategy: when a path is connected that the strategy
    -- may use, the strategy gives a weight for each path, and the first sequence is a media
    -- sequence, the code does not panic, the chunks make up the payload, none is longer than the
    -- chunk size, each gets the next sequence, is fed to the parity encoder, and goes to a
    -- connected path in a packet that decodes to it.
    pub send_mpeg_ts_chunks-Delivers :
        (size seq : ℕ) (payload : List ℕ)
        → r.mpeg_ts_chunk_bytes ≡ some size
        → 0 < size
        → size < length payload
        → is_mpeg_ts_payload payload ≡ true
        → length (r.active_split_weights split_paths) ≡ length split_paths
        → seq ≤ max_media_sequence
        → is_empty active ≡ false
        → has_route ≡ true
        → (cs : List (List ℕ)) × (concat cs ≡ payload)
          × All (λ c. length c ≤ size) cs
          × (sent : Sent) × (send_mpeg_ts_chunks tail float seq payload r ≡ some (some sent))
          × Delivers tail float active seq cs sent
    unfolding send_mpeg_ts_chunks send_in_chunks
    send_mpeg_ts_chunks-Delivers size seq payload set some_size long media w h e route =
        let cs = chunks (length payload) size payload in
        let (same, short) = concat-chunks (length payload) size payload some_size (omega arith) in
        let (sent, done, delivered) = route_chunks-Delivers seq cs w h e route in
        (
          cs,
          same,
          short,
          sent,
          subst (λ o. send_in_chunks tail float seq payload r o ≡ some (some sent)) (sym set)
              (ground (arith, done)),
          delivered,
        )

    pub nowhere :
        (seq : ℕ) (all : List (List ℕ))
        → has_route ≡ false
        → route_chunks tail float seq all r active ≡ some ([], seq)
    unfolding route_chunks send_split_chunks
    nowhere seq all route = ground arith
