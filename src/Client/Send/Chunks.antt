-- ===== src/Client/Send/Chunks.antt =====
-- `send_payload` and `send_mpeg_ts_chunks` of crates/client/src/main.rs: the actions for a datagram of
-- the local peer, and the sequence of the next one. A panic is `none`.
pub mod Delivery
pub mod Routes
pub mod Usable
use irohsion.Prelude.{
  ℕ, zero, suc, ◌+◌, ◌-◌, ◌%◌, ◌^◌, ◌==◌, if◌then◌else◌, leb, ltb, Bool, true, false, not, ◌&&◌,
  ◌||◌, List, [], ◌∷◌, ◌++◌, Option, none, some, length, take, drop, get_elem?,
}
use irohsion.Protocol.{PackedHeaderTail}
use irohsion.Server.Sequence.{next_sequence}
use irohsion.Client.Split.{
  Float, StrategyMode, auto, redundant_mode, round_robin_mode, split_mode, PathStrategy, redundant,
  round_robin, split, is_mpeg_ts_payload, weighted_split_ranges, is_empty, slice,
}
use irohsion.Client.Send.{
  ◌>>=◌, Action, ingested, record_fec, Routing, active_paths, among, path_groups,
  single_fragment_packet, cache_whole, send_all, is_round_robin, send_packet,
}

-- `payload.chunks(chunk_bytes)` for a size above 0; `fuel` bounds their number.
unfoldable pub chunks {ℓ} : {A : Type ℓ} → ℕ → ℕ → List A → List (List A)
chunks zero size xs = []
chunks (suc fuel) size [] = []
chunks (suc fuel) size (x ∷ xs) = take size (x ∷ xs) ∷ chunks fuel size (drop size (x ∷ xs))

-- The actions of a loop over chunks, and the sequence after it.
abbrev pub Sent : Type 0
Sent = List Action × ℕ

module _ (tail : PackedHeaderTail) (float : Float) where
  -- The body of each of the three loops, for the paths that the chunk goes to.
  unfoldable pub send_chunk : ℕ → List ℕ → List ℕ → Option (List Action)
  unfolding single_fragment_packet
  send_chunk seq chunk paths = do
    packet ← single_fragment_packet tail float seq chunk
    some (
        ingested seq (length chunk)
        ∷ cache_whole tail float seq packet (length chunk)
        ∷ (send_all tail float paths packet (length chunk) ++ (record_fec seq chunk ∷ [])))

  -- A loop over chunks; `paths_of` gives the paths of the chunk of an index.
  unfoldable pub send_chunks : (ℕ → Option (List ℕ)) → ℕ → ℕ → List (List ℕ) → Option Sent
  unfolding send_chunk next_sequence
  send_chunks paths_of index seq [] = some ([], seq)
  send_chunks paths_of index seq (chunk ∷ rest) = do
    paths ← paths_of index
    actions ← send_chunk seq chunk paths
    later ← send_chunks paths_of (index + 1) (next_sequence seq) rest
    some (actions ++ later.0, later.1)

  abbrev pub only : ℕ → ℕ → Option (List ℕ)
  only path index = some (path ∷ [])

  -- The loop over the split paths, each with the chunks of its range.
  unfoldable pub send_ranges : ℕ → ℕ → List (List ℕ) → List (ℕ × ℕ) → List ℕ → Option Sent
  unfolding send_chunks
  send_ranges path_index seq all ranges [] = some ([], seq)
  send_ranges path_index seq all ranges (path ∷ paths) = do
    range ← get_elem? ranges path_index
    part ← slice range all
    sent ← send_chunks (only path) 0 seq part
    later ← send_ranges (path_index + 1) sent.1 all ranges paths
    some (sent.0 ++ later.0, later.1)

  -- The path of the chunk of an index: the cursor counts in 64 bits.
  abbrev pub round_robin_path : Routing tail float → List ℕ → ℕ → Option (List ℕ)
  round_robin_path r active index =
      get_elem? active ((r.round_robin_next + index) % 2 ^ 64 % length active) >>= λ path.
      some (path ∷ [])

  abbrev pub is_redundant_mode : StrategyMode → Bool
  is_redundant_mode redundant_mode = true
  is_redundant_mode auto = false
  is_redundant_mode round_robin_mode = false
  is_redundant_mode split_mode = false

  abbrev pub is_redundant_strategy : PathStrategy → Bool
  is_redundant_strategy redundant = true
  is_redundant_strategy round_robin = false
  is_redundant_strategy split = false

  abbrev pub split_paths_of : Routing tail float → List ℕ
  split_paths_of r = among tail float (path_groups tail float r).0 (active_paths tail float r.paths)

  -- The split loop, if a path may carry split traffic; without one nothing is sent.
  unfoldable pub send_split_chunks : ℕ → List (List ℕ) → Routing tail float → List ℕ → Option Sent
  unfolding send_ranges
  send_split_chunks seq all r split_paths =
      if is_empty split_paths
      then some ([], seq)
      else send_ranges 0 seq all
          (weighted_split_ranges float (length all) (r.active_split_weights split_paths))
          split_paths

  -- The chunks by the strategy, on one connected path at least.
  unfoldable pub route_chunks : ℕ → List (List ℕ) → Routing tail float → List ℕ → Option Sent
  unfolding send_chunks send_split_chunks
  route_chunks seq all r active =
      if is_round_robin tail float r.effective
      then send_chunks (round_robin_path r active) 0 seq all
      else if is_redundant_strategy r.effective || is_redundant_mode r.mode
      then send_chunks (λ index. some active) 0 seq all
      else send_split_chunks seq all r (split_paths_of r)

  -- `none` inside is the `None` that lets `send_payload` go on.
  unfoldable pub send_in_chunks : ℕ → List ℕ → Routing tail float → Option ℕ → Option (Option Sent)
  unfolding chunks route_chunks
  send_in_chunks seq payload r none = some none
  send_in_chunks seq payload r (some chunk_bytes) =
      if leb (length payload) chunk_bytes || not (is_mpeg_ts_payload payload)
      then some none
      else if chunk_bytes == 0
      then none
      else if is_empty (active_paths tail float r.paths)
      then some (some ([], seq))
      else route_chunks seq (chunks (length payload) chunk_bytes payload) r
          (active_paths tail float r.paths)
        >>= λ sent. some (some sent)

  unfoldable pub send_mpeg_ts_chunks : ℕ → List ℕ → Routing tail float → Option (Option Sent)
  unfolding send_in_chunks
  send_mpeg_ts_chunks seq payload r = send_in_chunks seq payload r r.mpeg_ts_chunk_bytes

  unfoldable pub send_whole_payload : ℕ → List ℕ → Routing tail float → Option Sent
  unfolding send_packet next_sequence
  send_whole_payload seq payload r = do
    actions ← send_packet tail float seq payload r
    some (ingested seq (length payload) ∷ actions, next_sequence seq)

  abbrev pub or_whole : ℕ → List ℕ → Routing tail float → Option Sent → Option Sent
  or_whole seq payload r none = send_whole_payload seq payload r
  or_whole seq payload r (some sent) = some sent

  unfoldable pub send_payload : ℕ → List ℕ → Routing tail float → Option Sent
  unfolding send_mpeg_ts_chunks send_whole_payload
  send_payload seq payload r = send_mpeg_ts_chunks seq payload r >>= or_whole seq payload r

  -- The loop over the datagrams of the local peer, with what is read of the command line, the paths
  -- and the strategy at each of them.
  unfoldable pub ingest_loop : ℕ → List (List ℕ × Routing tail float) → Option Sent
  unfolding send_payload
  ingest_loop seq [] = some ([], seq)
  ingest_loop seq ((payload, r) ∷ datagrams) = do
    sent ← send_payload seq payload r
    later ← ingest_loop sent.1 datagrams
    some (sent.0 ++ later.0, later.1)
