-- ===== src/Client/Split.antt =====
-- How crates/client/src/main.rs cuts a payload into ranges for its paths: `should_split`,
-- `weighted_split_ranges`, `packet_split_ranges` and `mtu_chunked_split_ranges`.
-- An outer `none` is a panic, as of a slice out of range; an inner one is the `None` of the code.
pub mod Ranges
pub mod InRange
pub mod Reassembly
use irohsion.Prelude.{
  ℕ, zero, suc, ◌+◌, ◌*◌, ◌%◌, ◌/◌, ◌-◌, ◌≤◌, ◌<◌, ◌≡◌, ◌==◌, if◌then◌else◌, ltb, leb, Bool, true,
  false, not, ◌&&◌, ◌||◌, List, [], ◌∷◌, ◌++◌, Option, none, some, length, take, drop, min, max,
}
use irohsion.Protocol.{max_fragments}

abbrev pub mpeg_ts_packet_size : ℕ
mpeg_ts_packet_size = 188

-- `packet.first() == Some(&0x47)`
abbrev starts_with_sync : List ℕ → Bool
starts_with_sync [] = false
starts_with_sync (b ∷ bs) = b == 71

-- `chunks_exact(MPEG_TS_PACKET_SIZE).all(…)` over `count` packets.
unfoldable pub all_synced : ℕ → List ℕ → Bool
all_synced zero payload = true
all_synced (suc count) payload =
    starts_with_sync payload && all_synced count (drop mpeg_ts_packet_size payload)

unfoldable pub is_mpeg_ts_payload : List ℕ → Bool
unfolding all_synced
is_mpeg_ts_payload payload =
    not (length payload == 0)
    && (length payload % mpeg_ts_packet_size == 0
        && all_synced (length payload / mpeg_ts_packet_size) payload)

pub data StrategyMode : Type 0 where
  auto : StrategyMode
  redundant_mode : StrategyMode
  round_robin_mode : StrategyMode
  split_mode : StrategyMode

pub data PathStrategy : Type 0 where
  redundant : PathStrategy
  round_robin : PathStrategy
  split : PathStrategy

unfoldable pub packet_exceeds_mtu : ℕ → Option ℕ → Bool
packet_exceeds_mtu packet_len none = false
packet_exceeds_mtu packet_len (some mtu) = ltb mtu packet_len

abbrev is_split : PathStrategy → Bool
is_split split = true
is_split redundant = false
is_split round_robin = false

abbrev above_threshold : Option ℕ → ℕ → Bool
above_threshold none packet_len = false
above_threshold (some threshold) packet_len = ltb threshold packet_len

-- The `match mode` of `should_split`, and what follows it.
abbrev mode_splits : StrategyMode → PathStrategy → Option ℕ → ℕ → Bool
mode_splits split_mode strategy threshold packet_len = true
mode_splits redundant_mode strategy threshold packet_len = false
mode_splits round_robin_mode strategy threshold packet_len = false
mode_splits auto strategy threshold packet_len =
    is_split strategy && above_threshold threshold packet_len

unfoldable pub should_split : ℕ → Option ℕ → Option ℕ → ℕ → StrategyMode → PathStrategy → Bool
unfolding packet_exceeds_mtu
should_split packet_len threshold mtu path_count mode strategy =
    if packet_exceeds_mtu packet_len mtu
    then true
    else if leb path_count 1
    then false
    else mode_splits mode strategy threshold packet_len

-- `f64`, with the expression `(packet_len as f64 * accumulated).round() as usize`.
pub record Float : Type 1 where
  pub F : Type 0
  pub zero_float : F
  pub add_float : F → F → F
  pub scaled_round : ℕ → F → ℕ

-- `value.clamp(low, high)`, which panics unless `low` is at most `high`. It is so where the code calls
-- it: `low` is 0 or what an earlier call with the same `high` gave.
abbrev pub clamp : ℕ → ℕ → ℕ → ℕ
clamp low high value = max low (min high value)

abbrev pub is_empty {ℓ} : {A : Type ℓ} → List A → Bool
is_empty [] = true
is_empty (x ∷ xs) = false

-- `&all[start..end]`; `none` is the panic of a range that ends before it starts or past the end.
abbrev pub slice {ℓ} : {A : Type ℓ} → ℕ × ℕ → List A → Option (List A)
slice range all =
    if leb range.0 range.1 && leb range.1 (length all)
    then some (take (range.1 - range.0) (drop range.0 all))
    else none

module _ (float : Float) where
  -- The loop over the weights from `start` on; the last one takes all that is left.
  unfoldable pub weighted_ranges : ℕ → ℕ → float.F → List float.F → List (ℕ × ℕ)
  weighted_ranges packet_len start accumulated [] = []
  weighted_ranges packet_len start accumulated (weight ∷ []) = (start, packet_len) ∷ []
  weighted_ranges packet_len start accumulated (weight ∷ next ∷ weights) =
      let total = float.add_float accumulated weight in
      let end = clamp start packet_len (float.scaled_round packet_len total) in
      (start, end) ∷ weighted_ranges packet_len end total (next ∷ weights)

  unfoldable pub weighted_split_ranges : ℕ → List float.F → List (ℕ × ℕ)
  unfolding weighted_ranges
  weighted_split_ranges packet_len weights = weighted_ranges packet_len 0 float.zero_float weights

  -- The ranges that are not empty, with the index of their path.
  unfoldable pub nonempty_ranges : ℕ → List (ℕ × ℕ) → List (ℕ × ℕ × ℕ)
  nonempty_ranges path_index [] = []
  nonempty_ranges path_index ((start, end) ∷ ranges) =
      let rest = nonempty_ranges (path_index + 1) ranges in
      if start == end then rest else (path_index, start, end) ∷ rest

  -- `(0..packet_len).step_by(max_payload)`, as ranges; `fuel` bounds their number.
  unfoldable pub mtu_chunks : ℕ → ℕ → ℕ → ℕ → List (ℕ × ℕ)
  mtu_chunks zero packet_len max_payload start = []
  mtu_chunks (suc fuel) packet_len max_payload start =
      let rest = mtu_chunks fuel packet_len max_payload (start + max_payload) in
      if ltb start packet_len then (start, min (start + max_payload) packet_len) ∷ rest else []

  unfoldable pub on_path : ℕ → List (ℕ × ℕ) → List (ℕ × ℕ × ℕ)
  on_path path_index [] = []
  on_path path_index ((start, end) ∷ chunks) = (path_index, start, end) ∷ on_path path_index chunks

  -- The loop over the paths' ranges of chunks.
  unfoldable pub assign_chunks : ℕ → List (ℕ × ℕ) → List (ℕ × ℕ) → Option (List (ℕ × ℕ × ℕ))
  unfolding on_path
  assign_chunks path_index chunks [] = some []
  assign_chunks path_index chunks (range ∷ ranges) = elim (slice range chunks) [
    | none ↦ none
    | some part ↦ elim (assign_chunks (path_index + 1) chunks ranges) [
      | none ↦ none
      | some rest ↦ some (on_path path_index part ++ rest)
    ]
  ]

  unfoldable pub mtu_chunked_split_ranges :
      ℕ → List float.F → ℕ → Option (Option (List (ℕ × ℕ × ℕ)))
  unfolding mtu_chunks weighted_split_ranges assign_chunks
  mtu_chunked_split_ranges packet_len weights max_payload =
      let chunks = mtu_chunks packet_len packet_len max_payload 0 in
      if max_payload == 0 || ltb max_fragments (length chunks)
      then some none
      else if is_empty chunks || is_empty weights
      then some (some [])
      else elim (assign_chunks 0 chunks (weighted_split_ranges (length chunks) weights)) [
        | none ↦ none
        | some ranges ↦ some (some ranges)
      ]

  -- Without an MTU, or with one that the packet fits.
  unfoldable pub whole_split_ranges : ℕ → List float.F → Option (List (ℕ × ℕ × ℕ))
  unfolding weighted_split_ranges nonempty_ranges
  whole_split_ranges packet_len weights =
      let ranges = nonempty_ranges 0 (weighted_split_ranges packet_len weights) in
      if leb (length ranges) max_fragments then some ranges else none

  unfoldable pub packet_split_ranges :
      ℕ → List float.F → Option ℕ → Option (Option (List (ℕ × ℕ × ℕ)))
  unfolding mtu_chunked_split_ranges whole_split_ranges
  packet_split_ranges packet_len weights none = some (whole_split_ranges packet_len weights)
  packet_split_ranges packet_len weights (some mtu) =
      if ltb mtu packet_len
      then mtu_chunked_split_ranges packet_len weights mtu
      else some (whole_split_ranges packet_len weights)
