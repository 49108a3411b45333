-- ===== src/Client/Send.antt =====
-- `send_packet` of crates/client/src/main.rs, as the actions that it takes: the repair cache, the
-- paths and the parity encoder get them in this order. A panic is `none`. What the code reads of the
-- strategy and of its paths is in `Routing`.
pub mod Chunks
pub mod Total
pub mod Live
use irohsion.Prelude.{
  ℕ, ◌+◌, ◌-◌, ◌%◌, if◌then◌else◌, Bool, true, false, ◌||◌, List, [], ◌∷◌, ◌++◌, map, Option, none,
  some, length, take, drop, get_elem?,
}
use irohsion.Prelude.Map.{member}
use mathlib.Core.Option
use irohsion.Protocol.{PackedHeaderTail}
use irohsion.Protocol.Packet.{encode_packet}
use irohsion.Client.Split.{
  Float, StrategyMode, auto, PathStrategy, redundant, round_robin, split, packet_exceeds_mtu,
  should_split, packet_split_ranges, is_empty, slice,
}
use irohsion.Client.RepairCache.{CachedFragment}

infixl 5 ◌>>=◌
abbrev pub ◌>>=◌ : {A B : Type 0} → Option A → (A → Option B) → Option B
none >>= f = none
some a >>= f = f a

-- A path, by the number of its `display_name`.
pub record PathView : Type 0 where
  pub display_name : ℕ
  pub connected : Bool

pub data Action : Type 0 where
  ingested : ℕ → ℕ → Action
  cache : ℕ → List CachedFragment → Action
  send : ℕ → List ℕ → ℕ → Action
  record_fec : ℕ → List ℕ → Action
  send_error : Action

module _ (tail : PackedHeaderTail) (float : Float) where
  -- What `send_packet` reads of the command line, the paths and the strategy. `auto_path_groups`
  -- gives the names of the split group and of the rescue group.
  pub record Routing : Type 0 where
    pub split_threshold_bytes : Option ℕ
    pub mtu : Option ℕ
    pub mpeg_ts_chunk_bytes : Option ℕ
    pub paths : List PathView
    pub mode : StrategyMode
    pub effective : PathStrategy
    pub auto_path_groups : List ℕ × List ℕ
    pub active_split_weights : List ℕ → List float.F
    pub round_robin_next : ℕ

  -- The names of the connected paths.
  unfoldable pub active_paths : List PathView → List ℕ
  active_paths [] = []
  active_paths (p ∷ paths) =
      let rest = active_paths paths in if p.connected then p.display_name ∷ rest else rest

  unfoldable pub among : List ℕ → List ℕ → List ℕ
  unfolding member
  among names [] = []
  among names (path ∷ paths) =
      let rest = among names paths in if member path names then path ∷ rest else rest

  abbrev pub path_names : List PathView → List ℕ
  path_names = map λ p. p.display_name

  abbrev pub is_auto_split : StrategyMode → PathStrategy → Bool
  is_auto_split auto split = true
  is_auto_split _ _ = false

  unfoldable pub path_groups : Routing → List ℕ × List ℕ
  path_groups r =
      if is_auto_split r.mode r.effective then r.auto_path_groups else (path_names r.paths, [])

  -- A fragment of a packet, for a path.
  pub record PathFragment : Type 0 where
    pub path : ℕ
    pub packet : List ℕ
    pub payload_len : ℕ

  -- The loop over the ranges; `split_paths[path_index]` and `&payload[start..end]` panic out of range.
  unfoldable pub encode_fragments :
      ℕ → List ℕ → ℕ → List ℕ → ℕ → List (ℕ × ℕ × ℕ) → Option (List PathFragment)
  encode_fragments seq payload fragments split_paths fragment [] = some []
  encode_fragments seq payload fragments split_paths fragment ((path_index, start, end) ∷ ranges) =
      do
        path ← get_elem? split_paths path_index
        bytes ← slice (start, end) payload
        packet ←
            encode_packet tail
              (record { sequence = seq; fragment = fragment; fragments = fragments }) bytes
        rest ← encode_fragments seq payload fragments split_paths (fragment + 1) ranges
        some (record { path = path; packet = packet; payload_len = end - start } ∷ rest)

  abbrev pub cached : List PathFragment → List CachedFragment
  cached = map λ f. record { packet = f.packet; payload_len = f.payload_len }

  abbrev pub sends : List PathFragment → List Action
  sends = map λ f. send f.path f.packet f.payload_len

  unfoldable pub single_fragment_packet : ℕ → List ℕ → Option (List ℕ)
  single_fragment_packet seq payload =
      encode_packet tail (record { sequence = seq; fragment = 0; fragments = 1 }) payload

  -- `cache_repair_fragments` with the one packet.
  abbrev pub cache_whole : ℕ → List ℕ → ℕ → Action
  cache_whole seq packet len = cache seq (record { packet = packet; payload_len = len } ∷ [])

  abbrev pub send_all : List ℕ → List ℕ → ℕ → List Action
  send_all paths packet len = map (λ path. send path packet len) paths

  -- The rescue paths get the packet as a whole.
  unfoldable pub rescue : ℕ → List ℕ → List ℕ → Option ℕ → Option (List Action)
  unfolding single_fragment_packet
  rescue seq payload rescue_paths mtu =
      if is_empty rescue_paths || packet_exceeds_mtu (length payload) mtu then some [] else do
        packet ← single_fragment_packet seq payload
        some (
            cache_whole seq packet (length payload) ∷ send_all rescue_paths packet (length payload))

  -- What is sent of the ranges that a payload is cut into, if there are any.
  unfoldable pub send_cut :
      ℕ → List ℕ → Routing → List ℕ → List ℕ → Option (List (ℕ × ℕ × ℕ)) → Option (List Action)
  unfolding encode_fragments rescue
  send_cut seq payload r split_paths rescue_paths none = some (send_error ∷ [])
  send_cut seq payload r split_paths rescue_paths (some ranges) = do
    fragments ← encode_fragments seq payload (length ranges) split_paths 0 ranges
    rescued ← rescue seq payload rescue_paths r.mtu
    some (
        cache seq (cached fragments)
        ∷ (sends fragments ++ (rescued ++ (record_fec seq payload ∷ []))))

  unfoldable pub send_split : ℕ → List ℕ → Routing → List ℕ → List ℕ → Option (List Action)
  unfolding send_cut
  send_split seq payload r split_paths rescue_paths = do
    ranges ← packet_split_ranges float (length payload) (r.active_split_weights split_paths) r.mtu
    send_cut seq payload r split_paths rescue_paths ranges

  abbrev pub is_round_robin : PathStrategy → Bool
  is_round_robin round_robin = true
  is_round_robin redundant = false
  is_round_robin split = false

  unfoldable pub send_whole : ℕ → List ℕ → Routing → List ℕ → Option (List Action)
  unfolding single_fragment_packet
  send_whole seq payload r active = do
    packet ← single_fragment_packet seq payload
    chosen ←
        if is_round_robin r.effective
        then Option.map (λ path. path ∷ []) (get_elem? active (r.round_robin_next % length active))
        else some active
    some (
        cache_whole seq packet (length payload)
        ∷ (send_all chosen packet (length payload) ++ (record_fec seq payload ∷ [])))

  unfoldable pub send_packet : ℕ → List ℕ → Routing → Option (List Action)
  unfolding active_paths among path_groups send_split send_whole should_split
  send_packet seq payload r =
      let active = active_paths r.paths in
      let groups = path_groups r in
      let split_paths = among groups.0 active in
      if is_empty active
      then some []
      else if should_split (length payload) r.split_threshold_bytes r.mtu (length split_paths)
          r.mode r.effective
      then send_split seq payload r split_paths (among groups.1 active)
      else send_whole seq payload r active
