-- ===== src/Client/Tasks/Repair.antt =====
-- A round of `spawn_repair_control` of crates/client/src/main.rs: the bytes of a stream of the server, and
-- what the client sends for them. `taken` says of a fragment's index and a path's name whether iroh
-- takes the datagram.
use irohsion.Prelude.{
  ℕ, ◌+◌, if◌then◌else◌, Bool, true, false, List, [], ◌∷◌, length, Result, ok, err, All, ◌&&◌,
  Bool-cases, Result-cases, inl, inr,
}
use irohsion.Protocol.{RepairDecodeError, RepairRequest}
use irohsion.Protocol.Repair.{decode_repair_request}
use irohsion.Transport.Path.{PathConnection, is_connected, connection_id}
use irohsion.Transport.Path.Reconnect.{Reach, after, failed}
use irohsion.Client.RepairCache.{CachedFragment, RepairCache, fragments_for}
use irohsion.Client.RepairCache.Limits.{IsCache, fragments_for-IsCache}
use irohsion.Client.Strategy.{Floats, StrategyState}
use irohsion.Client.PathSend.{send_on_path, NamedPath}

module _ (floats : Floats) where
  pub record RepairTask : Type 0 where
    pub repair_cache : RepairCache
    pub all_paths : List (NamedPath floats)
    pub strategy : StrategyState floats

  abbrev pub Paths : Type 0
  Paths = List (NamedPath floats) × StrategyState floats

  -- A fragment on each path that is connected when its turn comes.
  unfoldable pub send_everywhere :
      (ℕ → Bool) → ℕ → List (NamedPath floats) → StrategyState floats → Paths
  unfolding send_on_path is_connected
  send_everywhere taken len [] s = ([], s)
  send_everywhere taken len (p ∷ paths) s =
      let sent = send_on_path floats (taken p.display_name) p.display_name len p.path s in
      let connected = is_connected p.path in
      let later = send_everywhere taken len paths (if connected then sent.1 else s) in
      (record p { path = if connected then sent.0 else p.path } ∷ later.0, later.1)

  unfoldable pub send_fragments : (ℕ → ℕ → Bool) → ℕ → List CachedFragment → Paths → Paths
  unfolding send_everywhere
  send_fragments taken index [] p = p
  send_fragments taken index (f ∷ fragments) p =
      send_fragments taken (index + 1) fragments
        (send_everywhere (taken index) (length f.packet) p.0 p.1)

  unfoldable pub answer_request : ℕ → (ℕ → ℕ → Bool) → RepairRequest → RepairTask → RepairTask
  unfolding fragments_for send_fragments
  answer_request now taken request r =
      let found = fragments_for now request r.repair_cache in
      let sent = send_fragments taken 0 found.1 (r.all_paths, r.strategy) in
      record { repair_cache = found.0; all_paths = sent.0; strategy = sent.1 }

  abbrev pub answer :
      ℕ → (ℕ → ℕ → Bool) → Result RepairDecodeError RepairRequest → RepairTask → RepairTask
  answer now taken (err e) r = r
  answer now taken (ok request) r = answer_request now taken request r

  unfoldable pub repair_round : ℕ → (ℕ → ℕ → Bool) → List ℕ → RepairTask → RepairTask
  unfolding answer_request decode_repair_request
  repair_round now taken payload r = answer now taken (decode_repair_request payload) r

  abbrev EachReach : List (NamedPath floats) → Type 0
  EachReach = All λ p. Reach p.path

  send_on_path-Reach :
      (taken : Bool) (interface len : ℕ) (path : PathConnection) (s : StrategyState floats)
      → Reach path
      → Reach (send_on_path floats taken interface len path s).0
  unfolding send_on_path
  send_on_path-Reach taken interface len path s h = elim (Bool-cases (is_connected path && taken)) [
    | inl e ↦ rw e h
    | inr e ↦ rw e (after h (failed path (connection_id path)))
  ]

  either-Reach : (b : Bool) (p q : PathConnection) → Reach p → Reach q → Reach (if b then p else q)
  either-Reach true p q h k = h
  either-Reach false p q h k = k

  send_everywhere-EachReach :
      (taken : ℕ → Bool) (len : ℕ) (paths : List (NamedPath floats)) (s : StrategyState floats)
      → EachReach paths
      → EachReach (send_everywhere taken len paths s).0
  unfolding send_everywhere
  send_everywhere-EachReach taken len [] s h = tt
  send_everywhere-EachReach taken len (p ∷ paths) s h = (
    either-Reach (is_connected p.path) _ p.path
        (send_on_path-Reach (taken p.display_name) p.display_name len p.path s h.0) h.0,
    send_everywhere-EachReach taken len paths _ h.1,
  )

  send_fragments-EachReach :
      (taken : ℕ → ℕ → Bool) (index : ℕ) (fragments : List CachedFragment) (p : Paths)
      → EachReach p.0
      → EachReach (send_fragments taken index fragments p).0
  unfolding send_fragments
  send_fragments-EachReach taken index [] p h = h
  send_fragments-EachReach taken index (f ∷ fragments) p h =
      send_fragments-EachReach taken (index + 1) fragments
        (send_everywhere (taken index) (length f.packet) p.0 p.1)
        (send_everywhere-EachReach (taken index) (length f.packet) p.0 p.1 h)

  -- Whatever bytes the server's stream has, and whatever iroh takes of the answer: the cache keeps to
  -- its limits, and every path is in a state that its steps reach.
  pub repair_round-IsCache :
      (now : ℕ) (taken : ℕ → ℕ → Bool) (payload : List ℕ) (r : RepairTask)
      → IsCache r.repair_cache
      → EachReach r.all_paths
      → IsCache (repair_round now taken payload r).repair_cache
        × EachReach (repair_round now taken payload r).all_paths
  unfolding repair_round answer_request
  repair_round-IsCache now taken payload r h k =
      elim (Result-cases (decode_repair_request payload)) [
        | inl (request, e) ↦ rw e (
          (fragments_for-IsCache now request r.repair_cache h).0,
          send_fragments-EachReach taken 0 (fragments_for now request r.repair_cache).1
              (r.all_paths, r.strategy) k,
        )
        | inr (e, same) ↦ rw same (h, k)
      ]
