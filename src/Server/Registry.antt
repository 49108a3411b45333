-- ===== src/Server/Registry.antt =====
-- The server's connections in crates/server/src/main.rs: the registry that `main` fills, the repair
-- requests of `RepairControl` and the answers of `response_loop`. A connection is its stable
-- identifier; whether it takes a datagram is up to iroh.
pub mod Left
pub mod Answer
pub mod Life
use irohsion.Prelude.{
  ℕ, ◌≡◌, ◌==◌, if◌then◌else◌, ltb, Bool, true, false, not, List, [], ◌∷◌, ◌++◌, Option, none, some,
}
use irohsion.Prelude.Bytes.{bytes_eq}
use irohsion.Prelude.Map.{discard}
use irohsion.Prelude.Named.{find, put, erase}

-- The connections of each remote, in the order of their identifiers.
abbrev pub ConnectionRegistry : Type 0
ConnectionRegistry = List (List ℕ × List ℕ)

abbrev pub or_none : Option (List ℕ) → List ℕ
or_none none = []
or_none (some connections) = connections

abbrev pub connections_of : List ℕ → ConnectionRegistry → List ℕ
connections_of remote registry = or_none (find remote registry)

unfoldable pub insert_id : ℕ → List ℕ → List ℕ
insert_id id [] = id ∷ []
insert_id id (j ∷ ids) =
    let rest = insert_id id ids in
    if j == id then id ∷ ids else if ltb id j then id ∷ j ∷ ids else j ∷ rest

-- `entry(remote).or_default().insert(stable_id, …)`
unfoldable pub register : List ℕ → ℕ → ConnectionRegistry → ConnectionRegistry
unfolding insert_id
register remote id registry = put remote (insert_id id (connections_of remote registry)) registry

-- What is left of a remote's connections; a remote without one is removed.
abbrev pub keep_rest : List ℕ → List ℕ → ConnectionRegistry → ConnectionRegistry
keep_rest remote [] registry = erase remote registry
keep_rest remote (id ∷ ids) registry = put remote (id ∷ ids) registry

abbrev pub is_left : List ℕ → Bool
is_left [] = false
is_left (id ∷ ids) = true

-- The branches on the remote's entry.
abbrev pub without_id :
    List ℕ → ℕ → ConnectionRegistry → Option (List ℕ) → ConnectionRegistry × Bool
without_id remote id registry none = (registry, false)
without_id remote id registry (some ids) =
    (keep_rest remote (discard id ids) registry, is_left (discard id ids))

unfoldable pub remove_connection_if_current :
    List ℕ → ℕ → ConnectionRegistry → ConnectionRegistry × Bool
remove_connection_if_current remote id registry =
    without_id remote id registry (find remote registry)

-- The connections that `RepairControl::send` sends to.
unfoldable pub repair_targets : List (List ℕ) → ConnectionRegistry → List ℕ
repair_targets [] registry = []
repair_targets (remote ∷ routes) registry =
    connections_of remote registry ++ repair_targets routes registry

unfoldable pub newest_first : List ℕ → List ℕ
newest_first [] = []
newest_first (id ∷ ids) = newest_first ids ++ (id ∷ [])

unfoldable pub discard_all : List ℕ → List ℕ → List ℕ
discard_all [] ids = ids
discard_all (f ∷ failed) ids = discard_all failed (discard f ids)

-- `if !failed.is_empty() { … }`
unfoldable pub drop_failed : List ℕ → List ℕ → ConnectionRegistry → ConnectionRegistry
unfolding discard_all
drop_failed remote [] registry = registry
drop_failed remote (f ∷ failed) registry = elim (find remote registry) [
  | none ↦ registry
  | some ids ↦ keep_rest remote (discard_all (f ∷ failed) ids) registry
]

-- `if sent { break; }`
abbrev pub answered :
    Option ℕ → ConnectionRegistry → Option ℕ × ConnectionRegistry → Option ℕ × ConnectionRegistry
answered (some id) left later = (some id, left)
answered none left later = later

module _ (accepts : ℕ → Bool) where
  -- The loop over a remote's connections: the one that took the payload, and those that did not.
  unfoldable pub try_send : List ℕ → Option ℕ × List ℕ
  try_send [] = (none, [])
  try_send (id ∷ ids) =
      let rest = try_send ids in if accepts id then (some id, []) else (rest.0, id ∷ rest.1)

  -- The loop over the remotes.
  unfoldable pub send_response : List (List ℕ) → ConnectionRegistry → Option ℕ × ConnectionRegistry
  unfolding newest_first try_send drop_failed
  send_response [] registry = (none, registry)
  send_response (remote ∷ remotes) registry =
      let sent = try_send (newest_first (connections_of remote registry)) in
      let left = drop_failed remote sent.1 registry in
      let later = send_response remotes left in answered sent.0 left later

  -- A round of `response_loop`, for a datagram from `source`.
  unfoldable pub response_round :
      ℕ → ℕ → List (List ℕ) → ConnectionRegistry → Option ℕ × ConnectionRegistry
  unfolding send_response
  response_round source udp_dest routes registry =
      if not (source == udp_dest) then (none, registry) else send_response routes registry
