-- ===== src/Server/Registry/Life.antt =====
-- The life of the registry of crates/server/src/main.rs: paths connect, are lost and are answered on,
-- in any order; and the repair requests that go out in between.
use irohsion.Prelude.{
  ℕ, ◌≡◌, ◌≢◌, refl, ◌==◌, if◌then◌else◌, arith, Bool, true, false, ◌&&◌, ◌||◌, List, [], ◌∷◌, ◌++◌,
}
use irohsion.Prelude.Bytes.{bytes_eq, bytes_eq_refl}
use irohsion.Prelude.Map.{member}
use irohsion.Prelude.Named.{find, find-put}
use irohsion.Server.Loop.{any_eq, set_reply_routes}
use irohsion.Server.Registry.{
  ConnectionRegistry, connections_of, insert_id, register, remove_connection_if_current,
  repair_targets, send_response,
}
use irohsion.Server.Registry.Left.{
  IsRegistry, remove_connection_if_current-Left, member-insert_id, connections_of-same,
}
use irohsion.Server.Registry.Answer.{send_response-IsRegistry}

insert_id-some : (id : ℕ) (ids : List ℕ) → insert_id id ids ≢ []
unfolding insert_id
insert_id-some id [] h = cc
insert_id-some id (j ∷ ids) h = ground arith

register-IsRegistry :
    (remote : List ℕ) (id : ℕ) (registry : ConnectionRegistry)
    → IsRegistry registry
    → IsRegistry (register remote id registry)
unfolding register
register-IsRegistry remote id registry h other e = absurd (
    ground (
      arith,
      find-put remote other (insert_id id (connections_of remote registry)) registry,
      insert_id-some id (connections_of remote registry),
      h other,
    ))

-- A registry that the server can have.
pub data Reach : ConnectionRegistry → Type 0 where
  at_start : Reach []
  accepted :
      {g : ConnectionRegistry} (remote : List ℕ) (id : ℕ) → Reach g → Reach (register remote id g)
  lost :
      {g : ConnectionRegistry} (remote : List ℕ) (id : ℕ)
      → Reach g
      → Reach (remove_connection_if_current remote id g).0
  answered_on :
      {g : ConnectionRegistry} (accepts : ℕ → Bool) (routes : List (List ℕ))
      → Reach g
      → Reach (send_response accepts routes g).1

-- Whatever happened, no remote is left in the registry without a connection.
pub Reach-IsRegistry : (g : ConnectionRegistry) → Reach g → IsRegistry g
unfolding find
Reach-IsRegistry _ at_start = λ remote e. cc
Reach-IsRegistry _ (accepted {g = g} remote id r) =
    register-IsRegistry remote id g (Reach-IsRegistry g r)
Reach-IsRegistry _ (lost {g = g} remote id r) =
    (remove_connection_if_current-Left remote id g remote id (Reach-IsRegistry g r)).0
Reach-IsRegistry _ (answered_on {g = g} accepts routes r) =
    send_response-IsRegistry accepts routes g (Reach-IsRegistry g r)

member-append : (i : ℕ) (xs ys : List ℕ) → member i (xs ++ ys) ≡ (member i xs || member i ys)
unfolding member
member-append i [] ys = refl
member-append i (x ∷ xs) ys = ground (arith, member-append i xs ys)

connections_of-register :
    (remote : List ℕ) (id : ℕ) (registry : ConnectionRegistry) (other : List ℕ) (j : ℕ)
    → member j (connections_of other (register remote id registry)) ≡ (
        if bytes_eq remote other && id == j then true else member j (connections_of other registry))
unfolding register
connections_of-register remote id registry other j = ground (
  arith,
  find-put remote other (insert_id id (connections_of remote registry)) registry,
  member-insert_id id j (connections_of remote registry),
  connections_of-same remote other registry,
)

repair_targets-routed :
    (remote : List ℕ) (id : ℕ) (routes : List (List ℕ)) (g : ConnectionRegistry)
    → any_eq remote routes ≡ true
    → member id (connections_of remote g) ≡ true
    → member id (repair_targets routes g) ≡ true
unfolding any_eq repair_targets
repair_targets-routed remote id (r ∷ routes) g h k = ground (
  arith,
  member-append id (connections_of r g) (repair_targets routes g),
  connections_of-same r remote g,
  repair_targets-routed remote id routes g,
)
repair_targets-routed remote id [] g h k = absurd (cc)

any_eq-append_one :
    (remote : List ℕ) (routes : List (List ℕ)) → any_eq remote (routes ++ (remote ∷ [])) ≡ true
unfolding any_eq
any_eq-append_one remote [] = ground (arith, bytes_eq_refl remote)
any_eq-append_one remote (r ∷ routes) = ground (arith, any_eq-append_one remote routes)

any_eq-set_reply_routes :
    (remote : List ℕ) (reset : Bool) (routes : List (List ℕ))
    → any_eq remote (set_reply_routes remote reset routes) ≡ true
unfolding set_reply_routes any_eq
any_eq-set_reply_routes remote true routes = any_eq-append_one remote []
any_eq-set_reply_routes remote false routes = ground (arith, any_eq-append_one remote routes)

-- Once a packet of a remote has set the routes, each repair request goes to every connection that the
-- remote has; registering a connection adds that one and takes none away.
pub repair_targets-set_reply_routes :
    (remote : List ℕ) (reset : Bool) (routes : List (List ℕ)) (id : ℕ) (g : ConnectionRegistry)
    (j : ℕ)
    → let targets = repair_targets (set_reply_routes remote reset routes) (register remote id g) in
      (member id targets ≡ true)
      × (member j (connections_of remote g) ≡ true → member j targets ≡ true)
repair_targets-set_reply_routes remote reset routes id g j =
    let there = any_eq-set_reply_routes remote reset routes in
    (
      repair_targets-routed remote id _ (register remote id g) there
          (ground (arith, connections_of-register remote id g remote id, bytes_eq_refl remote)),
      λ h.
          repair_targets-routed remote j _ (register remote id g) there
            (ground (arith, connections_of-register remote id g remote j)),
    )
