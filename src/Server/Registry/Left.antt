-- ===== src/Server/Registry/Left.antt =====
-- What `response_loop` and `remove_connection_if_current` of crates/server/src/main.rs leave of the
-- registry, and which connection an answer goes to.
use irohsion.Prelude.{
  ℕ, ◌≡◌, ◌≢◌, refl, ◌∙◌, sym, ◌==◌, if◌then◌else◌, arith, Bool, true, false, ◌&&◌, List, [], ◌∷◌,
  Option, none, some, is_some,
}
use irohsion.Prelude.Bytes.{bytes_eq, bytes_eq_refl, bytes_eq→≡}
use irohsion.Prelude.Map.{member, discard, member-discard}
use irohsion.Prelude.Named.{find, find-put, find-erase}
use irohsion.Server.Registry.{
  ConnectionRegistry, connections_of, insert_id, keep_rest, is_left, without_id,
  remove_connection_if_current,
}

-- What is left of a remote, and that the others keep theirs.
pub connections_of-keep_rest :
    (remote other : List ℕ) (ids : List ℕ) (registry : ConnectionRegistry)
    → connections_of other (keep_rest remote ids registry)
      ≡ (if bytes_eq remote other then ids else connections_of other registry)
connections_of-keep_rest remote other [] registry = ground (arith, find-erase remote other registry)
connections_of-keep_rest remote other (id ∷ ids) registry =
    ground (arith, find-put remote other (id ∷ ids) registry)

-- No remote without a connection is kept.
abbrev pub IsRegistry : ConnectionRegistry → Type 0
IsRegistry registry = (remote : List ℕ) → find remote registry ≢ some []

pub keep_rest-IsRegistry :
    (remote : List ℕ) (ids : List ℕ) (registry : ConnectionRegistry)
    → IsRegistry registry
    → IsRegistry (keep_rest remote ids registry)
keep_rest-IsRegistry remote [] registry h other e =
    absurd (ground (arith, find-erase remote other registry, h other))
keep_rest-IsRegistry remote (id ∷ ids) registry h other e =
    absurd (ground (arith, find-put remote other (id ∷ ids) registry, h other))

is_left-keep_rest :
    (remote : List ℕ) (ids : List ℕ) (registry : ConnectionRegistry)
    → is_left ids ≡ is_some (find remote (keep_rest remote ids registry))
is_left-keep_rest remote [] registry =
    ground (arith, find-erase remote remote registry, bytes_eq_refl remote)
is_left-keep_rest remote (id ∷ ids) registry =
    ground (arith, find-put remote remote (id ∷ ids) registry, bytes_eq_refl remote)

-- The connections of a remote, as those of an equal one.
pub connections_of-same :
    (remote other : List ℕ) (registry : ConnectionRegistry)
    → bytes_eq remote other ≡ true
    → connections_of remote registry ≡ connections_of other registry
connections_of-same remote other registry e = rw (bytes_eq→≡ remote other e) refl

member-keep_rest :
    (remote : List ℕ) (id : ℕ) (ids : List ℕ) (registry : ConnectionRegistry) (other : List ℕ)
    (j : ℕ)
    → connections_of remote registry ≡ ids
    → member j (connections_of other (keep_rest remote (discard id ids) registry)) ≡ (
        if bytes_eq remote other && id == j
        then false
        else member j (connections_of other registry))
member-keep_rest remote id ids registry other j e =
    rw (connections_of-keep_rest remote other (discard id ids) registry)
      (by_remote (bytes_eq remote other) refl)
  where
    by_remote :
        (b : Bool)
        → bytes_eq remote other ≡ b
        → member j (if b then discard id ids else connections_of other registry)
          ≡ (if b && id == j then false else member j (connections_of other registry))
    by_remote true same =
        member-discard id j ids ∙ cc (e, connections_of-same remote other registry same)
    by_remote false different = refl

pub member-insert_id :
    (id j : ℕ) (ids : List ℕ)
    → member j (insert_id id ids) ≡ (if id == j then true else member j ids)
unfolding member insert_id
member-insert_id id j [] = refl
member-insert_id id j (i ∷ ids) = ground (arith, member-insert_id id j ids)

-- A connection that is lost is gone, the others stay, and the answer says whether its remote has one
-- left.
pub remove_connection_if_current-Left :
    (remote : List ℕ) (id : ℕ) (registry : ConnectionRegistry) (other : List ℕ) (j : ℕ)
    → IsRegistry registry
    → let (left, answer) = remove_connection_if_current remote id registry in
      IsRegistry left
      × (answer ≡ is_some (find remote left))
      × (member j (connections_of other left) ≡ (
          if bytes_eq remote other && id == j
          then false
          else member j (connections_of other registry)))
unfolding remove_connection_if_current member
remove_connection_if_current-Left remote id registry other j h =
    by_entry (find remote registry) refl
  where
    nothing :
        find remote registry ≡ none
        → bytes_eq remote other ≡ true
        → connections_of other registry ≡ []
    nothing e same = sym (connections_of-same remote other registry same) ∙ rw e refl

    member_none :
        connections_of other registry ≡ [] → member j (connections_of other registry) ≡ false
    member_none e = rw (e, member) refl

    by_entry :
        (o : Option (List ℕ))
        → find remote registry ≡ o
        → let (left, answer) = without_id remote id registry o in
          IsRegistry left
          × (answer ≡ is_some (find remote left))
          × (member j (connections_of other left) ≡ (
              if bytes_eq remote other && id == j
              then false
              else member j (connections_of other registry)))
    by_entry none e = (h, rw e refl, ground (arith, nothing e, member_none))
    by_entry (some ids) e = (
      keep_rest-IsRegistry remote (discard id ids) registry h,
      is_left-keep_rest remote (discard id ids) registry,
      member-keep_rest remote id ids registry other j (rw e refl),
    )
