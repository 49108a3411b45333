-- ===== src/Server/Registry/Answer.antt =====
-- An answer of the UDP destination, in `response_loop` of crates/server/src/main.rs: the connection
-- that it goes to, and the connections that are dropped on the way.
use irohsion.Prelude.{
  ℕ, ◌≡◌, refl, ◌∙◌, sym, if◌then◌else◌, arith, Bool, true, false, List, [], ◌∷◌, ◌++◌, Option,
  none, some, All, Bool-cases, Option-cases, inl, inr,
}
use irohsion.Prelude.Bytes.{bytes_eq}
use irohsion.Prelude.Map.{member, discard, member-discard}
use irohsion.Prelude.Named.{find}
use irohsion.Server.Registry.{
  ConnectionRegistry, connections_of, newest_first, discard_all, drop_failed, try_send,
  send_response, answered,
}
use irohsion.Server.Registry.Left.{
  IsRegistry, keep_rest-IsRegistry, connections_of-keep_rest, connections_of-same,
}

abbrev or_else : Option ℕ → Option ℕ → Option ℕ
or_else none b = b
or_else (some a) b = some a

discard_all-empty : (failed : List ℕ) → discard_all failed [] ≡ []
unfolding discard_all discard
discard_all-empty [] = refl
discard_all-empty (f ∷ failed) = discard_all-empty failed

answered-or_else :
    (o : Option ℕ) (left : ConnectionRegistry) (later : Option ℕ × ConnectionRegistry)
    → (answered o left later).0 ≡ or_else o later.0
answered-or_else (some id) left later = refl
answered-or_else none left later = refl

-- The failed connections leave their remote, and no other.
connections_of-drop_failed :
    (remote : List ℕ) (failed : List ℕ) (registry : ConnectionRegistry) (other : List ℕ)
    → connections_of other (drop_failed remote failed registry) ≡ (
        if bytes_eq remote other
        then discard_all failed (connections_of other registry)
        else connections_of other registry)
unfolding drop_failed discard_all
connections_of-drop_failed remote [] registry other = ground arith
connections_of-drop_failed remote (f ∷ failed) registry other =
    elim (Option-cases (find remote registry)) [
      | inl e ↦ rw (e, drop_failed) (by_remote (bytes_eq remote other) refl (rw e refl))
      | inr (ids, e) ↦
          rw (e, drop_failed)
            (connections_of-keep_rest remote other (discard_all failed (discard f ids)) registry
              ∙ ground (arith, same_ids ids e))
    ]
  where
    by_remote :
        (b : Bool)
        → bytes_eq remote other ≡ b
        → connections_of remote registry ≡ []
        → connections_of other registry ≡ (
            if b
            then discard_all failed (discard f (connections_of other registry))
            else connections_of other registry)
    by_remote true same e =
        let here : connections_of other registry ≡ [] =
          sym (connections_of-same remote other registry same) ∙ e in
        rw here (sym (discard_all-empty (f ∷ failed)))
    by_remote false different e = refl

    same_ids :
        (ids : List ℕ)
        → find remote registry ≡ some ids
        → bytes_eq remote other ≡ true
        → connections_of other registry ≡ ids
    same_ids ids e same = sym (connections_of-same remote other registry same) ∙ rw e refl

drop_failed-IsRegistry :
    (remote : List ℕ) (failed : List ℕ) (registry : ConnectionRegistry)
    → IsRegistry registry
    → IsRegistry (drop_failed remote failed registry)
unfolding drop_failed
drop_failed-IsRegistry remote [] registry h = h
drop_failed-IsRegistry remote (f ∷ failed) registry h = elim (Option-cases (find remote registry)) [
  | inl e ↦ rw (e, drop_failed) h
  | inr (ids, e) ↦
      rw (e, drop_failed) (keep_rest-IsRegistry remote (discard_all (f ∷ failed) ids) registry h)
]

module _ (accepts : ℕ → Bool) where
  -- The newest connection that takes a datagram.
  unfoldable pub last_accepting : List ℕ → Option ℕ
  last_accepting [] = none
  last_accepting (id ∷ ids) = or_else (last_accepting ids) (if accepts id then some id else none)

  -- Where an answer should go: the first routed remote with such a connection.
  unfoldable pub first_answer : List (List ℕ) → ConnectionRegistry → Option ℕ
  unfolding last_accepting
  first_answer [] registry = none
  first_answer (remote ∷ routes) registry =
      or_else (last_accepting (connections_of remote registry)) (first_answer routes registry)

  abbrev Refused : ℕ → Type 0
  Refused f = accepts f ≡ false

  try_send-Refused : (ids : List ℕ) → All Refused (try_send accepts ids).1
  unfolding try_send
  try_send-Refused [] = tt
  try_send-Refused (id ∷ ids) = elim (Bool-cases (accepts id)) [
    | inl e ↦ rw e tt
    | inr e ↦ rw e (e, try_send-Refused ids)
  ]

  try_send-append_one :
      (ids : List ℕ) (id : ℕ)
      → (try_send accepts (ids ++ (id ∷ []))).0
        ≡ or_else (try_send accepts ids).0 (if accepts id then some id else none)
  unfolding try_send
  try_send-append_one [] id = ground arith
  try_send-append_one (i ∷ ids) id = elim (Bool-cases (accepts i)) [
    | inl e ↦ rw e refl
    | inr e ↦ rw e (try_send-append_one ids id)
  ]

  try_send-newest_first :
      (ids : List ℕ) → (try_send accepts (newest_first ids)).0 ≡ last_accepting ids
  unfolding newest_first last_accepting try_send
  try_send-newest_first [] = refl
  try_send-newest_first (id ∷ ids) =
      try_send-append_one (newest_first ids) id ∙ rw (try_send-newest_first ids) refl

  last_accepting-discard :
      (f : ℕ) (ids : List ℕ)
      → accepts f ≡ false
      → last_accepting (discard f ids) ≡ last_accepting ids
  unfolding last_accepting discard
  last_accepting-discard f [] h = refl
  last_accepting-discard f (id ∷ ids) h = ground (arith, last_accepting-discard f ids h)

  last_accepting-discard_all :
      (failed ids : List ℕ)
      → All Refused failed
      → last_accepting (discard_all failed ids) ≡ last_accepting ids
  unfolding discard_all
  last_accepting-discard_all [] ids h = refl
  last_accepting-discard_all (f ∷ failed) ids h =
      last_accepting-discard_all failed (discard f ids) h.1 ∙ last_accepting-discard f ids h.0

  last_accepting-drop_failed :
      (remote : List ℕ) (failed : List ℕ) (registry : ConnectionRegistry) (other : List ℕ)
      → All Refused failed
      → last_accepting (connections_of other (drop_failed remote failed registry))
        ≡ last_accepting (connections_of other registry)
  last_accepting-drop_failed remote failed registry other h =
      rw (connections_of-drop_failed remote failed registry other)
        (by_remote (bytes_eq remote other))
    where
      by_remote :
          (b : Bool)
          → last_accepting (
              if b
              then discard_all failed (connections_of other registry)
              else connections_of other registry)
            ≡ last_accepting (connections_of other registry)
      by_remote true = last_accepting-discard_all failed (connections_of other registry) h
      by_remote false = refl

  first_answer-drop_failed :
      (remote : List ℕ) (failed : List ℕ) (registry : ConnectionRegistry) (routes : List (List ℕ))
      → All Refused failed
      → first_answer routes (drop_failed remote failed registry) ≡ first_answer routes registry
  unfolding first_answer
  first_answer-drop_failed remote failed registry [] h = refl
  first_answer-drop_failed remote failed registry (r ∷ routes) h =
      rw
        (
          last_accepting-drop_failed remote failed registry r h,
          first_answer-drop_failed remote failed registry routes h,
        )
        refl

  -- An answer goes to one connection at most: to the newest one that takes it, of the first routed
  -- remote that has such a connection. It is lost only if no connection of a routed remote takes it.
  pub send_response-first_answer :
      (routes : List (List ℕ)) (registry : ConnectionRegistry)
      → (send_response accepts routes registry).0 ≡ first_answer routes registry
  unfolding send_response first_answer
  send_response-first_answer [] registry = refl
  send_response-first_answer (remote ∷ routes) registry =
      let ids : List ℕ = connections_of remote registry in
      let failed : List ℕ = (try_send accepts (newest_first ids)).1 in
      let left : ConnectionRegistry = drop_failed remote failed registry in
      let later : (send_response accepts routes (drop_failed remote failed registry)).0
          ≡ first_answer routes registry =
        send_response-first_answer routes (drop_failed remote failed registry)
        ∙ first_answer-drop_failed remote failed registry routes
            (try_send-Refused (newest_first ids)) in
      answered-or_else (try_send accepts (newest_first ids)).0 left
        (send_response accepts routes left)
      ∙ rw (try_send-newest_first ids, later) refl

  member-discard_all :
      (failed ids : List ℕ) (j : ℕ)
      → All Refused failed
      → accepts j ≡ true
      → member j (discard_all failed ids) ≡ member j ids
  unfolding discard_all
  member-discard_all [] ids j h k = refl
  member-discard_all (f ∷ failed) ids j h k =
      member-discard_all failed (discard f ids) j h.1 k
      ∙ ground (arith, member-discard f j ids, h.0)

  member-drop_failed :
      (remote : List ℕ) (failed : List ℕ) (registry : ConnectionRegistry) (other : List ℕ) (j : ℕ)
      → All Refused failed
      → accepts j ≡ true
      → member j (connections_of other (drop_failed remote failed registry))
        ≡ member j (connections_of other registry)
  member-drop_failed remote failed registry other j h k =
      rw (connections_of-drop_failed remote failed registry other)
        (by_remote (bytes_eq remote other))
    where
      by_remote :
          (b : Bool)
          → member j (
              if b
              then discard_all failed (connections_of other registry)
              else connections_of other registry)
            ≡ member j (connections_of other registry)
      by_remote true = member-discard_all failed (connections_of other registry) j h k
      by_remote false = refl

  -- A connection that takes datagrams is never dropped, whatever remote it belongs to and whether or
  -- not the answer went to it.
  pub send_response-Kept :
      (routes : List (List ℕ)) (registry : ConnectionRegistry) (other : List ℕ) (j : ℕ)
      → accepts j ≡ true
      → member j (connections_of other (send_response accepts routes registry).1)
        ≡ member j (connections_of other registry)
  unfolding send_response
  send_response-Kept [] registry other j k = refl
  send_response-Kept (remote ∷ routes) registry other j k =
      let sent : Option ℕ × List ℕ =
        try_send accepts (newest_first (connections_of remote registry)) in
      let left : ConnectionRegistry = drop_failed remote sent.1 registry in
      let kept =
        member-drop_failed remote sent.1 registry other j
          (try_send-Refused (newest_first (connections_of remote registry))) k in
      by_answer sent.0 left (send_response accepts routes left) kept
        (send_response-Kept routes left other j k ∙ kept)
    where
      by_answer :
          (o : Option ℕ) (left : ConnectionRegistry) (later : Option ℕ × ConnectionRegistry)
          → member j (connections_of other left) ≡ member j (connections_of other registry)
          → member j (connections_of other later.1) ≡ member j (connections_of other registry)
          → member j (connections_of other (answered o left later).1)
            ≡ member j (connections_of other registry)
      by_answer (some id) left later a b = a
      by_answer none left later a b = b

  pub send_response-IsRegistry :
      (routes : List (List ℕ)) (registry : ConnectionRegistry)
      → IsRegistry registry
      → IsRegistry (send_response accepts routes registry).1
  unfolding send_response
  send_response-IsRegistry [] registry h = h
  send_response-IsRegistry (remote ∷ routes) registry h =
      let sent : Option ℕ × List ℕ =
        try_send accepts (newest_first (connections_of remote registry)) in
      let left : ConnectionRegistry = drop_failed remote sent.1 registry in
      let sound = drop_failed-IsRegistry remote sent.1 registry h in
      by_answer sent.0 left (send_response accepts routes left) sound
        (send_response-IsRegistry routes left sound)
    where
      by_answer :
          (o : Option ℕ) (left : ConnectionRegistry) (later : Option ℕ × ConnectionRegistry)
          → IsRegistry left
          → IsRegistry later.1
          → IsRegistry (answered o left later).1
      by_answer (some id) left later a b = a
      by_answer none left later a b = b
