-- ===== src/Client/Send/Chunks/Usable.antt =====
-- When `send_payload` of crates/client/src/main.rs finds a path for an MPEG-TS payload that it cuts into
-- chunks, and when it does not.
use irohsion.Prelude.{
  ℕ, ◌<◌, ◌≤◌, ◌≡◌, refl, arith, Bool, true, false, not, ◌||◌, List, [], ◌∷◌, some, length, All,
  ==_refl, sym, ◌⊎◌, inl, inr, Bool-cases, subst,
}
use irohsion.Prelude.Map.{member}
use irohsion.Protocol.{PackedHeaderTail, max_media_sequence}
use irohsion.Client.Split.{
  Float, is_mpeg_ts_payload, is_empty, StrategyMode, auto, redundant_mode, round_robin_mode,
  split_mode, PathStrategy, redundant, round_robin, split,
}
use irohsion.Client.Send.{PathView, Routing, active_paths, among, path_groups, is_round_robin}
use irohsion.Client.Send.Chunks.{
  chunks, Sent, is_redundant_strategy, is_redundant_mode, send_in_chunks, send_mpeg_ts_chunks,
  send_payload,
}
use irohsion.Client.Send.Chunks.Delivery.{Delivers, concat}
use irohsion.Client.Send.Chunks.Routes.{
  active, split_paths, has_route, nowhere, send_mpeg_ts_chunks-Delivers,
}

-- A path of that name is connected.
abbrev pub Connected : ℕ → List PathView → Type 0
Connected p [] = ⊥
Connected p (v ∷ paths) = ((v.display_name ≡ p) × (v.connected ≡ true)) ⊎ Connected p paths

-- Splitting uses the paths of the split group alone; the other strategies use any.
abbrev pub MayUse : PathStrategy → StrategyMode → List ℕ → ℕ → Type 0
MayUse round_robin mode group p = Unit {0}
MayUse redundant mode group p = Unit {0}
MayUse split redundant_mode group p = Unit {0}
MayUse split auto group p = member p group ≡ true
MayUse split round_robin_mode group p = member p group ≡ true
MayUse split split_mode group p = member p group ≡ true

some_member : (xs : List ℕ) → is_empty xs ≡ false → (p : ℕ) × (member p xs ≡ true)
unfolding member
some_member [] h = absurd (cc)
some_member (x ∷ xs) h = (x, rw (==_refl x) refl)

member-not_empty : (p : ℕ) (xs : List ℕ) → member p xs ≡ true → is_empty xs ≡ false
unfolding member
member-not_empty p [] h = absurd (cc)
member-not_empty p (x ∷ xs) h = refl

module _ (tail : PackedHeaderTail) (float : Float) where
  member-Connected :
      (p : ℕ) (paths : List PathView)
      → member p (active_paths tail float paths) ≡ true
      → Connected p paths
  unfolding member active_paths
  member-Connected p [] h = absurd (cc)
  member-Connected p (v ∷ paths) h = ground (arith, member-Connected p paths)

  Connected-member :
      (p : ℕ) (paths : List PathView)
      → Connected p paths
      → member p (active_paths tail float paths) ≡ true
  unfolding member active_paths
  Connected-member p [] h = elim h [ ]
  Connected-member p (v ∷ paths) (inl (name, up)) = ground (arith, name, up)
  Connected-member p (v ∷ paths) (inr later) = ground (arith, Connected-member p paths later)

  member-among :
      (p : ℕ) (names xs : List ℕ)
      → member p (among tail float names xs) ≡ true
      → (member p names ≡ true) × (member p xs ≡ true)
  unfolding member among
  member-among p names [] h = absurd (cc)
  member-among p names (x ∷ xs) h = ground (arith, member-among p names xs)

  among-member :
      (p : ℕ) (names xs : List ℕ)
      → member p names ≡ true
      → member p xs ≡ true
      → member p (among tail float names xs) ≡ true
  unfolding member among
  among-member p names [] h k = absurd (cc)
  among-member p names (x ∷ xs) h k = ground (arith, among-member p names xs)

  -- The test of the code on the strategy, the mode, and the paths of the split group that are up.
  abbrev routed : PathStrategy → StrategyMode → List ℕ → Bool
  routed strategy mode paths =
      (is_round_robin tail float strategy
        || (is_redundant_strategy tail float strategy || is_redundant_mode tail float mode))
      || not (is_empty paths)

  -- It finds a path where there is one that may be used.
  routed-MayUse :
      (strategy : PathStrategy) (mode : StrategyMode) (group up : List ℕ)
      → is_empty up ≡ false
      → routed strategy mode (among tail float group up) ≡ true
      → (p : ℕ) × (member p up ≡ true) × MayUse strategy mode group p
  routed-MayUse round_robin mode group up h r = let (p, there) = some_member up h in (p, there, tt)
  routed-MayUse redundant mode group up h r = let (p, there) = some_member up h in (p, there, tt)
  routed-MayUse split redundant_mode group up h r =
      let (p, there) = some_member up h in (p, there, tt)
  routed-MayUse split auto group up h r =
      let (p, both) = some_member (among tail float group up) (ground arith) in
      let (named, there) = member-among p group up both in (p, there, named)
  routed-MayUse split round_robin_mode group up h r =
      let (p, both) = some_member (among tail float group up) (ground arith) in
      let (named, there) = member-among p group up both in (p, there, named)
  routed-MayUse split split_mode group up h r =
      let (p, both) = some_member (among tail float group up) (ground arith) in
      let (named, there) = member-among p group up both in (p, there, named)

  in_group :
      (group up : List ℕ) (p : ℕ)
      → member p up ≡ true
      → member p group ≡ true
      → not (is_empty (among tail float group up)) ≡ true
  in_group group up p h k =
      rw (member-not_empty p (among tail float group up) (among-member p group up k h)) refl

  MayUse-routed :
      (strategy : PathStrategy) (mode : StrategyMode) (group up : List ℕ) (p : ℕ)
      → member p up ≡ true
      → MayUse strategy mode group p
      → routed strategy mode (among tail float group up) ≡ true
  MayUse-routed round_robin mode group up p h k = refl
  MayUse-routed redundant mode group up p h k = refl
  MayUse-routed split redundant_mode group up p h k = refl
  MayUse-routed split auto group up p h k = in_group group up p h k
  MayUse-routed split round_robin_mode group up p h k = in_group group up p h k
  MayUse-routed split split_mode group up p h k = in_group group up p h k

  module _ (r : Routing tail float) where
    -- A path is connected that the strategy may use.
    abbrev pub Usable : Type 0
    Usable =
        (p : ℕ) × Connected p r.paths × MayUse r.effective r.mode (path_groups tail float r).0 p

    Usable-up : Usable → is_empty (active tail float r) ≡ false
    Usable-up (p, up, may) = member-not_empty p _ (Connected-member p r.paths up)

    Usable-routed : Usable → has_route tail float r ≡ true
    Usable-routed (p, up, may) =
        MayUse-routed r.effective r.mode (path_groups tail float r).0 (active tail float r) p
          (Connected-member p r.paths up) may

    route_usable : is_empty (active tail float r) ≡ false → has_route tail float r ≡ true → Usable
    route_usable up route =
        let (p, there, may) =
          routed-MayUse r.effective r.mode (path_groups tail float r).0 (active tail float r) up
            route in
        (p, member-Connected p r.paths there, may)

    -- All chunks of the payload are sent, or none.
    abbrev pub AllOrNothing : ℕ → ℕ → List ℕ → Type 0
    AllOrNothing size seq payload =
        (Usable
          × (cs : List (List ℕ)) × (concat cs ≡ payload)
          × All (λ c. length c ≤ size) cs
          × (sent : Sent) × (send_payload tail float seq payload r ≡ some sent)
          × Delivers tail float (active tail float r) seq cs sent)
        ⊎ ((¬ Usable) × (send_payload tail float seq payload r ≡ some ([], seq)))

    none_sent :
        (size seq : ℕ) (payload : List ℕ)
        → r.mpeg_ts_chunk_bytes ≡ some size
        → send_in_chunks tail float seq payload r (some size) ≡ some (some ([], seq))
        → send_payload tail float seq payload r ≡ some ([], seq)
    unfolding send_payload send_mpeg_ts_chunks
    none_sent size seq payload set nothing =
        let sent : send_mpeg_ts_chunks tail float seq payload r ≡ some (some ([], seq)) =
          subst (λ o. send_in_chunks tail float seq payload r o ≡ some (some ([], seq))) (sym set)
            nothing in
        rw sent refl

    all_sent :
        (seq : ℕ) (payload : List ℕ) (sent : Sent)
        → send_mpeg_ts_chunks tail float seq payload r ≡ some (some sent)
        → send_payload tail float seq payload r ≡ some sent
    unfolding send_payload
    all_sent seq payload sent done = rw done refl

    -- An MPEG-TS payload above the chunk size, which is above 0, is sent as a whole or not at all,
    -- when the strategy gives a weight for each path and the first sequence is a media sequence. If
    -- a connected path may be used (when splitting, one of the split group), the payload is sent in
    -- chunks no longer than the chunk size that make it up, each with the next sequence, to
    -- connected paths. If none may be, nothing is sent, cached or fed to the parity encoder, the
    -- sequence stays, and the payload is not sent in one piece instead.
    pub send_payload-AllOrNothing :
        (size seq : ℕ) (payload : List ℕ)
        → r.mpeg_ts_chunk_bytes ≡ some size
        → 0 < size
        → size < length payload
        → is_mpeg_ts_payload payload ≡ true
        → length (r.active_split_weights (split_paths tail float r))
          ≡ length (split_paths tail float r)
        → seq ≤ max_media_sequence
        → AllOrNothing size seq payload
    unfolding send_in_chunks
    send_payload-AllOrNothing size seq payload set some_size long media w h =
        elim (Bool-cases (is_empty (active tail float r))) [
          | inl down ↦ inr (
            λ u. absurd (cc (Usable-up u)),
            none_sent size seq payload set (ground (arith, down)),
          )
          | inr up ↦ elim (Bool-cases (has_route tail float r)) [
            | inl route ↦
                let (cs, same, short, sent, done, delivered) =
                  send_mpeg_ts_chunks-Delivers tail float r size seq payload set some_size long
                    media w h up route in
                inl (
                  route_usable up route,
                  cs,
                  same,
                  short,
                  sent,
                  all_sent seq payload sent done,
                  delivered,
                )
            | inr nothing ↦
                let nowhere_sent =
                  nowhere tail float r seq (chunks (length payload) size payload) nothing in
                inr (
                  λ u. absurd (cc (Usable-routed u)),
                  none_sent size seq payload set (ground (arith, nowhere_sent)),
                )
          ]
        ]
