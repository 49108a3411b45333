-- ===== src/Client/RepairCache/Limits.antt =====
-- The bounds of the repair cache, and what it answers.
use irohsion.Prelude.{
  ℕ, ◌*◌, ◌-◌, ◌^◌, min, ◌≤◌, ◌≡◌, ◌⊎◌, refl, if◌then◌else◌, ltb, arith, Bool, true, false, List,
  [], ◌∷◌, ◌++◌, none, some, length, max, Bool-cases, inl, inr, Option-cases, ltb→le,
}
use irohsion.Prelude.Map.{
  lookup, insert, remove, contains_key, member, member-append_one, lookup-remove, length-remove-le,
  lookup-insert,
}
use irohsion.Client.RepairCache.{
  CachedFragment, CachedPacket, RepairCache, expire, enforce, expire_locked, enforce_limit_locked,
  store, insert_packet, requested, fragments_for, request_key, expire_recent_requests_locked,
  enforce_recent_request_limit_locked, note_request, is_recent, repair_request_dedup_window,
}
use irohsion.Protocol.{RepairRequest}

-- Every key of the map waits in the queue.
abbrev pub Queued {ℓ} : {V : Type ℓ} → List ℕ → List (ℕ × V) → Type ℓ
Queued order m = (k : ℕ) → member k order ≡ false → lookup k m ≡ none

-- The queue holds every packet and every request of the maps, and the maps keep their limits.
pub record IsCache (c : RepairCache) : Type 0 where
  pub packets_queued : Queued c.order c.packets
  pub requests_queued : Queued c.request_order c.recent_requests
  pub packets_bounded : length c.packets ≤ c.max_packets
  pub requests_bounded : length c.recent_requests ≤ max (c.max_packets * 4) 1

nothing-Queued : {V : Type 0} (m : List (ℕ × V)) → Queued [] m → length m ≡ 0
unfolding lookup member
nothing-Queued [] q = refl
nothing-Queued ((k, v) ∷ m) q = absurd (ground (arith, q k))

module _ {V : Type 0} where
  Queued-remove :
      (k : ℕ) (order : List ℕ) (m : List (ℕ × V)) → Queued (k ∷ order) m → Queued order (remove k m)
  unfolding member
  Queued-remove k order m q j h = ground (arith, lookup-remove k j m, q j)

  enforce-Queued :
      (limit : ℕ) (order : List ℕ) (m : List (ℕ × V))
      → Queued order m
      → Queued (enforce limit order m).0 (enforce limit order m).1
        × (length (enforce limit order m).1 ≤ limit)
  unfolding enforce
  enforce-Queued limit [] m q = (q, omega (arith, nothing-Queued m q))
  enforce-Queued limit (oldest ∷ order) m q = elim (Bool-cases (ltb limit (length m))) [
    | inl long ↦
        rw long (enforce-Queued limit order (remove oldest m) (Queued-remove oldest order m q))
    | inr fits ↦ rw fits (q, ltb→le _ _ fits)
  ]

  expire-Queued :
      (stored : V → ℕ) (now age : ℕ) (order : List ℕ) (m : List (ℕ × V))
      → Queued order m
      → Queued (expire stored now age order m).0 (expire stored now age order m).1
        × (length (expire stored now age order m).1 ≤ length m)
  unfolding expire
  expire-Queued stored now age [] m q = (q, omega arith)
  expire-Queued stored now age (oldest ∷ order) m q =
      let (queued, shorter) =
        expire-Queued stored now age order (remove oldest m) (Queued-remove oldest order m q) in
      go _ queued (omega (arith, length-remove-le oldest m))
    where
      go :
          (expired : Bool)
          → Queued
              (expire stored now age order (remove oldest m)).0
              (expire stored now age order (remove oldest m)).1
          → length (expire stored now age order (remove oldest m)).1 ≤ length m
          → let r =
              if expired
              then expire stored now age order (remove oldest m)
              else (oldest ∷ order, m) in
            Queued r.0 r.1 × (length r.1 ≤ length m)
      go true queued shorter = (queued, shorter)
      go false queued shorter = (q, omega arith)

  Queued-insert :
      (k : ℕ) (v : V) (order : List ℕ) (m : List (ℕ × V))
      → Queued order m
      → Queued (if contains_key k m then order else order ++ (k ∷ [])) (insert k v m)
  unfolding contains_key member
  Queued-insert k v order m q j h = elim (Bool-cases (contains_key k m)) [
    | inl old ↦
        let gone : lookup j m ≡ none = q j (rw old at h) in
        ground (arith, lookup-insert k j v m, gone)
    | inr fresh ↦
        let out : member j (order ++ (k ∷ [])) ≡ false = rw fresh at h in
        ground (arith, lookup-insert k j v m, member-append_one k j order, q j)
  ]

  -- What is left was there.
  lookup-expire :
      (stored : V → ℕ) (now age k : ℕ) (x : V) (order : List ℕ) (m : List (ℕ × V))
      → lookup k (expire stored now age order m).1 ≡ some x
      → lookup k m ≡ some x
  unfolding expire
  lookup-expire stored now age k x [] m h = h
  lookup-expire stored now age k x (oldest ∷ order) m h =
      go _ h (lookup-expire stored now age k x order (remove oldest m))
    where
      go :
          (expired : Bool)
          → lookup k
              (if expired
                then expire stored now age order (remove oldest m)
                else (oldest ∷ order, m)).1
            ≡ some x
          → (lookup k (expire stored now age order (remove oldest m)).1 ≡ some x
              → lookup k (remove oldest m) ≡ some x)
          → lookup k m ≡ some x
      go true found earlier = ground (arith, lookup-remove oldest k m, earlier found)
      go false found earlier = found

-- Storing a packet keeps the cache within its limits: at most `max_packets` packets, and each of
-- them waits in the queue that the limits are enforced by.
pub insert_packet-IsCache :
    (now s : ℕ) (fragments : List CachedFragment) (c : RepairCache)
    → IsCache c
    → IsCache (insert_packet now s fragments c)
unfolding insert_packet store expire_locked enforce_limit_locked
insert_packet-IsCache now s [] c v = v
insert_packet-IsCache now s (f ∷ fs) c v =
    let (live, fewer) =
      expire-Queued (λ (p : CachedPacket). p.stored_at) now c.ttl c.order c.packets
        v.packets_queued in
    let (queued, bounded) = enforce-Queued c.max_packets _ _ (Queued-insert s _ _ _ live) in
    record {
      packets_queued = queued;
      requests_queued = v.requests_queued;
      packets_bounded = bounded;
      requests_bounded = v.requests_bounded;
    }

live-IsCache :
    (now : ℕ) (c : RepairCache)
    → IsCache c
    → IsCache (expire_recent_requests_locked now (expire_locked now c))
unfolding expire_recent_requests_locked expire_locked
live-IsCache now c v =
    let (packets, fewer) =
      expire-Queued (λ (p : CachedPacket). p.stored_at) now c.ttl c.order c.packets
        v.packets_queued in
    let (requests, fewer_requests) =
      expire-Queued (λ (last : ℕ). last) now repair_request_dedup_window c.request_order
        c.recent_requests v.requests_queued in
    record {
      packets_queued = packets;
      requests_queued = requests;
      packets_bounded = omega (arith, v.packets_bounded);
      requests_bounded = omega (arith, v.requests_bounded);
    }

noted-IsCache :
    (now key : ℕ) (c : RepairCache)
    → IsCache c
    → IsCache (enforce_recent_request_limit_locked (note_request now key c))
unfolding enforce_recent_request_limit_locked
noted-IsCache now key c v =
    let (queued, bounded) =
      enforce-Queued (max (min (c.max_packets * 4) (2 ^ 64 - 1)) 1) _ _
        (Queued-insert key now c.request_order c.recent_requests v.requests_queued) in
    record {
      packets_queued = v.packets_queued;
      requests_queued = queued;
      packets_bounded = v.packets_bounded;
      requests_bounded = omega (arith, bounded);
    }

still_cached :
    (now k : ℕ) (packet : CachedPacket) (c : RepairCache)
    → lookup k (expire_recent_requests_locked now (expire_locked now c)).packets ≡ some packet
    → lookup k c.packets ≡ some packet
unfolding expire_recent_requests_locked expire_locked
still_cached now k packet c h =
    lookup-expire (λ (p : CachedPacket). p.stored_at) now c.ttl k packet c.order c.packets h

-- A repair request keeps the cache within its limits: at most `max_packets` packets and four times
-- as many remembered requests, or one. The answer is nothing, or what the mask of the request
-- selects of the packet that the cache held under its sequence.
pub fragments_for-IsCache :
    (now : ℕ) (request : RepairRequest) (c : RepairCache)
    → IsCache c
    → IsCache (fragments_for now request c).0
      × (((fragments_for now request c).1 ≡ [])
          ⊎ ((packet : CachedPacket) × (lookup request.sequence c.packets ≡ some packet)
              × ((fragments_for now request c).1
                  ≡ requested request.missing_mask packet.fragments)))
unfolding fragments_for
fragments_for-IsCache now request c v =
    let live : RepairCache = expire_recent_requests_locked now (expire_locked now c) in
    let key : ℕ = request_key request in
    elim (Option-cases (lookup request.sequence live.packets)) [
      | inl gone ↦ rw (gone, fragments_for) (live-IsCache now c v, inl refl)
      | inr (packet, e) ↦ elim (Bool-cases (is_recent now (lookup key live.recent_requests))) [
        | inl recent ↦ rw (e, recent, fragments_for) (live-IsCache now c v, inl refl)
        | inr fresh ↦
            rw (e, fresh, fragments_for)
              (
                noted-IsCache now key live (live-IsCache now c v),
                inr (packet, still_cached now request.sequence packet c e, refl),
              )
      ]
    ]
