-- ===== src/Client/RepairCache.antt =====
-- `RepairCache` of crates/client/src/main.rs: the packets kept for the server's repair requests.
-- An instant is a number of nanoseconds. `request_key` stands for the pair of a sequence and a mask
-- of eight bits, in the order of the pairs.
pub mod Limits
use irohsion.Prelude.{
  ℕ, zero, suc, ◌+◌, ◌*◌, ◌^◌, ◌-◌, ◌/◌, ◌%◌, ◌==◌, if◌then◌else◌, ltb, leb, Bool, true, false, not,
  List, [], ◌∷◌, ◌++◌, Option, none, some, length, max, min, bit_and,
}
use irohsion.Prelude.Map.{lookup, insert, remove, contains_key}
use irohsion.Protocol.{RepairRequest}

abbrev pub repair_request_dedup_window : ℕ
repair_request_dedup_window = 10000000

pub record CachedFragment : Type 0 where
  pub packet : List ℕ
  pub payload_len : ℕ

pub record CachedPacket : Type 0 where
  pub fragments : List CachedFragment
  pub stored_at : ℕ

pub record RepairCache : Type 0 where
  pub ttl : ℕ
  pub max_packets : ℕ
  pub packets : List (ℕ × CachedPacket)
  pub order : List ℕ
  pub recent_requests : List (ℕ × ℕ)
  pub request_order : List ℕ

abbrev pub new : ℕ → ℕ → RepairCache
new ttl max_packets = record {
  ttl = ttl;
  max_packets = max_packets;
  packets = [];
  order = [];
  recent_requests = [];
  request_order = [];
}

abbrev pub request_key : RepairRequest → ℕ
request_key request = request.sequence * 256 + request.missing_mask

-- `expire_locked` and `expire_recent_requests_locked`: the oldest entries go, as long as they are
-- gone from the map already or `age` old.
unfoldable pub expire {ℓ} :
    {V : Type ℓ} → (V → ℕ) → ℕ → ℕ → List ℕ → List (ℕ × V) → List ℕ × List (ℕ × V)
expire stored now age [] m = ([], m)
expire stored now age (oldest ∷ order) m =
    let expired : Bool = elim (lookup oldest m) [
      | none ↦ true
      | some v ↦ leb age (now - stored v)
    ] in
    let rest = expire stored now age order (remove oldest m) in
    if expired then rest else (oldest ∷ order, m)

-- `enforce_limit_locked` and `enforce_recent_request_limit_locked`.
unfoldable pub enforce {ℓ} : {V : Type ℓ} → ℕ → List ℕ → List (ℕ × V) → List ℕ × List (ℕ × V)
enforce limit [] m = ([], m)
enforce limit (oldest ∷ order) m =
    let rest = enforce limit order (remove oldest m) in
    if ltb limit (length m) then rest else (oldest ∷ order, m)

unfoldable pub expire_locked : ℕ → RepairCache → RepairCache
unfolding expire
expire_locked now c =
    let r = expire (λ (p : CachedPacket). p.stored_at) now c.ttl c.order c.packets in
    record c { order = r.0; packets = r.1 }

unfoldable pub enforce_limit_locked : RepairCache → RepairCache
unfolding enforce
enforce_limit_locked c =
    let r = enforce c.max_packets c.order c.packets in record c { order = r.0; packets = r.1 }

unfoldable pub expire_recent_requests_locked : ℕ → RepairCache → RepairCache
unfolding expire
expire_recent_requests_locked now c =
    let r =
      expire (λ (last : ℕ). last) now repair_request_dedup_window c.request_order
        c.recent_requests in
    record c { request_order = r.0; recent_requests = r.1 }

unfoldable pub enforce_recent_request_limit_locked : RepairCache → RepairCache
unfolding enforce
enforce_recent_request_limit_locked c =
    let r =
      enforce (max (min (c.max_packets * 4) (2 ^ 64 - 1)) 1) c.request_order c.recent_requests in
    record c { request_order = r.0; recent_requests = r.1 }

-- What `insert` does with a packet of at least one fragment.
unfoldable pub store : ℕ → ℕ → List CachedFragment → RepairCache → RepairCache
unfolding expire_locked enforce_limit_locked
store now sequence fragments c =
    let live = expire_locked now c in
    enforce_limit_locked (record live {
      order =
          if contains_key sequence live.packets then live.order else live.order ++ (sequence ∷ []);
      packets = insert sequence (record { fragments = fragments; stored_at = now }) live.packets;
    })

unfoldable pub insert_packet : ℕ → ℕ → List CachedFragment → RepairCache → RepairCache
unfolding store
insert_packet now sequence [] c = c
insert_packet now sequence (f ∷ fs) c = store now sequence (f ∷ fs) c

-- The fragments from `index` on whose bit is set; `1_u8 << index` is a `u8`.
unfoldable pub select : ℕ → ℕ → List CachedFragment → List CachedFragment
select mask index [] = []
select mask index (f ∷ fs) =
    let rest = select mask (index + 1) fs in
    if bit_and mask (2 ^ index % 256) == 0 then rest else f ∷ rest

-- A packet of one fragment is sent whatever the mask.
unfoldable pub requested : ℕ → List CachedFragment → List CachedFragment
unfolding select
requested mask (f ∷ []) = f ∷ []
requested mask fragments = select mask 0 fragments

abbrev pub is_recent : ℕ → Option ℕ → Bool
is_recent now none = false
is_recent now (some last) = ltb (now - last) repair_request_dedup_window

abbrev pub note_request : ℕ → ℕ → RepairCache → RepairCache
note_request now key c = record c {
  request_order =
      if contains_key key c.recent_requests then c.request_order else c.request_order ++ (key ∷ []);
  recent_requests = insert key now c.recent_requests;
}

unfoldable pub fragments_for : ℕ → RepairRequest → RepairCache → RepairCache × List CachedFragment
unfolding expire_locked expire_recent_requests_locked enforce_recent_request_limit_locked requested
fragments_for now request c =
    let live = expire_recent_requests_locked now (expire_locked now c) in
    let key = request_key request in
    elim (lookup request.sequence live.packets) [
      | none ↦ (live, [])
      | some packet ↦ if is_recent now (lookup key live.recent_requests) then (live, []) else (
        enforce_recent_request_limit_locked (note_request now key live),
        requested request.missing_mask packet.fragments,
      )
    ]
