-- ===== src/Server/Health/Sample.antt =====
-- The samples of crates/server/src/health.rs from one report to the next.
use irohsion.Prelude.{
  ℕ, ◌+◌, ◌-◌, ◌^◌, ◌<◌, ◌≡◌, refl, ◌∙◌, if◌then◌else◌, arith, Bool, true, false, List, [], ◌∷◌,
  map, Option, none, some, min, All,
}
use irohsion.Prelude.Bytes.{bytes_eq, bytes_eq→≡}
use irohsion.Prelude.Named.{find, erase, find-put, find-erase}
use irohsion.Transport.Report.{Float32, ChatMessage, EndpointHealth, HealthReport}
use mathlib.Core.Option
use irohsion.Server.Health.{
  RateOps, achieved_rate, recent_chat_messages, EndpointSample, HealthStats, or_no_sample, max_or,
  add_to_sample, record_health_sample, endpoint_of, endpoints_of, build_health_report,
}

-- A packet that arrived: its remote, its payload's length and its sequence.
pub record Receipt : Type 0 where
  pub remote : List ℕ
  pub bytes : ℕ
  pub seq : ℕ

unfoldable pub record_all : List Receipt → HealthStats → HealthStats
record_all [] stats = stats
record_all (r ∷ rs) stats = record_all rs (record_health_sample r.remote r.bytes r.seq stats)

-- The packets of one remote.
unfoldable pub received_from : List ℕ → List Receipt → List Receipt
received_from remote [] = []
received_from remote (r ∷ rs) =
    let rest = received_from remote rs in if bytes_eq r.remote remote then r ∷ rest else rest

unfoldable pub total_bytes : List Receipt → ℕ
total_bytes [] = 0
total_bytes (r ∷ rs) = r.bytes + total_bytes rs

-- The sequence of the last packet, and the largest one.
unfoldable pub last_of : Option ℕ → List Receipt → Option ℕ
last_of before [] = before
last_of before (r ∷ rs) = last_of (some r.seq) rs

unfoldable pub largest_of : Option ℕ → List Receipt → Option ℕ
largest_of before [] = before
largest_of before (r ∷ rs) = largest_of (some (max_or r.seq before)) rs

-- What a sample has become after some packets of its remote.
abbrev after : EndpointSample → List Receipt → EndpointSample
after s rs = record {
  bytes = min (s.bytes + total_bytes rs) (2 ^ 64 - 1);
  last_seq = last_of s.last_seq rs;
  max_seq = largest_of s.max_seq rs;
}

abbrev sample_at : List ℕ → HealthStats → EndpointSample
sample_at remote stats = or_no_sample (find remote stats)

sample_at-record :
    (r : Receipt) (remote : List ℕ) (stats : HealthStats)
    → sample_at remote (record_health_sample r.remote r.bytes r.seq stats) ≡ (
        if bytes_eq r.remote remote
        then add_to_sample r.bytes r.seq (sample_at remote stats)
        else sample_at remote stats)
unfolding record_health_sample
sample_at-record r remote stats =
    rw (find-put r.remote remote (add_to_sample r.bytes r.seq (sample_at r.remote stats)) stats)
      (by_remote (bytes_eq r.remote remote) refl)
  where
    by_remote :
        (b : Bool)
        → bytes_eq r.remote remote ≡ b
        → or_no_sample (
            if b
            then some (add_to_sample r.bytes r.seq (sample_at r.remote stats))
            else find remote stats)
          ≡ (if b
              then add_to_sample r.bytes r.seq (sample_at remote stats)
              else sample_at remote stats)
    by_remote true same = rw (bytes_eq→≡ r.remote remote same) refl
    by_remote false different = refl

after-cons :
    (s : EndpointSample) (r : Receipt) (rs : List Receipt)
    → after (add_to_sample r.bytes r.seq s) rs ≡ after s (r ∷ rs)
unfolding total_bytes last_of largest_of
after-cons s r rs = ground arith

record_all-after :
    (rs : List Receipt) (remote : List ℕ) (stats : HealthStats)
    → (sample_at remote stats).bytes < 2 ^ 64
    → sample_at remote (record_all rs stats)
      ≡ after (sample_at remote stats) (received_from remote rs)
unfolding record_all received_from total_bytes last_of largest_of
record_all-after [] remote stats h = ground arith
record_all-after (r ∷ rs) remote stats h =
    let stats' : HealthStats = record_health_sample r.remote r.bytes r.seq stats in
    let bound : (sample_at remote stats').bytes < 2 ^ 64 =
      rw (sample_at-record r remote stats) (fits (bytes_eq r.remote remote)) in
    record_all-after rs remote stats' bound
    ∙ rw (sample_at-record r remote stats) (by_remote (bytes_eq r.remote remote))
  where
    s : EndpointSample
    s = sample_at remote stats

    fits : (b : Bool) → (if b then add_to_sample r.bytes r.seq s else s).bytes < 2 ^ 64
    fits true = omega arith
    fits false = h

    by_remote :
        (b : Bool)
        → after (if b then add_to_sample r.bytes r.seq s else s) (received_from remote rs)
          ≡ after s (if b then r ∷ received_from remote rs else received_from remote rs)
    by_remote true = after-cons s r (received_from remote rs)
    by_remote false = refl

-- The keys of a map are different.
unfoldable pub AreDistinct : List (List ℕ × ℕ) → Type 0
AreDistinct [] = Unit {0}
AreDistinct (c ∷ cs) = All (λ d. bytes_eq c.0 d.0 ≡ false) cs × AreDistinct cs

module _ (float : Float32) (ops : RateOps float) (interval : ℕ) where
  abbrev Agrees : HealthStats → HealthStats → List ℕ × ℕ → Type 0
  Agrees stats others c = find c.0 stats ≡ find c.0 others

  Agrees-erase :
      (k : List ℕ) (cs : List (List ℕ × ℕ)) (stats others : HealthStats)
      → All (Agrees stats others) cs
      → All (Agrees (erase k stats) (erase k others)) cs
  Agrees-erase k [] stats others h = tt
  Agrees-erase k (c ∷ cs) stats others h = (
    rw (find-erase k c.0 stats, find-erase k c.0 others, h.0) refl,
    Agrees-erase k cs stats others h.1,
  )

  Agrees-other :
      (k : List ℕ) (cs : List (List ℕ × ℕ)) (stats : HealthStats)
      → All (λ d. bytes_eq k d.0 ≡ false) cs
      → All (Agrees (erase k stats) stats) cs
  Agrees-other k [] stats h = tt
  Agrees-other k (c ∷ cs) stats h =
      (find-erase k c.0 stats ∙ rw h.0 refl, Agrees-other k cs stats h.1)

  endpoints_of-Agrees :
      (cs : List (List ℕ × ℕ)) (stats others : HealthStats)
      → All (Agrees stats others) cs
      → endpoints_of float ops interval cs stats ≡ endpoints_of float ops interval cs others
  unfolding endpoints_of
  endpoints_of-Agrees [] stats others h = refl
  endpoints_of-Agrees (c ∷ cs) stats others h =
      rw
        (
          h.0,
          endpoints_of-Agrees cs (erase c.0 stats) (erase c.0 others)
              (Agrees-erase c.0 cs stats others h.1),
        )
        refl

  endpoints_of-map :
      (cs : List (List ℕ × ℕ)) (stats : HealthStats)
      → AreDistinct cs
      → endpoints_of float ops interval cs stats
        ≡ map (λ c. endpoint_of float ops interval c.0 (find c.0 stats)) cs
  unfolding endpoints_of AreDistinct
  endpoints_of-map [] stats d = refl
  endpoints_of-map (c ∷ cs) stats d =
      rw
        (
          endpoints_of-Agrees cs (erase c.0 stats) stats (Agrees-other c.0 cs stats d.0),
          endpoints_of-map cs stats d.1,
        )
        refl

  -- What is reported of a client.
  abbrev pub summary : List Receipt → List ℕ → EndpointHealth float
  summary rs endpoint_id = record {
    endpoint_id = endpoint_id;
    achieved_mbps =
        achieved_rate float ops interval
          (min (total_bytes (received_from endpoint_id rs)) (2 ^ 64 - 1));
    last_seq = last_of none (received_from endpoint_id rs);
    max_seq = largest_of none (received_from endpoint_id rs);
  }

  endpoint_of-summary :
      (rs : List Receipt) (k : List ℕ)
      → endpoint_of float ops interval k (find k (record_all rs [])) ≡ summary rs k
  unfolding find
  endpoint_of-summary rs k = rw (record_all-after rs k [] (omega arith)) (rw (zero_plus) refl)
    where
      zero_plus : 0 + total_bytes (received_from k rs) ≡ total_bytes (received_from k rs)
      zero_plus = omega arith

  map-summary :
      (rs : List Receipt) (cs : List (List ℕ × ℕ))
      → map (λ c. endpoint_of float ops interval c.0 (find c.0 (record_all rs []))) cs
        ≡ map (λ c. summary rs c.0) cs
  map-summary rs [] = refl
  map-summary rs (c ∷ cs) = rw (endpoint_of-summary rs c.0, map-summary rs cs) refl

  abbrev pub report_of :
      List Receipt
      → List (List ℕ × ℕ)
      → ℕ
      → Option (List ChatMessage)
      → Option (List ChatMessage)
      → ℕ
      → HealthReport float
  report_of rs cs seq twitch kick now = record {
    seq = seq;
    unix_ms = now;
    endpoints = map (λ c. summary rs c.0) cs;
    chat = recent_chat_messages twitch kick;
  }

  -- The report of an interval names each connected client once, in order: with the rate of the bytes
  -- that came from it in the interval, the sequence of its last packet and the largest one, none if
  -- nothing came; its sequence, its time and its messages are the ones given. Without a time there
  -- is no report. In both cases the count starts anew, also for clients that the report leaves out.
  pub build_health_report-record_all :
      (rs : List Receipt) (cs : List (List ℕ × ℕ)) (seq : ℕ) (unix_ms : Option ℕ)
      (twitch kick : Option (List ChatMessage))
      → AreDistinct cs
      → let (report, stats) =
          build_health_report float ops interval seq unix_ms (record_all rs []) cs twitch kick in
        (report ≡ Option.map (report_of rs cs seq twitch kick) unix_ms) × (stats ≡ [])
  unfolding build_health_report
  build_health_report-record_all rs cs seq none twitch kick d = (refl, refl)
  build_health_report-record_all rs cs seq (some now) twitch kick d =
      (rw (endpoints_of-map cs (record_all rs []) d ∙ map-summary rs cs) refl, refl)
