-- ===== src/Server/Health.antt =====
-- What the server reports to its clients, in crates/server/src/health.rs: the samples of the received
-- packets, the newest chat messages, and the rounds of `health_loop`.
pub mod Sample
pub mod Chat
use irohsion.Prelude.{
  ℕ, ◌+◌, ◌*◌, ◌-◌, ◌%◌, ◌^◌, ◌≡◌, ◌==◌, if◌then◌else◌, ltb, leb, Bool, true, false, ◌&&◌, ◌||◌,
  List, [], ◌∷◌, ◌++◌, map, Option, none, some, length, min, max,
}
use irohsion.Prelude.Named.{find, put, erase}
use irohsion.Transport.Report.{Float32, ChatMessage, EndpointHealth, HealthReport}

-- The bytes saturate at 64 bits.
pub record EndpointSample : Type 0 where
  pub bytes : ℕ
  pub last_seq : Option ℕ
  pub max_seq : Option ℕ

abbrev pub no_sample : EndpointSample
no_sample = record { bytes = 0; last_seq = none; max_seq = none }

abbrev pub HealthStats : Type 0
HealthStats = List (List ℕ × EndpointSample)

abbrev pub or_no_sample : Option EndpointSample → EndpointSample
or_no_sample none = no_sample
or_no_sample (some sample) = sample

abbrev pub max_or : ℕ → Option ℕ → ℕ
max_or seq none = seq
max_or seq (some current) = max current seq

abbrev pub add_to_sample : ℕ → ℕ → EndpointSample → EndpointSample
add_to_sample bytes seq sample = record {
  bytes = min (sample.bytes + bytes) (2 ^ 64 - 1);
  last_seq = some seq;
  max_seq = some (max_or seq sample.max_seq);
}

unfoldable pub record_health_sample : List ℕ → ℕ → ℕ → HealthStats → HealthStats
record_health_sample remote bytes seq stats =
    put remote (add_to_sample bytes seq (or_no_sample (find remote stats))) stats

abbrev pub max_chat_messages : ℕ
max_chat_messages = 3

-- The order of `sort_by_key`.
abbrev pub is_after : ChatMessage → ChatMessage → Bool
is_after a b = ltb b.unix_ms a.unix_ms || (a.unix_ms == b.unix_ms && ltb b.id a.id)

-- Before the first message that comes after it.
unfoldable pub insert_message : ChatMessage → List ChatMessage → List ChatMessage
insert_message m [] = m ∷ []
insert_message m (n ∷ ns) =
    let rest = insert_message m ns in if is_after m n then n ∷ rest else m ∷ n ∷ ns

-- A stable sort.
unfoldable pub sort_messages : List ChatMessage → List ChatMessage
unfolding insert_message
sort_messages [] = []
sort_messages (m ∷ ms) = insert_message m (sort_messages ms)

unfoldable pub drop_first : ℕ → List ChatMessage → List ChatMessage
drop_first count [] = []
drop_first count (m ∷ ms) =
    let rest = drop_first (count - 1) ms in if count == 0 then m ∷ ms else rest

-- `id << 1`, and `(id << 1) | 1` for Kick.
abbrev pub from_twitch : ChatMessage → ChatMessage
from_twitch m = record m { id = m.id * 2 % 2 ^ 64 }

abbrev pub from_kick : ChatMessage → ChatMessage
from_kick m = record m { id = m.id * 2 % 2 ^ 64 + 1 }

-- The messages of a source, none if it is not set.
abbrev pub messages_of : Option (List ChatMessage) → List ChatMessage
messages_of none = []
messages_of (some messages) = messages

unfoldable pub recent_chat_messages :
    Option (List ChatMessage) → Option (List ChatMessage) → List ChatMessage
unfolding sort_messages drop_first
recent_chat_messages twitch kick =
    let messages : List ChatMessage =
      sort_messages (map from_twitch (messages_of twitch) ++ map from_kick (messages_of kick)) in
    if ltb max_chat_messages (length messages)
    then drop_first (length messages - max_chat_messages) messages
    else messages

-- What the code does with `f32`: the conversions of a `u64` and of a `Duration` (here in
-- nanoseconds), `*`, `/`, `max`, and the literals 8.0, 0.001 and 1_000_000.0.
pub record RateOps (float : Float32) : Type 0 where
  pub as_f32 : ℕ → float.F
  pub as_secs_f32 : ℕ → float.F
  pub mul_f32 : float.F → float.F → float.F
  pub div_f32 : float.F → float.F → float.F
  pub max_f32 : float.F → float.F → float.F
  pub eight : float.F
  pub thousandth : float.F
  pub million : float.F

module _ (float : Float32) (ops : RateOps float) (interval : ℕ) where
  abbrev pub interval_secs : float.F
  interval_secs = ops.max_f32 (ops.as_secs_f32 interval) ops.thousandth

  -- The rate of so many bytes over the interval.
  abbrev pub achieved_rate : ℕ → float.F
  achieved_rate bytes =
      ops.div_f32 (ops.div_f32 (ops.mul_f32 (ops.as_f32 bytes) ops.eight) interval_secs) ops.million

  abbrev pub endpoint_of : List ℕ → Option EndpointSample → EndpointHealth float
  endpoint_of endpoint_id entry = record {
    endpoint_id = endpoint_id;
    achieved_mbps = achieved_rate (or_no_sample entry).bytes;
    last_seq = (or_no_sample entry).last_seq;
    max_seq = (or_no_sample entry).max_seq;
  }

  -- The loop over the connections.
  unfoldable pub endpoints_of : List (List ℕ × ℕ) → HealthStats → List (EndpointHealth float)
  endpoints_of [] drained = []
  endpoints_of ((endpoint_id, connection) ∷ rest) drained =
      endpoint_of endpoint_id (find endpoint_id drained)
      ∷ endpoints_of rest (erase endpoint_id drained)

  -- The report, and the statistics after it; they are drained also when `unix_ms_now`, whose answer is
  -- `unix_ms`, fails.
  unfoldable pub build_health_report :
      ℕ
      → Option ℕ
      → HealthStats
      → List (List ℕ × ℕ)
      → Option (List ChatMessage)
      → Option (List ChatMessage)
      → Option (HealthReport float) × HealthStats
  unfolding endpoints_of recent_chat_messages
  build_health_report seq unix_ms stats connections twitch kick = (
    elim unix_ms [
      | none ↦ none
      | some now ↦ some (record {
        seq = seq;
        unix_ms = now;
        endpoints = endpoints_of connections stats;
        chat = recent_chat_messages twitch kick;
      })
    ],
    [],
  )
