-- ===== src/Chat.antt =====
-- The buffer of chat messages of crates/twitch-remote/src/lib.rs, which crates/kick-remote/src/lib.rs
-- has as well: the newest messages, at most `max_messages` of them.
use irohsion.Prelude.{
  ℕ, ◌+◌, ◌-◌, ◌%◌, ◌^◌, ◌≤◌, ◌<◌, ◌≡◌, refl, ◌==◌, if◌then◌else◌, ltb, arith, List, [], ◌∷◌, ◌++◌,
  length, Bool-cases, inl, inr,
}
use irohsion.Transport.Report.{ChatMessage}

pub record TwitchChat : Type 0 where
  pub messages : List ChatMessage
  pub next_id : ℕ
  pub max_messages : ℕ

abbrev pub new : ℕ → TwitchChat
new max_messages = record { messages = []; next_id = 1; max_messages = max_messages }

abbrev pub recent_messages : TwitchChat → List ChatMessage
recent_messages chat = chat.messages

-- `pop_front` as long as there are too many.
unfoldable pub pop_oldest : ℕ → List ChatMessage → List ChatMessage
pop_oldest limit [] = []
pop_oldest limit (m ∷ ms) =
    let rest = pop_oldest limit ms in if ltb limit (length (m ∷ ms)) then rest else m ∷ ms

unfoldable pub push : ℕ → List ℕ → List ℕ → TwitchChat → TwitchChat
unfolding pop_oldest
push unix_ms user text chat = record {
  messages = pop_oldest chat.max_messages (
      chat.messages
      ++ (record { id = chat.next_id; unix_ms = unix_ms; user = user; text = text } ∷ []));
  next_id = (chat.next_id + 1) % 2 ^ 64;
  max_messages = chat.max_messages;
}

-- `.filter(…).take(limit)`
unfoldable pub first_after : ℕ → ℕ → List ChatMessage → List ChatMessage
first_after last_id limit [] = []
first_after last_id limit (m ∷ ms) =
    let rest = first_after last_id (limit - 1) ms in
    let others = first_after last_id limit ms in
    if limit == 0 then [] else if ltb last_id m.id then m ∷ rest else others

unfoldable pub messages_after : ℕ → ℕ → TwitchChat → List ChatMessage
unfolding first_after
messages_after last_id limit chat = first_after last_id limit chat.messages

-- The identifiers follow on each other up to the next one.
unfoldable pub Counts : ℕ → List ChatMessage → ℕ → Type 0
Counts from [] to = from ≡ to
Counts from (m ∷ ms) to = (m.id ≡ from) × Counts (from + 1) ms to

abbrev pub IsBuffer : TwitchChat → Type 0
IsBuffer chat =
    (length chat.messages ≤ chat.max_messages)
    × ((from : ℕ) × Counts from chat.messages chat.next_id)

Counts-append_one :
    (from to : ℕ) (ms : List ChatMessage) (m : ChatMessage)
    → Counts from ms to
    → m.id ≡ to
    → Counts from (ms ++ (m ∷ [])) (to + 1)
unfolding Counts
Counts-append_one from to [] m h e = (ground arith, ground arith)
Counts-append_one from to (n ∷ ms) m h e = (h.0, Counts-append_one (from + 1) to ms m h.1 e)

length-pop_oldest : (limit : ℕ) (ms : List ChatMessage) → length (pop_oldest limit ms) ≤ limit
unfolding pop_oldest
length-pop_oldest limit [] = omega arith
length-pop_oldest limit (m ∷ ms) = ground (arith, length-pop_oldest limit ms)

Counts-pop_oldest :
    (limit from to : ℕ) (ms : List ChatMessage)
    → Counts from ms to
    → (start : ℕ) × Counts start (pop_oldest limit ms) to
unfolding pop_oldest Counts
Counts-pop_oldest limit from to [] h = (from, h)
Counts-pop_oldest limit from to (m ∷ ms) h = elim (Bool-cases (ltb limit (length (m ∷ ms)))) [
  | inl more ↦ rw more (Counts-pop_oldest limit (from + 1) to ms h.1)
  | inr few ↦ rw few (from, h)
]

-- A message that is pushed comes last, under the next identifier; the buffer keeps its bound and holds
-- the messages of the last identifiers without a gap, as long as these do not run out.
pub push-IsBuffer :
    (unix_ms : ℕ) (user text : List ℕ) (chat : TwitchChat)
    → chat.next_id + 1 < 2 ^ 64
    → IsBuffer chat
    → IsBuffer (push unix_ms user text chat)
unfolding push
push-IsBuffer unix_ms user text chat small (bound, (from, counts)) =
    let m : ChatMessage = record {
      id = chat.next_id;
      unix_ms = unix_ms;
      user = user;
      text = text;
    } in
    let next : (chat.next_id + 1) % 2 ^ 64 ≡ chat.next_id + 1 = omega arith in
    (
      length-pop_oldest chat.max_messages (chat.messages ++ (m ∷ [])),
      rw next (
          Counts-pop_oldest chat.max_messages from (chat.next_id + 1) (chat.messages ++ (m ∷ []))
            (Counts-append_one from chat.next_id chat.messages m counts refl)),
    )
