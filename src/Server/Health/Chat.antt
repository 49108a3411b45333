-- ===== src/Server/Health/Chat.antt =====
-- The chat messages of a report of crates/server/src/health.rs.
use irohsion.Prelude.{
  ℕ, ◌+◌, ◌-◌, ◌≡◌, refl, ◌==◌, if◌then◌else◌, ltb, arith, Bool, true, false, List, [], ◌∷◌, ◌++◌,
  map, Option, length, min, sym, ◌∙◌, All, Bool-cases, inl, inr,
}
use irohsion.Transport.Report.{ChatMessage}
use irohsion.Server.Health.{
  is_after, insert_message, sort_messages, drop_first, recent_chat_messages, max_chat_messages,
  messages_of, from_twitch, from_kick,
}

-- Every message comes no later than those behind it.
abbrev NotAfter : ChatMessage → ChatMessage → Type 0
NotAfter m n = is_after m n ≡ false

unfoldable pub IsSorted : List ChatMessage → Type 0
IsSorted [] = Unit {0}
IsSorted (m ∷ ms) = All (NotAfter m) ms × IsSorted ms

NotAfter-NotAfter : (a b c : ChatMessage) → NotAfter a b → NotAfter b c → NotAfter a c
NotAfter-NotAfter a b c h k = ground arith

NotAfter-flip : (a b : ChatMessage) → is_after a b ≡ true → NotAfter b a
NotAfter-flip a b h = ground arith

All-NotAfter :
    (a b : ChatMessage) (ms : List ChatMessage)
    → NotAfter a b
    → All (NotAfter b) ms
    → All (NotAfter a) ms
All-NotAfter a b [] h k = tt
All-NotAfter a b (m ∷ ms) h k = (NotAfter-NotAfter a b m h k.0, All-NotAfter a b ms h k.1)

insert_message-All :
    (P : ChatMessage → Type 0) (m : ChatMessage) (ms : List ChatMessage)
    → P m
    → All P ms
    → All P (insert_message m ms)
unfolding insert_message
insert_message-All P m [] h k = (h, tt)
insert_message-All P m (n ∷ ns) h k = elim (Bool-cases (is_after m n)) [
  | inl e ↦ rw e (k.0, insert_message-All P m ns h k.1)
  | inr e ↦ rw e (h, k)
]

insert_message-IsSorted :
    (m : ChatMessage) (ms : List ChatMessage) → IsSorted ms → IsSorted (insert_message m ms)
unfolding insert_message IsSorted
insert_message-IsSorted m [] h = (tt, tt)
insert_message-IsSorted m (n ∷ ns) h = elim (Bool-cases (is_after m n)) [
  | inl e ↦ rw e (
    insert_message-All (NotAfter n) m ns (NotAfter-flip m n e) h.0,
    insert_message-IsSorted m ns h.1,
  )
  | inr e ↦ rw e ((e, All-NotAfter m n ns e h.0), h)
]

sort_messages-IsSorted : (ms : List ChatMessage) → IsSorted (sort_messages ms)
unfolding sort_messages IsSorted
sort_messages-IsSorted [] = tt
sort_messages-IsSorted (m ∷ ms) =
    insert_message-IsSorted m (sort_messages ms) (sort_messages-IsSorted ms)

unfoldable pub count : (ChatMessage → Bool) → List ChatMessage → ℕ
count p [] = 0
count p (m ∷ ms) = (if p m then 1 else 0) + count p ms

count-append :
    (p : ChatMessage → Bool) (xs ys : List ChatMessage)
    → count p (xs ++ ys) ≡ count p xs + count p ys
unfolding count
count-append p [] ys = omega arith
count-append p (x ∷ xs) ys = omega (arith, count-append p xs ys)

count-insert_message :
    (p : ChatMessage → Bool) (m : ChatMessage) (ms : List ChatMessage)
    → count p (insert_message m ms) ≡ (if p m then 1 else 0) + count p ms
unfolding count insert_message
count-insert_message p m [] = refl
count-insert_message p m (n ∷ ns) = elim (Bool-cases (is_after m n)) [
  | inl e ↦ rw e (omega (arith, count-insert_message p m ns))
  | inr e ↦ rw e refl
]

count-sort_messages :
    (p : ChatMessage → Bool) (ms : List ChatMessage) → count p (sort_messages ms) ≡ count p ms
unfolding count sort_messages
count-sort_messages p [] = refl
count-sort_messages p (m ∷ ms) =
    omega (arith, count-insert_message p m (sort_messages ms), count-sort_messages p ms)

length-count : (ms : List ChatMessage) → length ms ≡ count (λ m. true) ms
unfolding count
length-count [] = refl
length-count (m ∷ ms) = omega (arith, length-count ms)

unfoldable pub take_first : ℕ → List ChatMessage → List ChatMessage
take_first count [] = []
take_first count (m ∷ ms) =
    let rest = take_first (count - 1) ms in if count == 0 then [] else m ∷ rest

take_first-drop_first : (n : ℕ) (ms : List ChatMessage) → take_first n ms ++ drop_first n ms ≡ ms
unfolding take_first drop_first
take_first-drop_first n [] = refl
take_first-drop_first n (m ∷ ms) = elim (Bool-cases (n == 0)) [
  | inl e ↦ rw e refl
  | inr e ↦ rw (e, take_first-drop_first (n - 1) ms) refl
]

length-drop_first : (n : ℕ) (ms : List ChatMessage) → length (drop_first n ms) ≡ length ms - n
unfolding drop_first
length-drop_first n [] = omega arith
length-drop_first n (m ∷ ms) = ground (arith, length-drop_first (n - 1) ms)

-- Each message of the one list comes no later than those of the other.
abbrev pub Before : List ChatMessage → List ChatMessage → Type 0
Before older newer = All (λ m. All (NotAfter m) newer) older

split-IsSorted : (xs ys : List ChatMessage) → IsSorted (xs ++ ys) → Before xs ys × IsSorted ys
unfolding IsSorted
split-IsSorted [] ys h = (tt, h)
split-IsSorted (x ∷ xs) ys h =
    let (before, sorted) = split-IsSorted xs ys h.1 in ((behind xs h.0, before), sorted)
  where
    behind : (zs : List ChatMessage) → All (NotAfter x) (zs ++ ys) → All (NotAfter x) ys
    behind [] k = k
    behind (z ∷ zs) k = behind zs k.1

-- The messages of both sources, with the identifiers that tell the sources apart.
abbrev pub offered : Option (List ChatMessage) → Option (List ChatMessage) → List ChatMessage
offered twitch kick = map from_twitch (messages_of twitch) ++ map from_kick (messages_of kick)

-- A report carries the newest messages of the two sources, three at most, in the order of their times:
-- what it leaves out comes no later, and together these are the messages that the sources have, each
-- as often.
pub recent_chat_messages-Newest :
    (twitch kick : Option (List ChatMessage))
    → let recent = recent_chat_messages twitch kick in
      (older : List ChatMessage) × (length recent ≡ min 3 (length (offered twitch kick)))
      × IsSorted recent
      × Before older recent
      × ((p : ChatMessage → Bool) → count p older + count p recent ≡ count p (offered twitch kick))
unfolding recent_chat_messages
recent_chat_messages-Newest twitch kick =
    let messages : List ChatMessage = sort_messages (offered twitch kick) in
    let sorted = sort_messages-IsSorted (offered twitch kick) in
    let same = count-sort_messages (λ m. true) (offered twitch kick) in
    let total : length messages ≡ length (offered twitch kick) =
      omega (arith, length-count messages, length-count (offered twitch kick), same) in
    elim (Bool-cases (ltb max_chat_messages (length messages))) [
      | inl more ↦
          let n : ℕ = length messages - max_chat_messages in
          let both = take_first-drop_first n messages in
          let (before, rest) =
            split-IsSorted (take_first n messages) (drop_first n messages) (rw both sorted) in
          rw more (
            take_first n messages,
            ground (arith, length-drop_first n messages, total),
            rest,
            before,
            λ p.
                sym (count-append p (take_first n messages) (drop_first n messages))
                ∙ rw both (count-sort_messages p (offered twitch kick)),
          )
      | inr few ↦ rw few (
        [],
        ground (arith, total),
        sorted,
        tt,
        λ p. unfold count in omega (arith, count-sort_messages p (offered twitch kick)),
      )
    ]
