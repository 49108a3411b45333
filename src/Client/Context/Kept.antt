-- ===== src/Client/Context/Kept.antt =====
-- What `ClientCtx` of crates/client/src/context.rs keeps over the reports of a session.
use irohsion.Prelude.{
  ℕ, suc, ◌≤◌, ◌≡◌, refl, ap, ◌∙◌, ◌==◌, ltb, ltb→le, arith, false, ◌||◌, List, [], ◌∷◌, ◌++◌,
  Option, none, some, length, max, Bool-cases, inl, inr,
}
use irohsion.Transport.Report.{Float32, ChatMessage, HealthReport}
use irohsion.Client.Context.{
  max_chat_messages, has_id, add_messages, trim_front, record_chat_messages, ClientCtx, is_before,
  record_health_report, record_all,
}

-- No two messages have the same identifier.
abbrev pub DistinctIds : List ChatMessage → Type 0
DistinctIds [] = Unit {0}
DistinctIds (m ∷ ms) = (has_id m.id ms ≡ false) × DistinctIds ms

has_id-append_one :
    (id : ℕ) (m : ChatMessage) (ms : List ChatMessage)
    → has_id id (ms ++ (m ∷ [])) ≡ (has_id id ms || m.id == id)
unfolding has_id
has_id-append_one id m [] = ground arith
has_id-append_one id m (n ∷ ns) = ground (arith, has_id-append_one id m ns)

DistinctIds-append_one :
    (m : ChatMessage) (ms : List ChatMessage)
    → has_id m.id ms ≡ false
    → DistinctIds ms
    → DistinctIds (ms ++ (m ∷ []))
unfolding has_id
DistinctIds-append_one m [] h d = (refl, tt)
DistinctIds-append_one m (n ∷ ns) h d =
    (ground (arith, has_id-append_one n.id m ns), DistinctIds-append_one m ns (ground arith) d.1)

add_messages-DistinctIds :
    (ms stored : List ChatMessage) → DistinctIds stored → DistinctIds (add_messages ms stored)
unfolding add_messages
add_messages-DistinctIds [] stored d = d
add_messages-DistinctIds (m ∷ ms) stored d = elim (Bool-cases (has_id m.id stored)) [
  | inl old ↦ rw old (add_messages-DistinctIds ms stored d)
  | inr fresh ↦
      rw fresh
        (add_messages-DistinctIds ms (stored ++ (m ∷ [])) (DistinctIds-append_one m stored fresh d))
]

trim_front-DistinctIds :
    (ms : List ChatMessage)
    → DistinctIds ms
    → DistinctIds (trim_front ms) × (length (trim_front ms) ≤ max_chat_messages)
unfolding trim_front
trim_front-DistinctIds [] d = (tt, omega arith)
trim_front-DistinctIds (m ∷ ms) d = elim (Bool-cases (ltb max_chat_messages (suc (length ms)))) [
  | inl long ↦ rw long (trim_front-DistinctIds ms d.1)
  | inr fits ↦ rw fits (d, ltb→le max_chat_messages (suc (length ms)) fits)
]

abbrev pub IsKept : List ChatMessage → Type 0
IsKept ms = DistinctIds ms × (length ms ≤ max_chat_messages)

record_chat_messages-IsKept :
    (ms stored : List ChatMessage) → IsKept stored → IsKept (record_chat_messages ms stored)
unfolding record_chat_messages
record_chat_messages-IsKept [] stored k = k
record_chat_messages-IsKept (m ∷ ms) stored k =
    trim_front-DistinctIds (add_messages (m ∷ ms) stored)
      (add_messages-DistinctIds (m ∷ ms) stored k.0)

-- The latest of the times that a report has.
abbrev later : ℕ → Option ℕ → ℕ
later t none = t
later t (some u) = max t u

module _ (float : Float32) (F : Type 0) (two_decimals : float.F → List ℕ)
    (warning : ℕ → ℕ → List ℕ) where
  abbrev Ctx : Type 0
  Ctx = ClientCtx float F two_decimals warning

  abbrev pub latest : Option ℕ → List (ℕ × HealthReport float) → Option ℕ
  latest t [] = t
  latest t ((now, report) ∷ reports) = latest (some (later report.unix_ms t)) reports

  record_health_report-latest :
      (now : ℕ) (report : HealthReport float) (c : Ctx)
      → IsKept c.chat_messages
      → IsKept (record_health_report float F two_decimals warning now report c).chat_messages
        × ((record_health_report float F two_decimals warning now report c).last_health_unix_ms
            ≡ some (later report.unix_ms c.last_health_unix_ms))
  unfolding record_health_report
  record_health_report-latest now report c k =
      elim (Bool-cases
        (is_before float F two_decimals warning report.unix_ms c.last_health_unix_ms)) [
          | inl stale ↦ rw stale (k, ground arith)
          | inr new ↦
              rw new (record_chat_messages-IsKept report.chat c.chat_messages k, ground arith)
        ]

  -- Whatever reports come, in whatever order, from a state in which it holds: the messages that
  -- are kept differ in their identifiers and are 100 at most. And the time of the last report is
  -- the latest of the times that the reports had, so that a report which comes late never sets it
  -- back.
  pub record_all-latest :
      (reports : List (ℕ × HealthReport float)) (c : Ctx)
      → IsKept c.chat_messages
      → IsKept (record_all float F two_decimals warning reports c).chat_messages
        × ((record_all float F two_decimals warning reports c).last_health_unix_ms
            ≡ latest c.last_health_unix_ms reports)
  unfolding record_all
  record_all-latest [] c k = (k, refl)
  record_all-latest ((now, report) ∷ reports) c k =
      let next : Ctx = record_health_report float F two_decimals warning now report c in
      let (kept, time) = record_health_report-latest now report c k in
      let (all_kept, last) = record_all-latest reports next kept in
      (all_kept, last ∙ ap (λ t. latest t reports) time)
