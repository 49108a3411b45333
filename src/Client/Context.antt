-- ===== src/Client/Context.antt =====
-- `ClientCtx` of crates/client/src/context.rs: what the client keeps of the server's reports. Without a
-- terminal its lines are printed, which is left out; `warning` makes the line of a stale report.
pub mod Kept
use irohsion.Prelude.{
  ℕ, ◌-◌, ◌==◌, if◌then◌else◌, ltb, Bool, true, false, ◌||◌, List, [], ◌∷◌, ◌++◌, map, Option, none,
  some, length, drop,
}
use irohsion.Transport.Report.{Float32, ChatMessage, HealthReport}
use irohsion.Client.Ui.{
  ClientUiState, record_health_received, record_endpoint_health, push_log_line,
}

abbrev pub max_chat_messages : ℕ
max_chat_messages = 100

unfoldable pub has_id : ℕ → List ChatMessage → Bool
has_id id [] = false
has_id id (m ∷ ms) = m.id == id || has_id id ms

-- The loop over the messages of a report.
unfoldable pub add_messages : List ChatMessage → List ChatMessage → List ChatMessage
unfolding has_id
add_messages [] stored = stored
add_messages (m ∷ ms) stored =
    let longer = add_messages ms (stored ++ (m ∷ [])) in
    let same = add_messages ms stored in if has_id m.id stored then same else longer

-- `while stored.len() > MAX_CHAT_MESSAGES { stored.pop_front(); }`
unfoldable pub trim_front : List ChatMessage → List ChatMessage
trim_front [] = []
trim_front (m ∷ ms) =
    let rest = trim_front ms in if ltb max_chat_messages (length (m ∷ ms)) then rest else m ∷ ms

unfoldable pub record_chat_messages : List ChatMessage → List ChatMessage → List ChatMessage
unfolding add_messages trim_front
record_chat_messages [] stored = stored
record_chat_messages (m ∷ ms) stored = trim_front (add_messages (m ∷ ms) stored)

module _ (float : Float32) (F : Type 0) (two_decimals : float.F → List ℕ)
    (warning : ℕ → ℕ → List ℕ) where
  pub record ClientCtx : Type 0 where
    pub ui : Option (ClientUiState float F two_decimals)
    pub last_health_unix_ms : Option ℕ
    pub chat_messages : List ChatMessage

  abbrev pub is_before : ℕ → Option ℕ → Bool
  is_before unix_ms none = false
  is_before unix_ms (some current) = ltb unix_ms current

  abbrev pub or_none_before : Option ℕ → ℕ
  or_none_before none = 0
  or_none_before (some current) = current

  -- What the terminal gets of a report.
  abbrev pub show_report :
      ℕ
      → HealthReport float
      → Option (ClientUiState float F two_decimals)
      → Option (ClientUiState float F two_decimals)
  show_report now report none = none
  show_report now report (some u) = some (
      record_endpoint_health float F two_decimals now report.endpoints
        (record_health_received float F two_decimals now u))

  abbrev pub show_line :
      List ℕ
      → Option (ClientUiState float F two_decimals)
      → Option (ClientUiState float F two_decimals)
  show_line line none = none
  show_line line (some u) = some (push_log_line float F two_decimals line u)

  unfoldable pub record_health_report : ℕ → HealthReport float → ClientCtx → ClientCtx
  unfolding record_chat_messages record_endpoint_health push_log_line
  record_health_report now report c =
      if is_before report.unix_ms c.last_health_unix_ms
      then record c {
        ui = show_line (warning report.unix_ms (or_none_before c.last_health_unix_ms)) c.ui;
      }
      else record {
        ui = show_report now report c.ui;
        last_health_unix_ms = some report.unix_ms;
        chat_messages = record_chat_messages report.chat c.chat_messages;
      }

  -- The reports of the server, each with the time when it comes.
  unfoldable pub record_all : List (ℕ × HealthReport float) → ClientCtx → ClientCtx
  unfolding record_health_report
  record_all [] c = c
  record_all ((now, report) ∷ reports) c = record_all reports (record_health_report now report c)
