-- ===== src/Tests/Context.antt =====
-- What crates/client/src/context.rs keeps of three reports, one of them late.
use irohsion.Prelude.{ℕ, ◌≡◌, List, [], ◌∷◌, none, some, arith}
use irohsion.Transport.Report.{HealthReport}
use irohsion.Client.Context.{ClientCtx, record_all}
use irohsion.Client.Context.Kept.{IsKept, record_all-latest}
use irohsion.Tests.Transport.{thousandths}

abbrev report_at : ℕ → ℕ → HealthReport thousandths
report_at unix_ms id = record {
  seq = 1;
  unix_ms = unix_ms;
  endpoints = [];
  chat = record { id = id; unix_ms = unix_ms; user = 1 ∷ []; text = 2 ∷ [] } ∷ [];
}

abbrev fresh_ctx : ClientCtx thousandths ℕ (λ mbps. mbps ∷ []) (λ time last. [])
fresh_ctx = record { ui = none; last_health_unix_ms = none; chat_messages = [] }

abbrev reports : List (ℕ × HealthReport thousandths)
reports = (1, report_at 50 4) ∷ (2, report_at 40 5) ∷ (3, report_at 60 4) ∷ []

record_all-latest_example :
    IsKept
      (record_all thousandths ℕ
        (λ mbps. mbps ∷ [])
        (λ time last. [])
        reports
        fresh_ctx).chat_messages
    × ((record_all thousandths ℕ
          (λ mbps. mbps ∷ [])
          (λ time last. [])
          reports
          fresh_ctx).last_health_unix_ms
        ≡ some 60)
record_all-latest_example =
    record_all-latest thousandths ℕ (λ mbps. mbps ∷ []) (λ time last. []) reports fresh_ctx
      (tt, omega arith)
