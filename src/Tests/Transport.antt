-- ===== src/Tests/Transport.antt =====
-- Health reports and paths of crates/transport/src/lib.rs on concrete values.
use irohsion.Prelude.{
  ℕ, ◌<◌, ◌^◌, ◌%◌, ◌≡◌, ◌≢◌, refl, arith, true, false, not, [], ◌∷◌, none, some, ok,
}
use irohsion.Transport.Text.{tab, newline, backslash}
use irohsion.Transport.Decimal.{to_string, parse_u64, parse_u64-to_string}
use irohsion.Transport.Report.{
  Float32, ChatMessage, HealthReport, encode_health_report, decode_health_report,
}
use irohsion.Transport.Report.RoundTrip.{decode-encode_health_report, digits-IsPlain}
use irohsion.Transport.Path.{
  LivePath, PathConnection, is_connected, pending, mark_failed, reconnect, wants_reconnect,
}
use irohsion.Transport.Path.Reconnect.{
  at_first, after, failed, connected, Reach-wants_reconnect, mark_failed-current,
}

pub below_1000 : (x : ℕ) → x % 1000 < 2 ^ 64
below_1000 x = omega arith

-- Rates in thousandths, of which the three last digits are sent.
abbrev pub thousandths : Float32
thousandths = record {
  F = ℕ;
  format = λ x. to_string (x % 1000);
  parse = parse_u64;
  rounded = λ x. x % 1000;
  parse-format = λ x. parse_u64-to_string (x % 1000) (below_1000 x);
  format-IsPlain = λ x. digits-IsPlain (x % 1000);
}

abbrev message : ChatMessage
message = record {
  id = 7;
  unix_ms = 1000;
  user = b'a' ∷ tab ∷ [];
  text = backslash ∷ b'n' ∷ newline ∷ [];
}

abbrev report : HealthReport thousandths
report = record {
  seq = 3;
  unix_ms = 2000;
  endpoints =
      record { endpoint_id = b'x' ∷ []; achieved_mbps = 1250; last_seq = some 9; max_seq = none }
      ∷ [];
  chat = message ∷ [];
}

decode-encode_health_report_example :
    decode_health_report thousandths (encode_health_report thousandths report)
    ≡ ok (record {
      seq = 3;
      unix_ms = 2000;
      endpoints =
          record {
            endpoint_id = b'x' ∷ [];
            achieved_mbps = 250;
            last_seq = some 9;
            max_seq = some 9;
          }
          ∷ [];
      chat = message ∷ [];
    })
decode-encode_health_report_example =
    decode-encode_health_report thousandths report (omega arith) (omega arith)
      ((((ground arith, ground arith, ground arith), tt), omega arith, tt), tt)
      ((omega arith, omega arith), tt)

abbrev first_live : LivePath
first_live = record { stable_id = 1; bind_ip = 10; endpoint = 100 }

abbrev second_live : LivePath
second_live = record { stable_id = 2; bind_ip = 10; endpoint = 101 }

abbrev lost : PathConnection
lost = (mark_failed (some 1) (reconnect first_live pending).0).0

wants_pending : wants_reconnect pending ≡ true
unfolding wants_reconnect is_connected
wants_pending = refl

Reach-wants_reconnect_example : wants_reconnect lost ≡ not (is_connected lost)
Reach-wants_reconnect_example = Reach-wants_reconnect lost (
    after (after at_first (connected pending first_live wants_pending))
      (failed (reconnect first_live pending).0 (some 1)))

abbrev up : PathConnection
up = record { live = some second_live; reconnect_requested = false }

mark_failed-current_example :
    (second_live.stable_id ≢ 1 → mark_failed (some 1) up ≡ (up, none))
    × (second_live.stable_id ≡ 1
        → mark_failed (some 1) up ≡ (record { live = none; reconnect_requested = true }, some 101))
mark_failed-current_example = mark_failed-current up second_live 1 refl

down : is_connected pending ≡ false
unfolding is_connected
down = refl
