-- ===== src/Tests/Registry.antt =====
-- The server's registry and health reports on concrete values.
use irohsion.Prelude.{
  ℕ, ◌/◌, max, ◌+◌, ◌*◌, ◌≡◌, refl, ltb, Bool, ◌||◌, List, [], ◌∷◌, Option, some, length, is_some,
}
use irohsion.Prelude.Map.{member}
use irohsion.Prelude.Named.{find}
use irohsion.Transport.Report.{ChatMessage}
use irohsion.Tests.Transport.{thousandths}
use irohsion.Server.Registry.{
  ConnectionRegistry, connections_of, register, remove_connection_if_current, send_response,
}
use irohsion.Server.Registry.Left.{IsRegistry, remove_connection_if_current-Left}
use irohsion.Server.Registry.Answer.{first_answer, send_response-first_answer, send_response-Kept}
use irohsion.Server.Registry.Life.{Reach, at_start, accepted, lost, Reach-IsRegistry}
use irohsion.Server.Health.{RateOps, recent_chat_messages, build_health_report}
use irohsion.Server.Health.Chat.{IsSorted, Before, count, offered, recent_chat_messages-Newest}
use irohsion.Server.Health.Sample.{
  Receipt, record_all, AreDistinct, report_of, build_health_report-record_all,
}

abbrev ann : List ℕ
ann = b'a' ∷ []

abbrev bob : List ℕ
bob = b'b' ∷ []

abbrev live : ConnectionRegistry
live = register bob 9 (register ann 4 (register ann 2 []))

live-Reach : Reach live
live-Reach = accepted bob 9 (accepted ann 4 (accepted ann 2 at_start))

Reach-IsRegistry_example : IsRegistry (remove_connection_if_current bob 9 live).0
Reach-IsRegistry_example =
    Reach-IsRegistry (remove_connection_if_current bob 9 live).0 (lost bob 9 live-Reach)

remove_connection_if_current-Left_example :
    let (left, answer) = remove_connection_if_current ann 2 live in
    IsRegistry left
    × (answer ≡ is_some (find ann left))
    × (member 4 (connections_of ann left) ≡ member 4 (connections_of ann live))
remove_connection_if_current-Left_example =
    remove_connection_if_current-Left ann 2 live ann 4 (Reach-IsRegistry live live-Reach)

-- The connection 4 of the first remote refuses.
abbrev takes : ℕ → Bool
takes id = ltb id 4 || ltb 8 id

send_response-first_answer_example :
    (send_response takes (ann ∷ bob ∷ []) live).0 ≡ first_answer takes (ann ∷ bob ∷ []) live
send_response-first_answer_example = send_response-first_answer takes (ann ∷ bob ∷ []) live

send_response-Kept_example :
    member 2 (connections_of ann (send_response takes (ann ∷ bob ∷ []) live).1)
    ≡ member 2 (connections_of ann live)
send_response-Kept_example = send_response-Kept takes (ann ∷ bob ∷ []) live ann 2 refl

abbrev said : ℕ → ℕ → ChatMessage
said id unix_ms = record { id = id; unix_ms = unix_ms; user = ann; text = bob }

abbrev on_twitch : Option (List ChatMessage)
on_twitch = some (said 1 10 ∷ said 2 30 ∷ [])

abbrev on_kick : Option (List ChatMessage)
on_kick = some (said 1 20 ∷ said 2 25 ∷ [])

recent_chat_messages-Newest_example :
    (older : List ChatMessage) × (length (recent_chat_messages on_twitch on_kick) ≡ 3)
    × IsSorted (recent_chat_messages on_twitch on_kick)
    × Before older (recent_chat_messages on_twitch on_kick)
    × ((p : ChatMessage → Bool)
        → count p older + count p (recent_chat_messages on_twitch on_kick)
          ≡ count p (offered on_twitch on_kick))
recent_chat_messages-Newest_example = recent_chat_messages-Newest on_twitch on_kick

abbrev receipts : List Receipt
receipts =
    record { remote = ann; bytes = 100; seq = 5 }
    ∷ record { remote = bob; bytes = 50; seq = 6 }
    ∷ record { remote = ann; bytes = 20; seq = 4 }
    ∷ []

abbrev both : List (List ℕ × ℕ)
both = (ann, 4) ∷ (bob, 9) ∷ []

both-AreDistinct : AreDistinct both
unfolding AreDistinct
both-AreDistinct = ((refl, tt), (tt, tt))

-- Numbers of thousandths.
abbrev rate_ops : RateOps thousandths
rate_ops = record {
  as_f32 = λ n. n * 1000;
  as_secs_f32 = λ nanoseconds. nanoseconds / 1000000;
  mul_f32 = λ a b. a * b / 1000;
  div_f32 = λ a b. a * 1000 / b;
  max_f32 = λ a b. max a b;
  eight = 8000;
  thousandth = 1;
  million = 1000000000;
}

build_health_report-record_all_example :
    let (report, stats) =
      build_health_report thousandths rate_ops 250000000 1
        (some 2000)
        (record_all receipts [])
        both
        on_twitch
        on_kick in
    (report
      ≡ some (report_of thousandths rate_ops 250000000 receipts both 1 on_twitch on_kick 2000))
    × (stats ≡ [])
build_health_report-record_all_example =
    build_health_report-record_all thousandths rate_ops 250000000 receipts both 1 (some 2000)
      on_twitch on_kick both-AreDistinct
