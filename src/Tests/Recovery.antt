-- ===== src/Tests/Recovery.antt =====
-- The tasks of a path of crates/client/src/main.rs: a connection that closes, an outage, a reconnection.
use irohsion.Prelude.{◌*◌, ◌+◌, ◌≤◌, ◌≡◌, refl, arith, true, false, List, [], ◌∷◌, ◌++◌, none}
use irohsion.Transport.Path.{LivePath, connect_path, is_connected}
use irohsion.Transport.Path.Reconnect.{from_connection}
use irohsion.Client.Tasks.{
  Client, connects, last_retry_delay, Event, attempted, watched, checked, run,
}
use irohsion.Client.Tasks.Up.{outage, IsUp, run-IsUp}
use irohsion.Tests.Strategy.{thousands, two_up}

abbrev old : LivePath
old = record { stable_id = 1; bind_ip = 10; endpoint = 100 }

abbrev new : LivePath
new = record { stable_id = 2; bind_ip = 10; endpoint = 101 }

abbrev client : Client thousands
client = record { path = connect_path old; strategy = two_up; retry_delay = 250; slept = 0 }

-- The connection closes, and the interface has no address.
abbrev losses : List (Event thousands)
losses = checked true ∷ watched none ∷ []

losses_disconnect : is_connected (run thousands 2 losses client).path ≡ false
unfolding run is_connected
losses_disconnect = refl

run-IsUp_example :
    let lost = run thousands 2 losses client in
    let back =
      run thousands 2
        (outage thousands (true ∷ false ∷ []) ++ (attempted (connects new) ∷ []))
        lost in
    IsUp thousands new 2 back × (back.slept ≤ lost.slept + last_retry_delay * 2)
run-IsUp_example =
    run-IsUp thousands 2 losses client (true ∷ false ∷ []) new (from_connection old)
      (omega arith, omega arith) losses_disconnect
