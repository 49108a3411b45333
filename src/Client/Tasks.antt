-- ===== src/Client/Tasks.antt =====
-- The tasks that the client of crates/client/src/main.rs runs for a path: the loop that connects it
-- again, the watcher of its interface, the check of its connection, the reader of its return path, and
-- the answers to the server's repair requests. Each is a round of the task's loop. What the interface
-- and iroh answer is an argument; times are in milliseconds, names are numbers. What the rounds
-- show or log is left out, and so is the closing of the endpoint that the path gives up.
pub mod Recovery
pub mod Up
pub mod Repair
use irohsion.Prelude.{
  ℕ, ◌+◌, ◌*◌, if◌then◌else◌, not, Bool, true, false, Option, none, some, min, List, [], ◌∷◌,
}
use irohsion.Transport.Path.{
  LivePath, PathConnection, mark_failed, mark_interface_changed, reconnect, request_reconnect,
  wants_reconnect,
}
use irohsion.Client.Split.{auto, redundant_mode, split_mode, round_robin_mode}
use irohsion.Client.Strategy.{
  Floats, StrategyState, degrade_to_redundant, record_interface_success, record_interface_failure,
  record_interface_reconnecting, record_interface_dead, set_mode, toggle_weighted_auto_split,
}
use irohsion.Client.PathSend.{send_on_path}

-- What becomes of an attempt to connect; the new connection, when there is one.
pub data Attempt : Type 0 where
  connects : LivePath → Attempt
  fails : Attempt
  times_out : Attempt

pub data UiCommand : Type 0 where
  set_auto : UiCommand
  set_redundant : UiCommand
  set_split : UiCommand
  set_round_robin : UiCommand
  toggle_weighted_auto : UiCommand

abbrev pub first_retry_delay : ℕ
first_retry_delay = 250

abbrev pub last_retry_delay : ℕ
last_retry_delay = 5000

module _ (floats : Floats) where
  -- What the tasks of a path share, with the delay that the reconnect loop has reached and the time that it slept.
  pub record Client : Type 0 where
    pub path : PathConnection
    pub strategy : StrategyState floats
    pub retry_delay : ℕ
    pub slept : ℕ

  -- The last two arms of the reconnect loop.
  unfoldable pub retry_later : ℕ → Client → Client
  unfolding record_interface_dead
  retry_later interface c = record c {
    strategy = record_interface_dead floats interface c.strategy;
    slept = c.slept + c.retry_delay;
    retry_delay = min (c.retry_delay * 2) last_retry_delay;
  }

  unfoldable pub after_attempt : Attempt → ℕ → Client → Client
  unfolding reconnect record_interface_success retry_later
  after_attempt (connects l) interface c = record c {
    path = (reconnect l c.path).0;
    strategy = record_interface_success floats interface c.strategy;
    retry_delay = first_retry_delay;
  }
  after_attempt fails interface c = retry_later interface c
  after_attempt times_out interface c = retry_later interface c

  -- A round of the reconnect loop.
  unfoldable pub reconnect_round : Attempt → ℕ → Client → Client
  unfolding wants_reconnect record_interface_reconnecting after_attempt
  reconnect_round attempt interface c =
      if not (wants_reconnect c.path)
      then record c { slept = c.slept + 250 }
      else after_attempt attempt interface
          (record c { strategy = record_interface_reconnecting floats interface c.strategy })

  -- The path after the interface has another address; the endpoint is the one that goes.
  abbrev pub with_address : Option ℕ → ℕ → ℕ → Client → Client
  with_address none bind_ip interface c = c
  with_address (some endpoint) bind_ip interface c = record c {
    path = (mark_interface_changed bind_ip c.path).0;
    strategy = record_interface_reconnecting floats interface c.strategy;
  }

  abbrev pub without_address : Option ℕ → PathConnection → PathConnection
  without_address none p = request_reconnect p
  without_address (some endpoint) p = (mark_failed none p).0

  -- A round of the interface's watcher: the address that the interface has, if it has one.
  unfoldable pub watch_interface : Option ℕ → ℕ → Client → Client
  unfolding mark_interface_changed mark_failed request_reconnect record_interface_reconnecting
      record_interface_dead
  watch_interface (some bind_ip) interface c =
      with_address (mark_interface_changed bind_ip c.path).1 bind_ip interface c
  watch_interface none interface c = record c {
    path = without_address (mark_failed none c.path).1 c.path;
    strategy = record_interface_dead floats interface c.strategy;
  }

  abbrev pub check_connection : Option LivePath → Bool → ℕ → Client → Client
  check_connection none closed interface c = c
  check_connection (some l) closed interface c = if not closed then c else record c {
    path = (mark_failed (some l.stable_id) c.path).0;
    strategy = record_interface_reconnecting floats interface c.strategy;
  }

  -- A round of the liveness check, with whether the connection has a reason for its close.
  unfoldable pub check_liveness : Bool → ℕ → Client → Client
  unfolding mark_failed record_interface_reconnecting
  check_liveness closed interface c = check_connection c.path.live closed interface c

  -- The return path of a connection has closed.
  unfoldable pub return_path_closed : ℕ → ℕ → Client → Client
  unfolding mark_failed record_interface_failure degrade_to_redundant
  return_path_closed id interface c = record c {
    path = (mark_failed (some id) c.path).0;
    strategy = degrade_to_redundant floats (record_interface_failure floats interface c.strategy);
  }

  -- A datagram on the path, for whatever reason.
  unfoldable pub send_datagram : Bool → ℕ → ℕ → Client → Client
  unfolding send_on_path
  send_datagram taken packet_len interface c =
      let sent = send_on_path floats taken interface packet_len c.path c.strategy in
      record c { path = sent.0; strategy = sent.1 }

  -- A command of the terminal's user.
  unfoldable pub run_command : UiCommand → StrategyState floats → StrategyState floats
  unfolding set_mode toggle_weighted_auto_split
  run_command set_auto s = set_mode floats auto s
  run_command set_redundant s = set_mode floats redundant_mode s
  run_command set_split s = set_mode floats split_mode s
  run_command set_round_robin s = set_mode floats round_robin_mode s
  run_command toggle_weighted_auto s = toggle_weighted_auto_split floats s

  -- What may happen to a path, in any order.
  pub data Event : Type 0 where
    attempted : Attempt → Event
    watched : Option ℕ → Event
    checked : Bool → Event
    closed : ℕ → Event
    sent : Bool → ℕ → Event
    commanded : UiCommand → Event

  unfoldable pub handle : ℕ → Event → Client → Client
  unfolding reconnect_round watch_interface check_liveness return_path_closed send_datagram
      run_command
  handle interface (attempted a) c = reconnect_round a interface c
  handle interface (watched ip) c = watch_interface ip interface c
  handle interface (checked gone) c = check_liveness gone interface c
  handle interface (closed id) c = return_path_closed id interface c
  handle interface (sent taken len) c = send_datagram taken len interface c
  handle interface (commanded command) c = record c { strategy = run_command command c.strategy }

  unfoldable pub run : ℕ → List Event → Client → Client
  unfolding handle
  run interface [] c = c
  run interface (event ∷ events) c = run interface events (handle interface event c)
