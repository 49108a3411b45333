-- ===== src/Server/Ui.antt =====
-- `ServerUiState` of crates/server/src/tui.rs: what the server's terminal shows, and how the server changes
-- it. The counters of the atomics, and the sums of a release build, wrap at 64 bits.
pub mod Counts
use irohsion.Prelude.{
  ℕ, ◌+◌, ◌%◌, ◌^◌, if◌then◌else◌, Bool, true, false, List, [], ◌∷◌, ◌++◌, map, Option, none, some,
  max, take, length,
}
use irohsion.Prelude.Bytes.{bytes_eq}
use irohsion.Prelude.Named.{find, put}

abbrev dash : List ℕ
dash = b'-' ∷ []

abbrev up_status : List ℕ
up_status = b'u' ∷ b'p' ∷ []

abbrev closed_prefix : List ℕ
closed_prefix = b'c' ∷ b'l' ∷ b'o' ∷ b's' ∷ b'e' ∷ b'd' ∷ b':' ∷ []

-- `fetch_add(b)`
abbrev pub wrap : ℕ → ℕ → ℕ
wrap a b = (a + b) % 2 ^ 64

pub record PathRow : Type 0 where
  pub remote_addr : List ℕ
  pub transport : List ℕ
  pub selected : Bool
  pub status : List ℕ

pub record ConnectionView : Type 0 where
  pub paths : List PathRow
  pub received_packets : ℕ
  pub received_bytes : ℕ
  pub last_seq : Option ℕ
  pub max_seq : Option ℕ
  pub last_activity : ℕ
  pub last_error : Option (List ℕ)

abbrev pub no_connection : ConnectionView
no_connection = record {
  paths = [];
  received_packets = 0;
  received_bytes = 0;
  last_seq = none;
  max_seq = none;
  last_activity = 0;
  last_error = none;
}

pub record ServerUiState : Type 0 where
  pub endpoint : List ℕ
  pub health_endpoint : List ℕ
  pub ticket : Option (List ℕ)
  pub server_addrs : List (List ℕ)
  pub quit_requested : Bool
  pub received_packets : ℕ
  pub received_bytes : ℕ
  pub forwarded_packets : ℕ
  pub forwarded_bytes : ℕ
  pub duplicate_packets : ℕ
  pub skipped_packets : ℕ
  pub skipped_never_received_packets : ℕ
  pub late_after_skip_packets : ℕ
  pub fragment_incomplete_packets : ℕ
  pub repair_requests : ℕ
  pub fec_recovered_packets : ℕ
  pub send_pressure_drops : ℕ
  pub flow_resets : ℕ
  pub connection_resets : ℕ
  pub invalid_packets : ℕ
  pub buffered_packets : ℕ
  pub last_forwarded_seq : ℕ
  pub next_seq : ℕ
  pub connection_activity_counter : ℕ
  pub connections : List (List ℕ × ConnectionView)

abbrev pub new_state : ServerUiState
new_state = record {
  endpoint = dash;
  health_endpoint = dash;
  ticket = none;
  server_addrs = [];
  quit_requested = false;
  received_packets = 0;
  received_bytes = 0;
  forwarded_packets = 0;
  forwarded_bytes = 0;
  duplicate_packets = 0;
  skipped_packets = 0;
  skipped_never_received_packets = 0;
  late_after_skip_packets = 0;
  fragment_incomplete_packets = 0;
  repair_requests = 0;
  fec_recovered_packets = 0;
  send_pressure_drops = 0;
  flow_resets = 0;
  connection_resets = 0;
  invalid_packets = 0;
  buffered_packets = 0;
  last_forwarded_seq = 0;
  next_seq = 0;
  connection_activity_counter = 0;
  connections = [];
}

-- What the server tells its terminal; `set_health_endpoint`, `set_ticket` and the like only set a text.
pub data Report : Type 0 where
  connection : List ℕ → List PathRow → Report
  disconnect : List ℕ → List ℕ → Report
  connection_reset : Report
  connection_receive : List ℕ → ℕ → ℕ → Report
  received : ℕ → Report
  forwarded : ℕ → ℕ → ℕ → ℕ → Report
  duplicate : ℕ → ℕ → Report
  never_received_skip : ℕ → ℕ → Report
  fragment_incomplete_skip : ℕ → ℕ → Report
  late_after_skip : ℕ → ℕ → Report
  send_pressure_drop : Report
  repair_request : Report
  fec_recovered : Report
  flow_reset : Report
  invalid : Report
  buffered : ℕ → ℕ → Report
  flow_start : ℕ → Report

abbrev or_no_connection : Option ConnectionView → ConnectionView
or_no_connection none = no_connection
or_no_connection (some c) = c

abbrev larger : ℕ → Option ℕ → ℕ
larger sequence none = sequence
larger sequence (some current) = max current sequence

-- `entry(remote).or_default()`, changed, with the activity of this call.
unfoldable pub with_connection :
    List ℕ → (ConnectionView → ConnectionView) → ServerUiState → ServerUiState
with_connection remote change u =
    let activity = wrap u.connection_activity_counter 1 in
    record u {
      connection_activity_counter = activity;
      connections =
          put remote
            (record (change (or_no_connection (find remote u.connections))) {
              last_activity = activity;
            })
            u.connections;
    }

abbrev close_row : List ℕ → PathRow → PathRow
close_row error row = record row { status = closed_prefix ++ (b' ' ∷ error) }

abbrev reopen_row : PathRow → PathRow
reopen_row row =
    if bytes_eq (take (length closed_prefix) row.status) closed_prefix
    then record row { status = up_status }
    else row

abbrev closed_connection : List ℕ → ConnectionView → ConnectionView
closed_connection error c = record c {
  last_error = some error;
  paths = map (close_row error) c.paths;
}

abbrev receiving_connection : ℕ → ℕ → ConnectionView → ConnectionView
receiving_connection bytes sequence c = record c {
  last_error = none;
  paths = map reopen_row c.paths;
  received_packets = wrap c.received_packets 1;
  received_bytes = wrap c.received_bytes bytes;
  last_seq = some sequence;
  max_seq = some (larger sequence c.max_seq);
}

-- `buffered_packets.store(…)` and `next_seq.store(…)`
abbrev at_position : ℕ → ℕ → ServerUiState → ServerUiState
at_position count next u = record u { buffered_packets = count; next_seq = next }

-- The methods, one for each report.
unfoldable pub show : Report → ServerUiState → ServerUiState
unfolding with_connection
show (connection remote rows) u = with_connection remote (λ c. record c { paths = rows }) u
show (disconnect remote error) u = with_connection remote (closed_connection error) u
show connection_reset u = record u { connection_resets = wrap u.connection_resets 1 }
show (connection_receive remote bytes sequence) u =
    with_connection remote (receiving_connection bytes sequence) u
show (received bytes) u = record u {
  received_packets = wrap u.received_packets 1;
  received_bytes = wrap u.received_bytes bytes;
}
show (forwarded bytes count sequence next) u = record (at_position count next u) {
  forwarded_packets = wrap u.forwarded_packets 1;
  forwarded_bytes = wrap u.forwarded_bytes bytes;
  last_forwarded_seq = sequence;
}
show (duplicate count next) u = record (at_position count next u) {
  duplicate_packets = wrap u.duplicate_packets 1;
}
show (never_received_skip count next) u = record (at_position count next u) {
  skipped_packets = wrap u.skipped_packets 1;
  skipped_never_received_packets = wrap u.skipped_never_received_packets 1;
}
show (fragment_incomplete_skip count next) u = record (at_position count next u) {
  skipped_packets = wrap u.skipped_packets 1;
  fragment_incomplete_packets = wrap u.fragment_incomplete_packets 1;
}
show (late_after_skip count next) u = record (at_position count next u) {
  late_after_skip_packets = wrap u.late_after_skip_packets 1;
}
show send_pressure_drop u = record u { send_pressure_drops = wrap u.send_pressure_drops 1 }
show repair_request u = record u { repair_requests = wrap u.repair_requests 1 }
show fec_recovered u = record u { fec_recovered_packets = wrap u.fec_recovered_packets 1 }
show flow_reset u = record u { flow_resets = wrap u.flow_resets 1 }
show invalid u = record u { invalid_packets = wrap u.invalid_packets 1 }
show (buffered count next) u = at_position count next u
show (flow_start next) u = record u { next_seq = next }

unfoldable pub show_all : List Report → ServerUiState → ServerUiState
unfolding show
show_all [] u = u
show_all (r ∷ reports) u = show_all reports (show r u)
