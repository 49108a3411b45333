-- ===== src/Client/Ui.antt =====
-- `ClientUiState` of crates/client/src/tui.rs: what the client's terminal shows, and how the client changes
-- it. An interface is the number of its name, an instant a number. The counters of the atomics, and the
-- sums of a release build, wrap at 64 bits. `two_decimals` is `format!("{:.2}")` of an `f32`.
pub mod Logs
use irohsion.Prelude.{
  ℕ, ◌+◌, ◌%◌, ◌^◌, if◌then◌else◌, leb, Bool, true, false, ◌&&◌, List, [], ◌∷◌, ◌++◌, map, Option,
  none, some, length, drop,
}
use irohsion.Prelude.Bytes.{bytes_eq}
use irohsion.Prelude.Map.{lookup, insert}
use irohsion.Prelude.Named.{find, put}
use irohsion.Transport.Report.{Float32, EndpointHealth}

abbrev dash : List ℕ
dash = b'-' ∷ []

abbrev no_rate : List ℕ
no_rate = b'0' ∷ b'.' ∷ b'0' ∷ b'0' ∷ []

abbrev sending : List ℕ
sending = b's' ∷ b'e' ∷ b'n' ∷ b'd' ∷ b'i' ∷ b'n' ∷ b'g' ∷ []

abbrev error_transport : List ℕ
error_transport = b'e' ∷ b'r' ∷ b'r' ∷ b'o' ∷ b'r' ∷ []

abbrev failed_status : List ℕ
failed_status = b'f' ∷ b'a' ∷ b'i' ∷ b'l' ∷ b'e' ∷ b'd' ∷ []

abbrev pub wrapped : ℕ → ℕ → ℕ
wrapped a b = (a + b) % 2 ^ 64

-- `.get(…).unwrap_or_default()` of a sum and of rows.
abbrev pub or_none_sent : Option ℕ → ℕ
or_none_sent none = 0
or_none_sent (some n) = n

abbrev pub max_log_lines : ℕ
max_log_lines = 120

-- `float` is `f32`, and `F` is `f64`.
module _ (float : Float32) (F : Type 0) (two_decimals : float.F → List ℕ) where
  pub record PathRow : Type 0 where
    pub endpoint_id : List ℕ
    pub split_percentage : Option F
    pub server_mbps : List ℕ
    pub last_health_at : Option ℕ
    pub remote_addr : List ℕ
    pub transport : List ℕ
    pub selected : Bool
    pub status : List ℕ

  pub record ClientUiState : Type 0 where
    pub health_endpoint : List ℕ
    pub strategy_mode : List ℕ
    pub effective_strategy : List ℕ
    pub ingested_packets : ℕ
    pub ingested_bytes : ℕ
    pub sent_packets : ℕ
    pub sent_bytes : ℕ
    pub sent_bytes_by_interface : List (ℕ × ℕ)
    pub send_errors : ℕ
    pub last_ingest_from : List ℕ
    pub last_health_received : Option ℕ
    pub paths : List (ℕ × List PathRow)
    pub logs : List (List ℕ)
    pub quit_requested : Bool

  abbrev pub or_no_rows : Option (List PathRow) → List PathRow
  or_no_rows none = []
  or_no_rows (some rows) = rows

  abbrev pub new_state : List ℕ → ClientUiState
  new_state health_endpoint = record {
    health_endpoint = health_endpoint;
    strategy_mode = dash;
    effective_strategy = dash;
    ingested_packets = 0;
    ingested_bytes = 0;
    sent_packets = 0;
    sent_bytes = 0;
    sent_bytes_by_interface = [];
    send_errors = 0;
    last_ingest_from = dash;
    last_health_received = none;
    paths = [];
    logs = [];
    quit_requested = false;
  }

  unfoldable pub record_ingest : ℕ → List ℕ → ClientUiState → ClientUiState
  record_ingest bytes from u = record u {
    ingested_packets = wrapped u.ingested_packets 1;
    ingested_bytes = wrapped u.ingested_bytes bytes;
    last_ingest_from = from;
  }

  abbrev pub as_sending : PathRow → PathRow
  as_sending row = record row { status = sending }

  unfoldable pub record_send : ℕ → ℕ → ClientUiState → ClientUiState
  record_send interface bytes u = record u {
    sent_packets = wrapped u.sent_packets 1;
    sent_bytes = wrapped u.sent_bytes bytes;
    sent_bytes_by_interface =
        insert interface (wrapped (or_none_sent (lookup interface u.sent_bytes_by_interface)) bytes)
          u.sent_bytes_by_interface;
    paths = insert interface (map as_sending (or_no_rows (lookup interface u.paths))) u.paths;
  }

  abbrev pub error_row : List ℕ → PathRow
  error_row error = record {
    endpoint_id = dash;
    split_percentage = none;
    server_mbps = no_rate;
    last_health_at = none;
    remote_addr = error;
    transport = error_transport;
    selected = false;
    status = failed_status;
  }

  abbrev pub with_error : List ℕ → PathRow → PathRow
  with_error error row = record row {
    transport = error_transport;
    status = failed_status;
    remote_addr = error;
    selected = false;
    split_percentage = none;
  }

  abbrev pub failed_rows : List ℕ → List PathRow → List PathRow
  failed_rows error [] = error_row error ∷ []
  failed_rows error (row ∷ rows) = map (with_error error) (row ∷ rows)

  unfoldable pub record_send_error : ℕ → List ℕ → ClientUiState → ClientUiState
  record_send_error interface error u = record u {
    send_errors = wrapped u.send_errors 1;
    paths = insert interface (failed_rows error (or_no_rows (lookup interface u.paths))) u.paths;
  }

  -- `.iter().find(…)`
  unfoldable pub find_row : (PathRow → Bool) → List PathRow → Option PathRow
  find_row test [] = none
  find_row test (row ∷ rows) = let rest = find_row test rows in if test row then some row else rest

  abbrev pub same_path : PathRow → PathRow → Bool
  same_path row existing =
      bytes_eq existing.endpoint_id row.endpoint_id
      && (bytes_eq existing.transport row.transport
          && bytes_eq existing.remote_addr row.remote_addr)

  abbrev pub or_else : Option PathRow → Option PathRow → Option PathRow
  or_else (some row) other = some row
  or_else none other = other

  abbrev pub keep_from : Option PathRow → PathRow → PathRow
  keep_from none row = row
  keep_from (some existing) row = record row {
    split_percentage = existing.split_percentage;
    server_mbps = existing.server_mbps;
    last_health_at = existing.last_health_at;
  }

  abbrev pub carry_over : Option (List PathRow) → PathRow → PathRow
  carry_over none row = row
  carry_over (some rows) row =
      keep_from
        (or_else (find_row (same_path row) rows)
          (find_row (λ existing. bytes_eq existing.endpoint_id row.endpoint_id) rows))
        row

  unfoldable pub record_path : ℕ → List PathRow → ClientUiState → ClientUiState
  unfolding find_row
  record_path interface rows u = record u {
    paths = insert interface (map (carry_over (lookup interface u.paths)) rows) u.paths;
  }

  -- A change of every row of every interface.
  abbrev pub each_row : (ℕ → PathRow → PathRow) → List (ℕ × List PathRow) → List (ℕ × List PathRow)
  each_row change = map λ e. (e.0, map (change e.0) e.1)

  unfoldable pub record_split_percentages : List (ℕ × F) → ClientUiState → ClientUiState
  record_split_percentages percentages u = record u {
    paths =
        each_row (λ interface row. record row { split_percentage = lookup interface percentages })
          u.paths;
  }

  abbrev pub set_health_endpoint : List ℕ → ClientUiState → ClientUiState
  set_health_endpoint endpoint u = record u { health_endpoint = endpoint }

  abbrev pub record_strategy_state : List ℕ → List ℕ → ClientUiState → ClientUiState
  record_strategy_state mode effective u = record u {
    strategy_mode = mode;
    effective_strategy = effective;
  }

  abbrev pub record_health_received : ℕ → ClientUiState → ClientUiState
  record_health_received now u = record u { last_health_received = some now }

  -- The map of the rates that the report gives; the last row of an endpoint wins.
  unfoldable pub throughput_of :
      List (EndpointHealth float) → List (List ℕ × List ℕ) → List (List ℕ × List ℕ)
  throughput_of [] rates = rates
  throughput_of (endpoint ∷ endpoints) rates =
      throughput_of endpoints (put endpoint.endpoint_id (two_decimals endpoint.achieved_mbps) rates)

  abbrev pub with_rate : ℕ → Option (List ℕ) → PathRow → PathRow
  with_rate now none row = record row { server_mbps = no_rate }
  with_rate now (some rate) row = record row { server_mbps = rate; last_health_at = some now }

  unfoldable pub record_endpoint_health :
      ℕ → List (EndpointHealth float) → ClientUiState → ClientUiState
  unfolding throughput_of
  record_endpoint_health now endpoints u = record u {
    paths =
        each_row
          (λ interface row. with_rate now (find row.endpoint_id (throughput_of endpoints [])) row)
          u.paths;
  }

  unfoldable pub push_log_line : List ℕ → ClientUiState → ClientUiState
  push_log_line line u = record u {
    logs = (if leb max_log_lines (length u.logs) then drop 1 u.logs else u.logs) ++ (line ∷ []);
  }

  -- One line after the other.
  unfoldable pub push_all : List (List ℕ) → ClientUiState → ClientUiState
  unfolding push_log_line
  push_all [] u = u
  push_all (line ∷ lines) u = push_all lines (push_log_line line u)

  abbrev pub request_quit : ClientUiState → ClientUiState
  request_quit u = record u { quit_requested = true }
