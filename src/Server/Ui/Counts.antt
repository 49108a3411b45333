-- ===== src/Server/Ui/Counts.antt =====
-- The counters of `ServerUiState` of crates/server/src/tui.rs.
use irohsion.Prelude.{◌+◌, ◌%◌, ◌^◌, ◌≡◌, arith, List, [], ◌∷◌}
use irohsion.Server.Ui.{
  Report, connection, disconnect, connection_reset, connection_receive, received, forwarded,
  duplicate, never_received_skip, fragment_incomplete_skip, late_after_skip, send_pressure_drop,
  repair_request, fec_recovered, flow_reset, invalid, buffered, flow_start, ServerUiState,
  with_connection, show, show_all,
}

-- The skips add up: each has one of the two reasons. The counters wrap.
abbrev pub AddsUp : ServerUiState → Type 0
AddsUp u =
    u.skipped_packets ≡ (u.skipped_never_received_packets + u.fragment_incomplete_packets) % 2 ^ 64

show-AddsUp : (r : Report) (u : ServerUiState) → AddsUp u → AddsUp (show r u)
unfolding show with_connection
show-AddsUp (connection remote rows) u h = h
show-AddsUp (disconnect remote error) u h = h
show-AddsUp connection_reset u h = h
show-AddsUp (connection_receive remote bytes sequence) u h = h
show-AddsUp (received bytes) u h = h
show-AddsUp (forwarded bytes count sequence next) u h = h
show-AddsUp (duplicate count next) u h = h
show-AddsUp (never_received_skip count next) u h = omega arith
show-AddsUp (fragment_incomplete_skip count next) u h = omega arith
show-AddsUp (late_after_skip count next) u h = h
show-AddsUp send_pressure_drop u h = h
show-AddsUp repair_request u h = h
show-AddsUp fec_recovered u h = h
show-AddsUp flow_reset u h = h
show-AddsUp invalid u h = h
show-AddsUp (buffered count next) u h = h
show-AddsUp (flow_start next) u h = h

-- Whatever the server reports, the skips that the terminal shows are those of the two reasons.
pub show_all-AddsUp :
    (reports : List Report) (u : ServerUiState) → AddsUp u → AddsUp (show_all reports u)
unfolding show_all
show_all-AddsUp [] u h = h
show_all-AddsUp (r ∷ reports) u h = show_all-AddsUp reports (show r u) (show-AddsUp r u h)
