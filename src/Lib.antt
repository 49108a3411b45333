-- ===== src/Lib.antt =====
-- irohsion sends a stream of UDP datagrams over several network paths at once. The client
-- (crates/client) numbers each datagram, cuts it into fragments for its paths or copies it to all of
-- them, keeps what it sent for repair requests, and sends a parity frame for each group of datagrams.
-- The server (crates/server) joins the fragments, recovers lost datagrams from parity, restores the
-- order, gives up what comes too late, and forwards the rest. Both use the wire format of
-- crates/protocol. The client chooses its strategy by the health reports that the server sends it
-- (crates/transport).
--
-- Prelude: the types, tests, lists, ordered maps, sets, bytes and parity laws that the parts share.
-- Protocol (crates/protocol/src/lib.rs): the types, and a parameter `PackedHeaderTail` for the packed
--   header that the `modular_bitfield` macro generates, with its documented layout as laws.
--   Protocol/Packet: encode_packet, decode_packet. Protocol/Repair: encode_repair_request,
--   decode_repair_request. Protocol/Fec: encode_fec_frame, decode_fec_frame.
-- Server (crates/server/src/main.rs):
--   Server/Sequence: next_sequence, sequence_after. Server/Assembly: FragmentAssembly;
--   Assembly/Mask is about missing_mask.
--   Server/Skipped: RecentSkippedSequences. Server/Restart: RestartDetector.
--   Server/FecState: FecState; FecState/InRange and FecState/Recovery are about recover_ready.
--   Server/Window: the state that reorder_loop hands to accept_complete_payload, recover_fec_ready,
--   advance_reorder_window, request_due_repairs, expire_reorder_gap and drain_ready, and these
--   functions; Window/Expire, Window/Yields, Window/Trace, Window/Drain, Window/Repairs and
--   Window/Sound are about them.
--   Server/Loop: reorder_loop, one round for each arrival or timeout; Loop/Cases, Loop/Order,
--   Loop/Sound, Loop/Calm and Loop/Stream are about it.
--   Server/Frame: parse_frame, and what the connections hand to the loop; Frame/Sound is about both.
--   Server/Registry: the registry of connections, RepairControl::send, response_loop and
--   remove_connection_if_current; Registry/Left, Registry/Answer and Registry/Life are about them.
--   Server/Health (crates/server/src/health.rs): record_health_sample, build_health_report and
--   recent_chat_messages; Health/Sample and Health/Chat are about them.
--   Server/Ui (crates/server/src/tui.rs): ServerUiState, each method as a report to it; Ui/Counts is
--   about its counters.
-- Client (crates/client/src/main.rs):
--   Client/Split: should_split, is_mpeg_ts_payload and the ranges of a payload; Split/Ranges and
--   Split/InRange are about them, Split/Reassembly about what the server joins of them.
--   Client/Fec: FecEncoder; Fec/Recovery is about its frames and what the server recovers from them.
--   Client/RepairCache: RepairCache; RepairCache/Limits is about it.
--   Client/Send: send_packet, as the sequence of its actions. Send/Chunks: send_payload and
--   send_mpeg_ts_chunks; Chunks/Delivery, Chunks/Routes and Chunks/Usable are about them. Send/Live: the checks of
--   the command line in main, and its loop over the local peer's datagrams, with what the strategy
--   says at each of them; Send/Total is about that loop.
--   Client/Tasks: the tasks of a path, as rounds: spawn_reconnect_loops, spawn_interface_watchers,
--   spawn_connection_liveness, the end of a return path, and the user's commands; Tasks/Recovery and
--   Tasks/Up are about them. Tasks/Repair: a round of spawn_repair_control.
--   Client/Strategy (crates/client/src/path_strategy.rs): StrategyState and its records of sends and
--   health. Strategy/Groups: auto_path_groups, auto_split_ready; Groups/Cover is about them.
--   Strategy/Weights: split_weights, auto_split_weights, active_split_weights. Strategy/Fec:
--   adaptive_fec_group_packets. Strategy/Tick: a round of strategy_loop; Tick/Stability is about it.
--   Strategy/Backlog: parse_tc_backlog. Strategy/Start: spawn_strategy_loop's state, and status.
--   Client/PathSend: send_on_path and send_fec_packet, on the strategy and on paths of Transport.
--   Client/Ui (crates/client/src/tui.rs): ClientUiState; Ui/Logs is about its log lines. Client/Context
--   (crates/client/src/context.rs): what ClientCtx keeps of the server's reports; Context/Kept is
--   about it.
-- Transport (crates/transport/src/lib.rs): Transport/Report: encode_health_report and
--   decode_health_report, with the escapes of Transport/Text and what they use of Rust's strings and
--   numbers in Transport/Fields and Transport/Decimal; Report/RoundTrip is about them.
--   Transport/Path: the state of a PathConnection; Path/Reconnect has the steps of the tasks on it.
-- Chat (crates/twitch-remote/src/lib.rs): the buffer of chat messages, which crates/kick-remote has too.
-- Cli (crates/cli/src/lib.rs): the interfaces and the secret of the command line.
-- Link: the client's packets at the server.
-- Tests: concrete runs.
--
-- Bytes are numbers below 256. An instant or a duration is a number of nanoseconds, and a difference
-- of instants stops at 0, as Rust's saturating one does. BTreeMap is a list of pairs in the order of
-- its keys; HashSet is a list without repetition. A panic is `none` (the outer one of two nested
-- options), or `panicked` in the server's loop, where `stopped` is the error that the forwarding
-- socket returns. What the loop reports to its context and forwards is the `log` of its state, newest
-- first. The output socket is a parameter that may fail at any point; `f32` and `f64` are parameters,
-- without laws but for the printing and reading of an `f32`. Text is a list of characters. In
-- Client/Strategy and Client/Tasks an interface's name is a number, and times are in milliseconds.
-- `drain_loop` runs on as many rounds as packets are buffered, since each round takes one out;
-- `recover_loop` on one round more than there are parity frames, since a round that recovers a packet
-- uses up a frame; `expire_loop` on the distance from `next_seq` to the largest sequence that waits,
-- since each round moves `next_seq` on and the loop stops when nothing waits behind it.
--
-- Not modelled: the tasks and channels of tokio, and what iroh does behind a connection; what the
-- terminal draws, the status files and the remote control; the commands that run tc; the tools.
pub mod Prelude
pub mod Protocol
pub mod Server
pub mod Client
pub mod Link
pub mod Transport
pub mod Chat
pub mod Cli
pub mod Tests
