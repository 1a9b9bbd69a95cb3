-- ===== src/Lib.antt =====
-- Verification of tymux, a terminal multiplexer with a typed API.
--
-- The daemon keeps sessions of windows of panes. Each window arranges its panes by a layout tree;
-- each pane has a process under a restart supervisor, and a replay buffer from which a client that
-- reconnects resumes. The modules follow these parts:
--
-- * Layout models crates/tymux-core/src/layout.rs: `LayoutNode` and `compute_geometry`, `split` (here
--   `split_node`), `remove`, `contains`, `leaves`, `replace_leaf`. A `Split` has its two children as
--   fields. `f32` is the parameter `Float32`; what is relied on of it is `IsFloat32`. u16 sums and
--   differences wrap. A panic is `none`. Layout/Leaves, Geometry, Splitting and Closing prove.
-- * Replay models crates/tymux-core/src/replay_buffer.rs: `ReplayBuffer` with `push` and
--   `replay_since`, and the budget that all panes share. Replay/Eviction, Window and Budget prove;
--   in Replay/Race two threads take turns on the counter.
-- * Restart models crates/tymux-core/src/restart.rs: `RestartPolicy` (Restart/Policy) and every
--   operation of `PaneSupervisor`. `f64` is the parameter `Float64` with the law `IsFloat64`.
--   Restart/Lifecycle, Stopping, Budget, CrashLoop and Restoring prove.
-- * Health models crates/tymuxd/src/listener_health.rs (`raise_with`, `AcceptErrorLimiter::admit`, one
--   round of the loop of `log_accept_errors`) and `tcp_health_probe_transition` of
--   crates/tymuxd/src/main.rs. The kernel's `setrlimit` is a parameter. Health/Nofile, Accepting and
--   Probing prove.
-- * Auth models crates/tymuxd/src/auth.rs: `resolve_token` and its siblings, the start-up gate, and the
--   interceptors of both listeners (here `bearer_call`, `uds_call`). Auth/Flags, Gate and Peers prove.
-- * Clients models crates/tymux-core/src/terminal_query/clients.rs: `ClientRegistry` over a heap of the
--   shared slots. Clients/Answering and History prove.
-- * Pane models of crates/tymux-core/src/pane.rs what its supervisor uses: signals, `respawn_with`, the
--   exit hook and the end of the reader thread.
-- * Supervision models crates/tymux-core/src/supervision.rs: Supervision/Calls each method on one
--   entry, Supervision/Table the methods on the table. A call is one step under the lock; between the
--   calls the reader thread moves (`EntryStep` in Supervision/Refining). Supervision/Tracking,
--   Respawning and Restarting carry the proofs, Refining and Timers the results.
-- * Persistence models crates/tymux-core/src/persistence.rs: records, `validate_structure`, `from_live`
--   and `persisted_layout_to_live`; Persistence/Sessions whole sessions, with what `load_persisted` of
--   crates/tymux-core/src/engine.rs makes of a record. Persistence/Trees,
--   Checking and Sessions prove.
-- * Engine models crates/tymux-core/src/engine.rs over the models above: its state and index here, in
--   Engine/Operations `create_session_supervised`, `split_pane` and `create_window`, in Engine/Removals
--   `close_pane` and `kill_session`, in Engine/Reviving `revive_session`, in Engine/Viewports the
--   window sizes, in Engine/Snapshots and Listing what is told of the sessions. A method is one
--   step, but in `split_pane` other calls may run between its locked sections; saves, kills, resizes and
--   notices are listed in `effects`. Engine/Windows, Indexing, Storing, Signals, Filing, Starting, Started,
--   Wanted, Ranges and Remainders carry the proofs; Adding, Splitting, Closing, Killing, Revived, Sizing
--   and Listing have the results.
-- * Queries models crates/tymux-core/src/terminal_query.rs (`classify_csi`), what its scanner.rs skips
--   (`find_esc`, `complete_other_csi`), and in Queries/Outbox its outbox.rs. Queries/Skipping and
--   Outbox prove.
-- * Attach models crates/tymuxd/src/main.rs: the stream that `attach` sends to a client, from its
--   registration with Clients, over its priming from Replay, the replay and the live loop, to its end.
--   Each turn of a loop is given with what `select!` found ready. Attach/Backlog and
--   Resuming prove.
-- * Cli models crates/tymux-cli/src: here input.rs (`KeystrokeReassembler`), in Cli/CopyMode its
--   copy_mode.rs, in Cli/Config its config.rs. Cli/Pasting, Leading and Typing, and these two, prove.
-- * Tests runs the models on concrete inputs, and applies the theorems there.
--
-- Ids (UUIDs) are numbers and times are milliseconds (nanoseconds in Health), passed as arguments.
-- `crash_loop` takes the number of rounds as fuel, and the theorem about it says how many suffice; the
-- loop of `raise_with` takes fuel, above its target. Not modelled: the terminal emulator in
-- crates/vt100 (a fork of another project), pseudo-terminals, processes, sockets, files on disk, the
-- benchmark and the test harnesses; the conversions of the gRPC surface, the handlers that only pass a
-- request on, and the drain at shutdown; in engine.rs the calls that pass a pane on to the supervisor;
-- the rest of the scanner and the replies of terminal_query in crates/tymux-core/src; and in
-- crates/tymux-cli/src status_bar.rs, which renders, and main.rs, which drives the terminal.
pub mod Base
pub mod Layout
pub mod Replay
pub mod Restart
pub mod Health
pub mod Attach
pub mod Auth
pub mod Clients
pub mod Cli
pub mod Engine
pub mod Pane
pub mod Supervision
pub mod Persistence
pub mod Queries
pub mod Tests
