-- ===== src/Lib.antt =====
-- ferretd: the daemon that compiles, runs and debugs FQL queries. The models follow the Go
-- packages under internal/. Files and functions are named by their paths from the repository's
-- root; a Go name in camel case is the snake-case name here, a method takes its receiver
-- first.
--
-- Every method that holds a mutex from beginning to end is one step. A method that releases
-- its mutex to wait or to call out is one definition for each critical section, and the
-- interleavings of such sections by several callers are explicit sequences of steps. A Go
-- panic is the value `panic` of Prelude/Panics, a nil pointer, channel or error is none.
-- Channels that are only made and closed are flags in a heap, Lifecycle/Channels; maps are
-- association lists, Prelude/Maps, whose order stands for the order of a range loop. A pointer
-- that is only compared is a number, its address.
--
-- The parts, and the files that model them:
--
-- Lifecycle/CloseOperation models internal/lifecycle/close_operation.go, the one-time close
-- with a published result; CloseOperation/History is the sequence of calls on it.
-- Lifecycle/Gate models internal/lifecycle/gate.go, admission of creators before a close;
-- Gate/Protocol is the protocol that its callers follow (a creator leaves once, the owner
-- waits and then publishes).
--
-- Exec/Parameters, Exec/Snapshots and Errors model the values of internal/exec: parameters.go,
-- event.go, execution_state.go, execution_snapshot.go, runtime_result.go, output.go,
-- errors.go; Diagnostics models internal/diagnostic/diagnostic.go. Exec/Runtime models
-- internal/exec/runtime.go: what the query engine answers to each call is an argument.
-- Exec/Execution models internal/exec/execution.go, the state machine of one run, its events
-- and its watchers; Execution/Steps is the sequence of calls, Invariant and Preserves what
-- they keep, Watchers and Streams what a watcher holds, Awaited, Waits and Bystanders one watcher
-- while other calls are made. Exec/Session models
-- internal/exec/session.go, the compiled plans and the debug targets leased from them; it uses
-- the gate for its children, and Session/Leases is the interleaving of creators, holders and
-- the closing worker. Exec/WorkspaceGroup models internal/exec/workspace_group.go, a gate with
-- the Sessions that it admitted. Exec/SessionRegistry models
-- internal/exec/session_registry.go: entries and groups are objects in heaps, a Session and a
-- group live in them by value, and the maps hold addresses; SessionRegistry/Calls is the
-- sequence of calls, Growth what a call may do to the entries, and Ownership who owns a close.
-- Exec/ExecutionRegistry models internal/exec/execution_registry.go in the same way.
-- Exec/DebugRuntime models internal/exec/debug_runtime.go, a runtime with the lease that it
-- gives back once.
--
-- Debug/Values, Debug/Watchers, Debug/Session and Session/Commands model internal/debug: the
-- values of session_state.go, event.go, session_snapshot.go, scope.go and output.go, the
-- watchers of session_watch.go, and the commands, the events that end them, termination and
-- close of session.go, session_commands.go, session_lifecycle.go, session_inspection.go and
-- session_breakpoints.go. Session/Steps is the interleaving of the calls with the goroutines
-- of a command and of the termination; what the debugger answers is an argument of a step.
--
-- Language/Overlays models internal/language/service.go, the documents open in an editor, and
-- Language/AnalysisCache models analysis_cache.go, one analysis per snapshot of a document;
-- AnalysisCache/Steps is the interleaving of edits, requests and the goroutines that analyse.
-- What the workspace manager, uri.Path and the compiler answer are arguments.
--
-- Dap/HandleTable, Dap/BreakpointIds, Dap/InitialStop, Dap/ClientOptions and
-- Dap/SourceCoordinates model internal/dap/handle_table.go, breakpoint_ids.go,
-- initial_stop.go, client_options.go and source_coordinates.go, the tables by which the debug
-- adapter translates between its protocol and the debugger. InitialStop reads the identities
-- of BreakpointIds.
--
-- Source/Positions and Source/Mapper model internal/source/position.go and utf16.go.
-- Source/Utf8 holds what they and the adapter use of Go's unicode/utf8 and unicode/utf16.
-- Texts are lists of bytes.
--
-- Bounds: the uint64 event numbers and document generations and the uint32 fields of a
-- Position wrap where they are computed; Go ints that only count are natural numbers. No
-- definition runs on fuel: loops over a string's bytes recur on the bytes, with the width of
-- the rune read last still to skip.
--
-- Not modelled: the managers of internal/exec and internal/debug, the workspace and its file
-- system, the language features over an analysis, the language server, the RPC services and
-- the commands. Generated code, the compiler and the query engine are outside the model.
pub mod Prelude
pub mod Errors
pub mod Lifecycle
pub mod Source
pub mod Diagnostics
pub mod Exec
pub mod Debug
pub mod Language
pub mod Dap
mod Examples
