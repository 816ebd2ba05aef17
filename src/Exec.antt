-- ===== src/Exec.antt =====
-- internal/exec: executable Sessions over immutable Plans and one-shot Executions.
pub mod Parameters
pub mod Snapshots
pub mod Runtime
pub mod Execution
pub mod Session
pub mod WorkspaceGroup
pub mod DebugRuntime
pub mod SessionRegistry
pub mod ExecutionRegistry
