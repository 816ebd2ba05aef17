-- ===== src/Examples.antt =====
-- Tests of the models at concrete inputs, and instances of the theorems.
mod Closing
mod Executions
mod Sessions
mod Debugging
mod DebugSessions
mod Registries
mod Documents
