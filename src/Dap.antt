-- ===== src/Dap.antt =====
-- internal/dap: the tables of the Debug Adapter Protocol server.
pub mod HandleTable
pub mod BreakpointIds
pub mod InitialStop
pub mod ClientOptions
pub mod SourceCoordinates
