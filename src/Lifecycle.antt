-- ===== src/Lifecycle.antt =====
-- internal/lifecycle: one-shot teardown (CloseOperation) and admission of creators before a parent's
-- teardown (Gate). A mutex makes each method one atomic step; waiting on a channel is split at the
-- points where the source releases the mutex.
pub mod Channels
pub mod CloseOperation
pub mod Gate
