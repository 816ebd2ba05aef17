-- ===== src/Debug.antt =====
-- internal/debug: debug Sessions, each over one runtime of an executable Session.
pub mod Values
pub mod Watchers
pub mod Session
