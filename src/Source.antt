-- ===== src/Source.antt =====
-- internal/source: protocol-neutral source locations.
pub mod Positions
pub mod Utf8
pub mod Mapper
