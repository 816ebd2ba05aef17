-- ===== src/Language.antt =====
-- internal/language: the language service.
pub mod Overlays
pub mod AnalysisCache
