-- ===== src/Analyzer.antt =====
-- The package analyzer.
pub mod Flow
