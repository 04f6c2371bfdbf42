-- ===== src/Analyze.antt =====
-- dis86/src/analyze: what the code analysis works on.
pub mod CodeSegment
