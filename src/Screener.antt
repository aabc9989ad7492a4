-- ===== src/Screener.antt =====
-- The screener: CockpitUI/src/domain/screener.ts.
pub mod Rows
pub mod Filters
pub mod Presets
pub mod Breadth
pub mod Tests
