-- ===== src/Signals.antt =====
-- The live signal feed: CockpitUI/src/domain/signal.ts and CockpitUI/src/hooks/useSignals.ts.
pub mod Cells
pub mod Card
pub mod Live
pub mod Toolbar
pub mod Types
pub mod Feed
pub mod Market
pub mod Hook
pub mod Socket
pub mod Filter
pub mod Table
pub mod Style
pub mod Tests
