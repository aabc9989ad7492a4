-- ===== src/Stocks.antt =====
-- The stock list: CockpitUI/src/domain/stocklist.ts and CockpitUI/src/hooks/useStockList.ts.
pub mod Row
pub mod Modal
pub mod View
pub mod Sorting
pub mod Hook
mod Tests
