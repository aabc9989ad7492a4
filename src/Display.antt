-- ===== src/Display.antt =====
-- What the screens print: CockpitUI/src/lib/fmt.ts, screenerDisplay.ts and headerUtils.ts, and
-- CockpitUI/src/components/accounts/accountFmt.ts.
pub mod Fmt
pub mod Screener
pub mod Header
pub mod Accounts
