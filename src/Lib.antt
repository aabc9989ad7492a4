-- ===== src/Lib.antt =====
-- The browser application of the trader cockpit (CockpitUI/src, TypeScript): the logic behind its
-- screens, as a library of definitions and theorems.
--
-- The application shows what the Python services send it. A web socket brings signals, regime and
-- index updates; `useSignals` keeps them as a list of rows, under a bound, with a pause and with the
-- metrics of the symbols seen. The signal screen filters those rows. The stock list fetches rows
-- page by page, decorates them with distances from reference prices, filters them by the screener's
-- tests and sorts them by a column. The heat map ranks the movers of the same day.
--
-- Files and the code they model:
--   Js: what the code uses of the language. Numbers is an interface: the type of JavaScript's
--     numbers with the arithmetic as operations and the laws of the order that the code relies on
--     (NaN compares with nothing, the infinities bound the rest). Thousandths fills it with a type
--     of signed thousandths, for runs. Text has `trim` and `includes`; `toUpperCase` and
--     `localeCompare` are fields of Locale, filled by PlainLocale for runs. Collections has plain
--     objects and sets, Sort and Order the stable sort and the comparators.
--   Signals/Types, Signals/Market: CockpitUI/src/domain/signal.ts, market.ts and
--     instrument_metrics.ts.
--   Signals/Feed: the updater inside `pushSignalRef` of CockpitUI/src/hooks/useSignals.ts
--     (`ingest`), what is stored of the rows and how they come back.
--   Signals/Hook: the states and refs of `useSignals` as one record, and its handlers: `receive` is
--     `onmessage`, `toggle_pause`, `clear_signals`, `queue_metrics` and `flush_metrics_batch`.
--   Signals/Socket: the effect that connects, with its retry timer and its cleanup.
--   Signals/Filter: `filterSignals` of CockpitUI/src/domain/signal.ts; Signals/Style: its colours and
--     labels.
--   Screener/Rows, Screener/Filters, Screener/Breadth: CockpitUI/src/domain/screener.ts.
--   Stocks/Sorting: CockpitUI/src/domain/stocklist.ts. Stocks/Hook: CockpitUI/src/hooks/
--     useStockList.ts.
--   Heat: CockpitUI/src/lib/heatmap.ts.
--   Signals/Table: CockpitUI/src/components/signals/useSignalSort.ts, with the time of a text as a
--     parameter.
--   Pipeline: CockpitUI/src/components/admin/useFullSync.ts, cut at its awaits; Pipeline/Stream:
--     sseUtils.ts beside it.
--   Notes: CockpitUI/src/hooks/useNotes.ts, with `JSON.parse` and `JSON.stringify` as a parameter.
--   Charts: CockpitUI/src/lib/chartUtils.ts (averages, weekly and monthly bars). What `Date` makes of
--     a date, the number of its day and back, is a parameter; the shift to the Monday is the code's.
--   Prices: CockpitUI/src/hooks/useLivePrices.ts, one use of the hook over the shared table;
--     Prices/Stream: its stream with the retries.
--   OptionChain: CockpitUI/src/lib/chainAssessment.ts and domain/option_chain.ts; OptionChain/Panel:
--     CockpitUI/src/components/dashboard/OptionChainPanel.tsx, a request being its start and its
--     answer; OptionChain/Panel/Answers adds a service that answers requests.
--   Display: CockpitUI/src/lib/fmt.ts, screenerDisplay.ts and headerUtils.ts, and
--     CockpitUI/src/components/accounts/accountFmt.ts, over the texts that the browser makes of
--     numbers and dates (Js/Format).
--   Charts/Frames, Charts/Profile: the timeframes and the volume profile of chartUtils.ts.
--     Charts/Screen: CockpitUI/src/components/dashboard/useDailyChart.ts, where each run of the
--     effect has a number that its answer carries.
--   Prices/Flash: CockpitUI/src/components/ui/LivePrice.tsx.
--   Heat/Cells, Heat/Entries: heatMapOption.ts, LiveHeatMapView.tsx of CockpitUI/src/components/heatmap
--     and StockListHeatMapView.tsx of CockpitUI/src/components/stocklist.
--   Accounts: CockpitUI/src/components/accounts: Hook is useAccountsData.ts, Edge and Views the figures
--     of trades.
--   Cockpit: CockpitUI/src/app/useCockpitState.ts and appTypes.ts, with JSON as a
--     parameter that knows the kinds of values; what is stored and the tests on reading are the code's.
--   Admin: CockpitUI/src/components/admin: its tables, the config panes and the token form.
--   Stocks/Modal: CockpitUI/src/components/dashboard/SymbolModal.tsx; Stocks/View:
--     useStockListState.ts and stocklistTypes.ts of CockpitUI/src/components/stocklist.
--   Signals/Live, Signals/Toolbar: SignalFeed.tsx (its metrics) and signalToolbarConfig.ts of
--     CockpitUI/src/components/signals.
--   Accounts/Summary: CapitalSummary.tsx, PerformanceStats.tsx and the tables of positions, holdings
--     and trades of CockpitUI/src/components/accounts.
--   Stocks/Row: StockListRow.tsx, StockListTable.tsx, StockListScorePanel.tsx and StockListLevels.tsx
--     of CockpitUI/src/components/stocklist, the cells and not the markup.
--   Signals/Cells: SignalCardMetrics.tsx and SignalRow.tsx of CockpitUI/src/components/signals, and
--     which tones CockpitUI/src/lib/audio.ts plays for a signal.
--   Charts/Colors: CockpitUI/src/components/charts/useEChartColors.ts.
--   Pipeline/Graph: CockpitUI/src/components/admin/WorkflowGraph.tsx.
--   Signals/Card: SignalCard.tsx with SignalCardHeader.tsx, LevelRow.tsx, BiasTag.tsx and
--     SignalTypeBadge.tsx of CockpitUI/src/components/signals.
--   OptionChain/Body: CockpitUI/src/components/dashboard/OptionChainBody.tsx. Charts/Legend:
--     ChartLegend.tsx beside it. Heat/Tile: CockpitUI/src/components/heatmap/HeatMapCell.tsx.
--   Screener/Presets: the table of presets and CockpitUI/src/components/screener/
--     ScreenerPresetGroups.tsx.
--   Accounts/Forms: ConfigureAccounts.tsx and HistoryImport.tsx of CockpitUI/src/components/accounts.
--   Notes/Editors: NoteModal.tsx, NoteBar.tsx and StockListNoteSection.tsx of CockpitUI/src/components.
--   Endpoints: CockpitUI/src/lib/api-config.ts, with the URL class of the browser as a parameter.
--   Pipeline/Protocol: an abstract protocol of the full sync.
--
-- How the model corresponds to the code. Each handler is a function from the state to the state, and
-- a run is a list of events. A handler sees the state that the last one left, as after React's
-- rendering between two events. A fetch is two steps, its start and its answer, and the answer is
-- `none` where the request failed. A missing field, `null` and `undefined` are `none`; a test on
-- truth is written out. A comparator is modelled by the question whether its answer is negative, and
-- an object by the function that reads it.
--
-- Bounds: the feed holds 200 rows (`max_signals`), a page of the stock list 500. No definition runs
-- on fuel: the loops are recursions over lists.
--
-- Not modelled: the markup and styles of the components, the Web Audio calls (which tones are played
-- is kept), the drawing on the chart's canvas, the effect of several screens that use the live prices
-- at once, the cards of the overall accounts dashboard, the screener's older `sortRows`, the proxies
-- to the services, and the services themselves, which are in Python. The numbers are those of the
-- interface, so nothing is claimed of rounding.
pub mod Prelude
pub mod Js
pub mod Signals
pub mod Screener
pub mod Stocks
pub mod Heat
pub mod Accounts
pub mod Admin
pub mod Charts
pub mod Cockpit
pub mod Display
pub mod Endpoints
pub mod Notes
pub mod OptionChain
pub mod Pipeline
pub mod Prices
