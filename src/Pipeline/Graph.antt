-- ===== src/Pipeline/Graph.antt =====
-- The nodes of the full sync's graph: CockpitUI/src/components/admin/WorkflowGraph.tsx, with the
-- labels and the requests of `PIPELINE_STEPS` in adminConstants.ts.
use Prim.Native.String.{◌++◌ as ◌+++◌}
use trader_cockpit_app.Prelude.{ℕ, ◌/◌, ◌%◌, String, Option, none, some, ltb, if◌then◌else◌}
use trader_cockpit_app.Prelude.Int.{at_least_zero}
use trader_cockpit_app.Js.Numbers.{Numbers, nonzero}
use trader_cockpit_app.Js.Format.{Format}
use trader_cockpit_app.Pipeline.{
  StepStatus, running, ok, error, idle, StepKey, zerodha, sync_daily, sync_1min, StepState,
  is_running,
}

pub record StepRequest : Type 0 where
  pub label : String
  pub endpoint : String
  pub method : String

abbrev pub step_request : StepKey → StepRequest
step_request zerodha = record {
  label = "Sync Zerodha";
  endpoint = "/datasync/sync/run-zerodha-sse";
  method = "POST";
}
step_request sync_daily = record {
  label = "Sync Daily Data";
  endpoint = "/datasync/sync/run-sse";
  method = "POST";
}
step_request sync_1min = record {
  label = "Sync 1-Min Data";
  endpoint = "/datasync/sync/run-1min-sse";
  method = "POST";
}

abbrev pub step_color : StepStatus → String
step_color running = "rgb(var(--amber))"
step_color ok = "rgb(var(--bull))"
step_color error = "rgb(var(--bear))"
step_color idle = "rgb(var(--border))"

module _ {N : Numbers} (F : Format N) where
  open N use {Number, lit, sub, div}

  abbrev pub count_label : ℕ → String
  count_label n = F.shown (lit n 1)

  -- `formatElapsed` of the whole seconds, which a clock that goes back would make negative.
  abbrev pub elapsed_text : ℕ → String
  elapsed_text s =
      if ltb s 60
      then count_label s +++ "s"
      else count_label (s / 60) +++ ("m " +++ (count_label (s % 60) +++ "s"))

  -- `formatElapsed`, of a time that is not before the start.
  unfoldable pub format_elapsed : Number → String
  format_elapsed ms = elim (F.floor (div ms (lit 1000 1))) [
    | none ↦ "NaNm NaNs"
    | some s ↦ elapsed_text (at_least_zero s)
  ]

  -- The time of a running step since its start, and of an ended one as it was noted.
  abbrev pub running_ms : Number → Option Number → Option Number
  running_ms now none = none
  running_ms now (some start) = if nonzero N start then some (sub now start) else none

  abbrev pub live_ms : Number → StepState N → Option Number
  live_ms now s = if is_running s.status then running_ms now s.started_at else none

  abbrev pub or_elapsed : Option Number → Option Number → Option Number
  or_elapsed none elapsed = elapsed
  or_elapsed (some ms) elapsed = some ms

  unfoldable pub node_time : Number → StepState N → Option String
  node_time now s = elim (or_elapsed (live_ms now s) s.elapsed_ms) [
    | none ↦ none
    | some ms ↦ some (format_elapsed ms)
  ]
