-- ===== src/Pipeline.antt =====
-- The full sync of CockpitUI/src/components/admin/useFullSync.ts. `runPipeline` is cut at its two
-- awaits: `stage` says at which of them it stands, with the variables that it reads afterwards.
-- Where the clock is read, the reading is part of the event.
pub mod Stream
pub mod Runs
pub mod Graph
pub mod Protocol
mod Tests
use trader_cockpit_app.Prelude.{
  String, Bool, true, false, not, ◌&&◌, ◌||◌, Option, none, some, get_or, ℕ, ◌+◌, List, [], ◌∷◌,
  map, any, all, if◌then◌else◌,
}
use trader_cockpit_app.Js.Numbers.{Numbers}

pub data StepStatus : Type 0 where
  idle running ok error : StepStatus

-- The keys of `PIPELINE_STEPS`.
pub data StepKey : Type 0 where
  zerodha sync_daily sync_1min : StepKey

abbrev pub pipeline_steps : List StepKey
pipeline_steps = zerodha ∷ sync_daily ∷ sync_1min ∷ []

-- How `readSSE` ended; a rejection has the message of its error, where it is one.
pub data Outcome : Type 0 where
  fulfilled : String → Outcome
  rejected : Option String → Outcome

abbrev pub is_idle : StepStatus → Bool
is_idle idle = true
is_idle _ = false

abbrev pub is_running : StepStatus → Bool
is_running running = true
is_running _ = false

abbrev pub is_error : StepStatus → Bool
is_error error = true
is_error _ = false

abbrev pub status_of : Outcome → StepStatus
status_of (fulfilled m) = ok
status_of (rejected m) = error

abbrev pub message_of : Outcome → String
message_of (fulfilled m) = m
message_of (rejected m) = get_or m "failed"

module _ (N : Numbers) where
  open N use {Number, sub}

  pub record StepState : Type 0 where
    pub status : StepStatus
    pub message : Option String
    pub started_at : Option Number
    pub elapsed_ms : Option Number

  -- `Record<string, …>` with the three keys.
  pub record PipelineState : Type 0 where
    pub zerodha_step : StepState
    pub daily_step : StepState
    pub minute_step : StepState

  -- Where `runPipeline` waits: nowhere, at the first stream, or at the other two with what those
  -- that are settled answered.
  pub data Stage : Type 0 where
    at_rest : Stage
    first_stream : Number → Stage
    both_streams : Number → Option Outcome → Option Outcome → Stage

  pub record FullSync : Type 0 where
    pub states : PipelineState
    pub tick : ℕ
    pub running_ref : Bool
    pub stage : Stage

  abbrev pub empty_step : StepState
  empty_step = record { status = idle; message = none; started_at = none; elapsed_ms = none }

  abbrev pub empty_states : PipelineState
  empty_states = record {
    zerodha_step = empty_step;
    daily_step = empty_step;
    minute_step = empty_step;
  }

  unfoldable pub idle_sync : FullSync
  idle_sync = record { states = empty_states; tick = 0; running_ref = false; stage = at_rest }

  abbrev pub step_of : StepKey → PipelineState → StepState
  step_of zerodha p = p.zerodha_step
  step_of sync_daily p = p.daily_step
  step_of sync_1min p = p.minute_step

  unfoldable pub put_step : StepKey → StepState → PipelineState → PipelineState
  put_step zerodha x p = record p { zerodha_step = x }
  put_step sync_daily x p = record p { daily_step = x }
  put_step sync_1min x p = record p { minute_step = x }

  -- `setStep`.
  unfoldable pub set_step :
      StepKey → StepStatus → Option String → Option Number → Option Number → FullSync → FullSync
  unfolding put_step
  set_step key status message started_at elapsed_ms s = record s {
    states =
        put_step key
          (record {
            status = status;
            message = message;
            started_at = started_at;
            elapsed_ms = elapsed_ms;
          })
          s.states;
  }

  abbrev pub statuses : FullSync → List StepStatus
  statuses s = map (λ k. (step_of k s.states).status) pipeline_steps

  unfoldable pub any_running : FullSync → Bool
  any_running s = any is_running (statuses s)

  unfoldable pub all_done : FullSync → Bool
  all_done s = all (λ x. not (is_idle x) && not (is_running x)) (statuses s)

  unfoldable pub any_error : FullSync → Bool
  any_error s = any is_error (statuses s)

  -- `runPipeline` up to its first await.
  unfoldable pub run_pipeline : Number → FullSync → FullSync
  unfolding set_step
  run_pipeline now s =
      if s.running_ref
      then s
      else set_step zerodha running none (some now) none
          (record { states = empty_states; tick = 0; running_ref = true; stage = first_stream now })

  -- From the first await to the second, or to the early return; the clock is read for the elapsed
  -- time and again for the start of the other streams.
  unfoldable pub zerodha_settled : Number → Outcome → Number → Number → FullSync → FullSync
  unfolding set_step
  zerodha_settled start (fulfilled msg) now sync_now s =
      set_step sync_1min running none (some sync_now) none (
        set_step sync_daily running none (some sync_now) none (
          set_step zerodha ok (some msg) (some start) (some (sub now start))
            (record s { stage = both_streams sync_now none none })))
  zerodha_settled start (rejected msg) now sync_now s =
      set_step zerodha error (some (get_or msg "failed")) (some start) (some (sub now start))
        (record s { running_ref = false; stage = at_rest })

  -- After `Promise.allSettled`.
  unfoldable pub syncs_settled : Number → Outcome → Outcome → Number → FullSync → FullSync
  unfolding set_step
  syncs_settled start daily minute now s =
      set_step sync_1min (status_of minute) (some (message_of minute)) (some start)
        (some (sub now start))
        (set_step sync_daily (status_of daily) (some (message_of daily)) (some start)
          (some (sub now start)) (record s { running_ref = false; stage = at_rest }))

  -- `Promise.allSettled` answers when both streams have ended.
  unfoldable pub settle_both :
      Number → Option Outcome → Option Outcome → Number → FullSync → FullSync
  settle_both start (some daily) (some minute) now s = syncs_settled start daily minute now s
  settle_both start (some daily) none now s = record s {
    stage = both_streams start (some daily) none;
  }
  settle_both start none minute now s = record s { stage = both_streams start none minute }

  -- The end of a stream that is being read.
  unfoldable pub settled : StepKey → Outcome → Number → Number → Stage → FullSync → FullSync
  settled zerodha o now sync_now (first_stream start) s = zerodha_settled start o now sync_now s
  settled sync_daily o now sync_now (both_streams start none m) s =
      settle_both start (some o) m now s
  settled sync_1min o now sync_now (both_streams start d none) s =
      settle_both start d (some o) now s
  settled _ o now sync_now _ s = s

  -- The callback of a stream that is being read.
  unfoldable pub progress : StepKey → String → Stage → FullSync → FullSync
  progress zerodha m (first_stream start) s = set_step zerodha running (some m) (some start) none s
  progress sync_daily m (both_streams start none _) s =
      set_step sync_daily running (some m) (some start) none s
  progress sync_1min m (both_streams start _ none) s =
      set_step sync_1min running (some m) (some start) none s
  progress _ m _ s = s

  pub data SyncEvent : Type 0 where
    clicked : Number → SyncEvent
    progressed : StepKey → String → SyncEvent
    ended : StepKey → Outcome → Number → Number → SyncEvent
    second_passed : SyncEvent

  -- The interval runs while a step is running.
  unfoldable pub sync_event : SyncEvent → FullSync → FullSync
  unfolding any_running
  sync_event (clicked now) s = run_pipeline now s
  sync_event (progressed key m) s = progress key m s.stage s
  sync_event (ended key o now sync_now) s = settled key o now sync_now s.stage s
  sync_event second_passed s = if any_running s then record s { tick = s.tick + 1 } else s

  unfoldable pub sync_events : List SyncEvent → FullSync → FullSync
  sync_events [] s = s
  sync_events (e ∷ es) s = sync_events es (sync_event e s)
