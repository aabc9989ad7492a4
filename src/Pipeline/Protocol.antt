-- ===== src/Pipeline/Protocol.antt =====
-- The protocol that the panel of the full sync (CockpitUI/src/components/admin/useFullSync.ts)
-- shows: the three statuses and the moves between them, and that the code follows it.
use trader_cockpit_app.Prelude.{String, ◌≡◌, refl, if_elim, false, Option, none, some, List}
use trader_cockpit_app.Js.Numbers.{Numbers}
use trader_cockpit_app.Pipeline.{
  StepStatus, idle, running, ok, error, StepKey, zerodha, sync_daily, sync_1min, Outcome, fulfilled,
  rejected, is_idle, is_running, status_of, Stage, at_rest, first_stream, both_streams, FullSync,
  set_step, put_step, any_running, run_pipeline, zerodha_settled, syncs_settled, settle_both,
  settled, progress, SyncEvent, clicked, progressed, ended, second_passed, sync_event, sync_events,
  idle_sync,
}
use trader_cockpit_app.Pipeline.Runs.{status, Shape, Agrees, sync_events-Agrees, idle_sync-Agrees}

-- The statuses of the account step and of the two data steps.
pub data Shown : Type 0 where
  shown : StepStatus → StepStatus → StepStatus → Shown

abbrev pub IsQuiet : StepStatus → Type 0
IsQuiet x = is_running x ≡ false

abbrev pub IsEnded : StepStatus → Type 0
IsEnded x = (is_running x ≡ false) × (is_idle x ≡ false)

infix 1 ◌⟶◌
-- The moves of the protocol.
pub data ◌⟶◌ : Shown → Shown → Type 0 where
  stay : {x : Shown} → x ⟶ x
  run_starts :
      {a d m : StepStatus}
      → IsQuiet a
      → IsQuiet d
      → IsQuiet m
      → shown a d m ⟶ shown running idle idle
  account_failed : shown running idle idle ⟶ shown error idle idle
  account_done : shown running idle idle ⟶ shown ok running running
  data_ended : {d m : StepStatus} → IsEnded d → IsEnded m → shown ok running running ⟶ shown ok d m

module _ (N : Numbers) where
  abbrev pub view : FullSync N → Shown
  view s = shown (status N zerodha s) (status N sync_daily s) (status N sync_1min s)

  abbrev Follows : FullSync N → FullSync N → Type 0
  Follows s t = view s ⟶ view t

  run_pipeline-Follows :
      (now : N.Number) (g : Stage N) (s : FullSync N)
      → Shape N g s
      → Follows s (run_pipeline N now s)
  unfolding run_pipeline set_step put_step
  run_pipeline-Follows now at_rest s h =
      if_elim (Follows s) s.running_ref (λ busy. stay) (λ free. run_starts h.1 h.2 h.3)
  run_pipeline-Follows now (first_stream t) s h = rw h.0 stay
  run_pipeline-Follows now (both_streams t d m) s h = rw h.0 stay

  status_of-IsEnded : (o : Outcome) → IsEnded (status_of o)
  status_of-IsEnded (fulfilled m) = (refl, refl)
  status_of-IsEnded (rejected m) = (refl, refl)

  zerodha_settled-Follows :
      (start : N.Number) (o : Outcome) (now sync_now : N.Number) (s : FullSync N)
      → Shape N (first_stream start) s
      → Follows s (zerodha_settled N start o now sync_now s)
  unfolding zerodha_settled set_step put_step
  zerodha_settled-Follows start (fulfilled m) now sync_now s h = rw (h.1, h.2, h.3) account_done
  zerodha_settled-Follows start (rejected m) now sync_now s h = rw (h.1, h.2, h.3) account_failed

  settle_both-Follows :
      (start : N.Number) (d m : Option Outcome) (now : N.Number) (s : FullSync N)
      → Shape N (both_streams start none none) s
      → Follows s (settle_both N start d m now s)
  unfolding settle_both syncs_settled set_step put_step
  settle_both-Follows start (some d) (some m) now s h =
      rw (h.1, h.2, h.3) (data_ended (status_of-IsEnded d) (status_of-IsEnded m))
  settle_both-Follows start (some d) none now s h = stay
  settle_both-Follows start none m now s h = stay

  settled-Follows :
      (key : StepKey) (o : Outcome) (now sync_now : N.Number) (g : Stage N) (s : FullSync N)
      → Shape N g s
      → Follows s (settled N key o now sync_now g s)
  unfolding settled
  settled-Follows zerodha o now sync_now at_rest s h = stay
  settled-Follows zerodha o now sync_now (first_stream start) s h =
      zerodha_settled-Follows start o now sync_now s h
  settled-Follows zerodha o now sync_now (both_streams start d m) s h = stay
  settled-Follows sync_daily o now sync_now at_rest s h = stay
  settled-Follows sync_daily o now sync_now (first_stream start) s h = stay
  settled-Follows sync_daily o now sync_now (both_streams start none m) s h =
      settle_both-Follows start (some o) m now s h
  settled-Follows sync_daily o now sync_now (both_streams start (some d) m) s h = stay
  settled-Follows sync_1min o now sync_now at_rest s h = stay
  settled-Follows sync_1min o now sync_now (first_stream start) s h = stay
  settled-Follows sync_1min o now sync_now (both_streams start d none) s h =
      settle_both-Follows start d (some o) now s h
  settled-Follows sync_1min o now sync_now (both_streams start d (some m)) s h = stay

  progress-Follows :
      (key : StepKey) (m : String) (g : Stage N) (s : FullSync N)
      → Shape N g s
      → Follows s (progress N key m g s)
  unfolding progress set_step put_step
  progress-Follows zerodha m at_rest s h = stay
  progress-Follows zerodha m (first_stream start) s h = rw h.1 stay
  progress-Follows zerodha m (both_streams start x y) s h = stay
  progress-Follows sync_daily m at_rest s h = stay
  progress-Follows sync_daily m (first_stream start) s h = stay
  progress-Follows sync_daily m (both_streams start none y) s h = rw h.2 stay
  progress-Follows sync_daily m (both_streams start (some x) y) s h = stay
  progress-Follows sync_1min m at_rest s h = stay
  progress-Follows sync_1min m (first_stream start) s h = stay
  progress-Follows sync_1min m (both_streams start x none) s h = rw h.3 stay
  progress-Follows sync_1min m (both_streams start x (some y)) s h = stay

  sync_event-Follows :
      (e : SyncEvent N) (s : FullSync N) → Agrees N s → Follows s (sync_event N e s)
  unfolding sync_event
  sync_event-Follows (clicked now) s h = run_pipeline-Follows now s.stage s h
  sync_event-Follows (progressed key m) s h = progress-Follows key m s.stage s h
  sync_event-Follows (ended key o now sync_now) s h = settled-Follows key o now sync_now s.stage s h
  sync_event-Follows second_passed s h =
      if_elim (Follows s) (any_running N s) (λ on. stay) (λ off. stay)

  -- After any history, each event leaves what is shown or makes one move of the protocol: a click
  -- with nothing running starts the account step and resets the others, a failed account step ends
  -- the run, a successful one starts both data steps together, and these end together.
  pub sync_event_follows_protocol :
      (es : List (SyncEvent N)) (e : SyncEvent N)
      → view (sync_events N es (idle_sync N))
        ⟶ view (sync_event N e (sync_events N es (idle_sync N)))
  sync_event_follows_protocol es e =
      sync_event-Follows e (sync_events N es (idle_sync N))
        (sync_events-Agrees N es (idle_sync N) (idle_sync-Agrees N))
