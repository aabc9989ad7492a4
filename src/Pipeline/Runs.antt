-- ===== src/Pipeline/Runs.antt =====
-- Runs of the full sync of CockpitUI/src/components/admin/useFullSync.ts, over every order of its
-- events.
use trader_cockpit_app.Prelude.{
  ℕ, ◌+◌, String, ◌≡◌, ◌≢◌, refl, if_elim, Bool, true, false, ◌||◌, Option, none, some, List, [],
  ◌∷◌, arith, not, sym, subst, All,
}
use trader_cockpit_app.Js.Numbers.{Numbers}
use trader_cockpit_app.Pipeline.{
  StepStatus, idle, running, ok, error, StepKey, zerodha, sync_daily, sync_1min, Outcome, fulfilled,
  rejected, is_idle, is_running, is_error, status_of, Stage, at_rest, first_stream, both_streams,
  FullSync, step_of, put_step, set_step, any_running, all_done, any_error, run_pipeline,
  zerodha_settled, syncs_settled, settle_both, settled, progress, SyncEvent, clicked, progressed,
  ended, second_passed, sync_event, sync_events, idle_sync,
}

abbrev pub is_ok : StepStatus → Bool
is_ok ok = true
is_ok _ = false

module _ (N : Numbers) where
  abbrev pub status : StepKey → FullSync N → StepStatus
  status k s = (step_of N k s.states).status

  -- What the steps show while the run stands at a stage.
  abbrev pub Shape : Stage N → FullSync N → Type 0
  Shape at_rest s =
      (s.running_ref ≡ false)
      × (is_running (status zerodha s) ≡ false)
      × (is_running (status sync_daily s) ≡ false)
      × (is_running (status sync_1min s) ≡ false)
      × (is_idle (status sync_daily s) || is_ok (status zerodha s) ≡ true)
      × (is_idle (status sync_1min s) || is_ok (status zerodha s) ≡ true)
  Shape (first_stream t) s =
      (s.running_ref ≡ true)
      × (status zerodha s ≡ running)
      × (status sync_daily s ≡ idle)
      × (status sync_1min s ≡ idle)
  Shape (both_streams t d m) s =
      (s.running_ref ≡ true)
      × (status zerodha s ≡ ok)
      × (status sync_daily s ≡ running)
      × (status sync_1min s ≡ running)

  -- The button's state and the guard agree, and the data steps run after the account step only.
  pub record IsSound (s : FullSync N) : Type 0 where
    pub one_run : s.running_ref ≡ any_running N s
    pub daily_after : status sync_daily s ≢ idle → status zerodha s ≡ ok
    pub minute_after : status sync_1min s ≢ idle → status zerodha s ≡ ok

  Shape-IsSound : (g : Stage N) (s : FullSync N) → Shape g s → IsSound s
  unfolding any_running
  Shape-IsSound at_rest s h = record {
    one_run = ground arith;
    daily_after = λ n. ground arith;
    minute_after = λ n. ground arith;
  }
  Shape-IsSound (first_stream t) s h = record {
    one_run = ground arith;
    daily_after = λ n. ground arith;
    minute_after = λ n. ground arith;
  }
  Shape-IsSound (both_streams t d m) s h = record {
    one_run = ground arith;
    daily_after = λ n. ground arith;
    minute_after = λ n. ground arith;
  }

  -- The steps show what the stage says.
  abbrev pub Agrees : FullSync N → Type 0
  Agrees s = Shape s.stage s

  run_pipeline-Agrees : (now : N.Number) (s : FullSync N) → Agrees s → Agrees (run_pipeline N now s)
  unfolding run_pipeline set_step put_step
  run_pipeline-Agrees now s h =
      if_elim Agrees s.running_ref (λ busy. h) (λ free. (refl, refl, refl, refl))

  zerodha_settled-Agrees :
      (start : N.Number) (o : Outcome) (now sync_now : N.Number) (s : FullSync N)
      → Shape (first_stream start) s
      → Agrees (zerodha_settled N start o now sync_now s)
  unfolding zerodha_settled set_step put_step
  zerodha_settled-Agrees start (fulfilled m) now sync_now s h = (h.0, refl, refl, refl)
  zerodha_settled-Agrees start (rejected m) now sync_now s h =
      (refl, refl, ground arith, ground arith, ground arith, ground arith)

  settle_both-Agrees :
      (start : N.Number) (d m : Option Outcome) (now : N.Number) (s : FullSync N)
      → Shape (both_streams start none none) s
      → Agrees s
      → Agrees (settle_both N start d m now s)
  unfolding settle_both syncs_settled set_step put_step
  settle_both-Agrees start (some (fulfilled a)) (some (fulfilled b)) now s h k =
      (refl, ground arith, refl, refl, ground arith, ground arith)
  settle_both-Agrees start (some (fulfilled a)) (some (rejected b)) now s h k =
      (refl, ground arith, refl, refl, ground arith, ground arith)
  settle_both-Agrees start (some (rejected a)) (some (fulfilled b)) now s h k =
      (refl, ground arith, refl, refl, ground arith, ground arith)
  settle_both-Agrees start (some (rejected a)) (some (rejected b)) now s h k =
      (refl, ground arith, refl, refl, ground arith, ground arith)
  settle_both-Agrees start (some d) none now s h k = h
  settle_both-Agrees start none m now s h k = h

  settled-Agrees :
      (key : StepKey) (o : Outcome) (now sync_now : N.Number) (g : Stage N) (s : FullSync N)
      → Shape g s
      → Agrees s
      → Agrees (settled N key o now sync_now g s)
  unfolding settled
  settled-Agrees zerodha o now sync_now at_rest s h k = k
  settled-Agrees zerodha o now sync_now (first_stream start) s h k =
      zerodha_settled-Agrees start o now sync_now s h
  settled-Agrees zerodha o now sync_now (both_streams start d m) s h k = k
  settled-Agrees sync_daily o now sync_now at_rest s h k = k
  settled-Agrees sync_daily o now sync_now (first_stream start) s h k = k
  settled-Agrees sync_daily o now sync_now (both_streams start none m) s h k =
      settle_both-Agrees start (some o) m now s h k
  settled-Agrees sync_daily o now sync_now (both_streams start (some d) m) s h k = k
  settled-Agrees sync_1min o now sync_now at_rest s h k = k
  settled-Agrees sync_1min o now sync_now (first_stream start) s h k = k
  settled-Agrees sync_1min o now sync_now (both_streams start d none) s h k =
      settle_both-Agrees start d (some o) now s h k
  settled-Agrees sync_1min o now sync_now (both_streams start d (some m)) s h k = k

  progress-Agrees :
      (key : StepKey) (m : String) (g : Stage N) (s : FullSync N)
      → s.stage ≡ g
      → Shape g s
      → Agrees s
      → Agrees (progress N key m g s)
  unfolding progress set_step put_step
  progress-Agrees zerodha m at_rest s e h k = k
  progress-Agrees zerodha m (first_stream start) s e h k = rw e (h.0, refl, h.2, h.3)
  progress-Agrees zerodha m (both_streams start x y) s e h k = k
  progress-Agrees sync_daily m at_rest s e h k = k
  progress-Agrees sync_daily m (first_stream start) s e h k = k
  progress-Agrees sync_daily m (both_streams start none y) s e h k = rw e (h.0, h.1, refl, h.3)
  progress-Agrees sync_daily m (both_streams start (some x) y) s e h k = k
  progress-Agrees sync_1min m at_rest s e h k = k
  progress-Agrees sync_1min m (first_stream start) s e h k = k
  progress-Agrees sync_1min m (both_streams start x none) s e h k = rw e (h.0, h.1, h.2, refl)
  progress-Agrees sync_1min m (both_streams start x (some y)) s e h k = k

  tick-Shape : (n : ℕ) (g : Stage N) (s : FullSync N) → Shape g s → Shape g (record s { tick = n })
  tick-Shape n at_rest s h = h
  tick-Shape n (first_stream t) s h = h
  tick-Shape n (both_streams t d m) s h = h

  sync_event-Agrees : (e : SyncEvent N) (s : FullSync N) → Agrees s → Agrees (sync_event N e s)
  unfolding sync_event
  sync_event-Agrees (clicked now) s h = run_pipeline-Agrees now s h
  sync_event-Agrees (progressed key m) s h = progress-Agrees key m s.stage s refl h h
  sync_event-Agrees (ended key o now sync_now) s h = settled-Agrees key o now sync_now s.stage s h h
  sync_event-Agrees second_passed s h =
      if_elim Agrees (any_running N s) (λ on. tick-Shape (s.tick + 1) s.stage s h) (λ off. h)

  pub sync_events-Agrees :
      (es : List (SyncEvent N)) (s : FullSync N) → Agrees s → Agrees (sync_events N es s)
  unfolding sync_events
  sync_events-Agrees [] s h = h
  sync_events-Agrees (e ∷ es) s h =
      sync_events-Agrees es (sync_event N e s) (sync_event-Agrees e s h)

  pub idle_sync-Agrees : Agrees (idle_sync N)
  unfolding idle_sync
  idle_sync-Agrees = (refl, refl, refl, refl, refl, refl)

  -- Whatever the user clicks and whatever the streams answer, in any order: the flag that keeps a
  -- second run out is up exactly while a step is shown as running, and a data step is not idle only
  -- after the account step has succeeded.
  pub sync_events-IsSound : (es : List (SyncEvent N)) → IsSound (sync_events N es (idle_sync N))
  sync_events-IsSound es =
      let s = sync_events N es (idle_sync N) in
      Shape-IsSound s.stage s (sync_events-Agrees es (idle_sync N) idle_sync-Agrees)

  -- A run is over: nothing is running, the account step has succeeded, and each data step shows how
  -- its own stream ended.
  pub record IsOver (s : FullSync N) (daily minute : Outcome) : Type 0 where
    pub free : s.running_ref ≡ false
    pub done : all_done N s ≡ true
    pub account : status zerodha s ≡ ok
    pub daily_end : status sync_daily s ≡ status_of daily
    pub minute_end : status sync_1min s ≡ status_of minute
    pub failed : any_error N s ≡ (is_error (status_of daily) || is_error (status_of minute))

  -- What happens while streams are read: progress, clicks and the clock, but no end of a stream.
  abbrev pub IsQuiet : SyncEvent N → Type 0
  IsQuiet (ended key o now sync_now) = ⊥
  IsQuiet _ = Unit

  -- A run stands at a stage, and shows it.
  abbrev At : Stage N → FullSync N → Type 0
  At g s = (s.stage ≡ g) × Shape g s

  progress-At :
      (key : StepKey) (m : String) (g : Stage N) (s : FullSync N)
      → At g s
      → At g (progress N key m g s)
  unfolding progress set_step put_step
  progress-At zerodha m at_rest s h = h
  progress-At zerodha m (first_stream t) s (e, h) = (e, (h.0, refl, h.2, h.3))
  progress-At zerodha m (both_streams t x y) s h = h
  progress-At sync_daily m at_rest s h = h
  progress-At sync_daily m (first_stream t) s h = h
  progress-At sync_daily m (both_streams t none y) s (e, h) = (e, (h.0, h.1, refl, h.3))
  progress-At sync_daily m (both_streams t (some x) y) s h = h
  progress-At sync_1min m at_rest s h = h
  progress-At sync_1min m (first_stream t) s h = h
  progress-At sync_1min m (both_streams t x none) s (e, h) = (e, (h.0, h.1, h.2, refl))
  progress-At sync_1min m (both_streams t x (some y)) s h = h

  quiet-At :
      (e : SyncEvent N) (g : Stage N) (s : FullSync N)
      → IsQuiet e
      → s.running_ref ≡ true
      → At g s
      → At g (sync_event N e s)
  unfolding sync_event run_pipeline
  quiet-At (clicked now) g s q on h = if_elim (At g) s.running_ref (λ busy. h) (λ free. cc)
  quiet-At (progressed key m) g s q on h =
      subst (λ x. At g (progress N key m x s)) (sym h.0) (progress-At key m g s h)
  quiet-At (ended key o now sync_now) g s q on h = absurd q
  quiet-At second_passed g s q on h =
      if_elim (At g) (any_running N s) (λ yes_tick. (h.0, tick-Shape (s.tick + 1) g s h.1))
        (λ no_tick. h)

  quiet-first :
      (es : List (SyncEvent N)) (t : N.Number) (s : FullSync N)
      → All IsQuiet es
      → At (first_stream t) s
      → At (first_stream t) (sync_events N es s)
  unfolding sync_events
  quiet-first [] t s q h = h
  quiet-first (e ∷ es) t s q h =
      quiet-first es t (sync_event N e s) q.1 (quiet-At e (first_stream t) s q.0 h.1.0 h)

  quiet-both :
      (es : List (SyncEvent N)) (t : N.Number) (d m : Option Outcome) (s : FullSync N)
      → All IsQuiet es
      → At (both_streams t d m) s
      → At (both_streams t d m) (sync_events N es s)
  unfolding sync_events
  quiet-both [] t d m s q h = h
  quiet-both (e ∷ es) t d m s q h =
      quiet-both es t d m (sync_event N e s) q.1 (quiet-At e (both_streams t d m) s q.0 h.1.0 h)

  run_pipeline-At :
      (now : N.Number) (s : FullSync N)
      → s.running_ref ≡ false
      → At (first_stream now) (run_pipeline N now s)
  unfolding run_pipeline set_step put_step
  run_pipeline-At now s free = rw free (refl, (refl, refl, refl, refl))

  zerodha_ended-At :
      (m : String) (now sync_now t : N.Number) (s : FullSync N)
      → At (first_stream t) s
      → At
          (both_streams sync_now none none)
          (sync_event N (ended zerodha (fulfilled m) now sync_now) s)
  unfolding sync_event settled zerodha_settled set_step put_step
  zerodha_ended-At m now sync_now t s h = rw (h.0) (refl, (h.1.0, refl, refl, refl))

  syncs_settled-IsOver :
      (start now : N.Number) (d m : Outcome) (s : FullSync N)
      → status zerodha s ≡ ok
      → IsOver (syncs_settled N start d m now s) d m
  unfolding syncs_settled set_step put_step all_done any_error
  syncs_settled-IsOver start now (fulfilled a) (fulfilled b) s h = record {
    free = refl;
    done = rw h refl;
    account = h;
    daily_end = refl;
    minute_end = refl;
    failed = rw h refl;
  }
  syncs_settled-IsOver start now (fulfilled a) (rejected b) s h = record {
    free = refl;
    done = rw h refl;
    account = h;
    daily_end = refl;
    minute_end = refl;
    failed = rw h refl;
  }
  syncs_settled-IsOver start now (rejected a) (fulfilled b) s h = record {
    free = refl;
    done = rw h refl;
    account = h;
    daily_end = refl;
    minute_end = refl;
    failed = rw h refl;
  }
  syncs_settled-IsOver start now (rejected a) (rejected b) s h = record {
    free = refl;
    done = rw h refl;
    account = h;
    daily_end = refl;
    minute_end = refl;
    failed = rw h refl;
  }

  -- The ends of the two data streams, the daily one first or last.
  abbrev pub first_end : Bool → Outcome → Outcome → N.Number → SyncEvent N
  first_end true daily minute now = ended sync_daily daily now now
  first_end false daily minute now = ended sync_1min minute now now

  abbrev pub second_end : Bool → Outcome → Outcome → N.Number → SyncEvent N
  second_end daily_first daily minute now = first_end (not daily_first) daily minute now

  abbrev ended_first : Bool → Outcome → Option Outcome
  ended_first true o = some o
  ended_first false o = none

  first_end-At :
      (daily_first : Bool) (daily minute : Outcome) (now t : N.Number) (s : FullSync N)
      → At (both_streams t none none) s
      → At
          (both_streams t (ended_first daily_first daily) (ended_first (not daily_first) minute))
          (sync_event N (first_end daily_first daily minute now) s)
  unfolding sync_event settled settle_both
  first_end-At true daily minute now t s h = rw (h.0) (refl, h.1)
  first_end-At false daily minute now t s h = rw (h.0) (refl, h.1)

  second_end-IsOver :
      (daily_first : Bool) (daily minute : Outcome) (now t : N.Number) (s : FullSync N)
      → At (both_streams t (ended_first daily_first daily) (ended_first (not daily_first) minute)) s
      → IsOver (sync_event N (second_end daily_first daily minute now) s) daily minute
  unfolding sync_event settled settle_both syncs_settled
  second_end-IsOver true daily minute now t s h =
      rw (h.0) (syncs_settled-IsOver t now daily minute s h.1.1)
  second_end-IsOver false daily minute now t s h =
      rw (h.0) (syncs_settled-IsOver t now daily minute s h.1.1)

  account_refused :
      (why : Option String) (now sync_now t : N.Number) (s : FullSync N)
      → At (first_stream t) s
      → let r = sync_event N (ended zerodha (rejected why) now sync_now) s in
        (r.running_ref ≡ false)
        × (status zerodha r ≡ error)
        × (status sync_daily r ≡ idle)
        × (status sync_1min r ≡ idle)
  unfolding sync_event settled zerodha_settled set_step put_step
  account_refused why now sync_now t s h = rw (h.0) (refl, refl, h.1.2, h.1.3)

  -- A click in a state in which no run is under way starts a run that ends. Once the account step has
  -- succeeded and both data streams have ended, in either order and with success or not, nothing is
  -- running and each step shows how its own stream ended; where the account step fails, the run ends
  -- there, with the data steps idle. Between these events there may be any number of progress
  -- messages, of further clicks and of ticks of the clock.
  pub run_pipeline-IsOver :
      (s : FullSync N) (before middle after : List (SyncEvent N)) (m : String) (why : Option String)
      (daily_first : Bool) (daily minute : Outcome) (t0 t1 t2 t3 t4 : N.Number)
      → s.running_ref ≡ false
      → All IsQuiet before
      → All IsQuiet middle
      → All IsQuiet after
      → let started = sync_events N (clicked t0 ∷ before) s in
        let both = sync_events N (ended zerodha (fulfilled m) t1 t2 ∷ middle) started in
        let one = sync_events N (first_end daily_first daily minute t3 ∷ after) both in
        let refused = sync_event N (ended zerodha (rejected why) t1 t2) started in
        IsOver (sync_event N (second_end daily_first daily minute t4) one) daily minute
        × (refused.running_ref ≡ false)
        × (status zerodha refused ≡ error)
        × (status sync_daily refused ≡ idle)
        × (status sync_1min refused ≡ idle)
  unfolding sync_events sync_event
  run_pipeline-IsOver s before middle after m why daily_first daily minute t0 t1 t2 t3 t4 free b c
        a =
      let p = quiet-first before t0 (run_pipeline N t0 s) b (run_pipeline-At t0 s free) in
      let started = sync_events N before (run_pipeline N t0 s) in
      let q = sync_event N (ended zerodha (fulfilled m) t1 t2) started in
      let k = quiet-both middle t2 none none q c (zerodha_ended-At m t1 t2 t0 started p) in
      let both = sync_events N middle q in
      let f = sync_event N (first_end daily_first daily minute t3) both in
      let x =
        quiet-both after t2 (ended_first daily_first daily) (ended_first (not daily_first) minute) f
          a (first_end-At daily_first daily minute t3 t2 both k) in
      let refused = account_refused why t1 t2 t0 started p in
      (
        second_end-IsOver daily_first daily minute t4 t2 (sync_events N after f) x,
        refused.0,
        refused.1,
        refused.2,
        refused.3,
      )
