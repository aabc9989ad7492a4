-- ===== src/Signals/Hook/Invariant.antt =====
-- What holds of the hook of CockpitUI/src/hooks/useSignals.ts in every state that it reaches.
use mathlib.Core.List.{flatten, append-nil, append_assoc}
use trader_cockpit_app.Prelude.{
  String, false, Option, none, some, List, [], ◌∷◌, ◌++◌, ◌≡◌, refl, sym, ap, ◌∙◌, arith, inl, inr,
  length, Bool-cases, if_elim,
}
use trader_cockpit_app.Js.Numbers.{Numbers}
use trader_cockpit_app.Js.Collections.{Distinct, Distinct-snoc, has}
use trader_cockpit_app.Signals.Types.{Signal}
use trader_cockpit_app.Signals.Market.{InstrumentMetrics}
use trader_cockpit_app.Signals.Feed.{prepare, stored}
use trader_cockpit_app.Signals.Feed.Invariant.{
  IsWellFormed, ingest-IsWellFormed, apply_regime-IsWellFormed, restore_signals-IsWellFormed,
}
use trader_cockpit_app.Signals.Hook.{
  Hook, Message, ignored, market, regime_update, signal, init, post, queue_metrics,
  flush_metrics_batch, merge_metrics, with_signal, push_signal, push_all, receive, toggle_pause,
  clear_signals, Event, message, pause_button, clear_button, metrics_due, metrics_arrive, step, run,
}

flatten-snoc {ℓ} :
    {A : Type ℓ} (L : List (List A)) (l : List A) → flatten (L ++ (l ∷ [])) ≡ flatten L ++ l
unfolding flatten
flatten-snoc [] l = append-nil l
flatten-snoc (k ∷ L) l = rw (flatten-snoc L l) (sym (append_assoc k (flatten L) l))

has_suffix : (xs ys : List String) (k : String) → has (xs ++ ys) k ≡ false → has ys k ≡ false
has_suffix [] ys k h = h
has_suffix (x ∷ xs) ys k h = has_suffix xs ys k (ground arith)

module _ (N : Numbers) where
  -- The rows are well formed, the badge counts the queue, nothing is queued while the feed runs,
  -- the symbols asked for and to be asked for are the known ones in order of arrival, none of them
  -- twice, and no symbol waits without a timer.
  pub record IsValid (h : Hook N) : Type 0 where
    pub rows : IsWellFormed N h.signals
    pub counted : h.pending_count ≡ length h.pending
    pub running : h.paused ≡ false → h.pending ≡ []
    pub asked : flatten h.requests ++ h.metrics_pending ≡ h.fetching
    pub distinct : Distinct h.fetching
    pub timed : h.metrics_timer ≡ false → h.metrics_pending ≡ []

  queue_metrics-IsValid :
      (symbol : String) (h : Hook N) → IsValid h → IsValid (queue_metrics N symbol h)
  unfolding queue_metrics
  queue_metrics-IsValid symbol h v = elim (Bool-cases (has h.fetching symbol)) [
    | inl known ↦ rw known v
    | inr new ↦
        let absent : has h.metrics_pending symbol ≡ false =
          has_suffix (flatten h.requests) h.metrics_pending symbol (rw v.asked new) in
        rw new (record {
          rows = v.rows;
          counted = v.counted;
          running = v.running;
          asked = rw absent (
              sym (append_assoc (flatten h.requests) h.metrics_pending (symbol ∷ []))
              ∙ ap (λ l. l ++ (symbol ∷ [])) v.asked);
          distinct = Distinct-snoc h.fetching symbol new v.distinct;
          timed = λ e. cc;
        })
  ]

  with_signal-IsValid : (s : Signal N) (h : Hook N) → IsValid h → IsValid (with_signal N s h)
  with_signal-IsValid s h v = record {
    rows = ingest-IsWellFormed N s h.signals v.rows;
    counted = v.counted;
    running = v.running;
    asked = v.asked;
    distinct = v.distinct;
    timed = v.timed;
  }

  push_signal-IsValid : (s : Signal N) (h : Hook N) → IsValid h → IsValid (push_signal N s h)
  unfolding push_signal
  push_signal-IsValid s h v =
      queue_metrics-IsValid _ _ (with_signal-IsValid (prepare N h.regime_by_symbol s) h v)

  push_all-IsValid : (ss : List (Signal N)) (h : Hook N) → IsValid h → IsValid (push_all N ss h)
  unfolding push_all
  push_all-IsValid [] h v = v
  push_all-IsValid (s ∷ ss) h v =
      push_all-IsValid ss (push_signal N s h) (push_signal-IsValid s h v)

  post-IsValid :
      (symbols : List String) (h : Hook N)
      → IsValid (record h { metrics_pending = symbols })
      → IsValid (post N symbols (record h { metrics_pending = []; metrics_timer = false }))
  post-IsValid [] h v = record {
    rows = v.rows;
    counted = v.counted;
    running = v.running;
    asked = v.asked;
    distinct = v.distinct;
    timed = λ e. refl;
  }
  post-IsValid (s ∷ ss) h v = record {
    rows = v.rows;
    counted = v.counted;
    running = v.running;
    asked =
        append-nil (flatten (h.requests ++ ((s ∷ ss) ∷ [])))
        ∙ (flatten-snoc h.requests (s ∷ ss) ∙ v.asked);
    distinct = v.distinct;
    timed = λ e. refl;
  }

  receive-IsValid : (m : Message N) (h : Hook N) → IsValid h → IsValid (receive N m h)
  unfolding receive
  receive-IsValid ignored h v = v
  receive-IsValid (market phase n b s) h v = record {
    rows = v.rows;
    counted = v.counted;
    running = v.running;
    asked = v.asked;
    distinct = v.distinct;
    timed = v.timed;
  }
  receive-IsValid (regime_update symbol r) h v = record {
    rows = apply_regime-IsWellFormed N symbol r h.signals v.rows;
    counted = v.counted;
    running = v.running;
    asked = v.asked;
    distinct = v.distinct;
    timed = v.timed;
  }
  receive-IsValid (signal s) h v =
      if_elim IsValid h.paused
        (λ held. record {
          rows = v.rows;
          counted = refl;
          running = λ e. cc;
          asked = v.asked;
          distinct = v.distinct;
          timed = v.timed;
        })
        (λ running. push_signal-IsValid s h v)

  toggle_pause-IsValid : (h : Hook N) → IsValid h → IsValid (toggle_pause N h)
  unfolding toggle_pause
  toggle_pause-IsValid h v = elim (Bool-cases h.paused) [
    | inl held ↦ rw held (
        push_all-IsValid h.pending _ (record {
          rows = v.rows;
          counted = refl;
          running = λ e. refl;
          asked = v.asked;
          distinct = v.distinct;
          timed = v.timed;
        }))
    | inr running ↦ rw running (record {
      rows = v.rows;
      counted = v.counted;
      running = λ e. cc;
      asked = v.asked;
      distinct = v.distinct;
      timed = v.timed;
    })
  ]

  merge_metrics-IsValid :
      (d : Option (List (String × InstrumentMetrics N))) (h : Hook N)
      → IsValid h
      → IsValid (merge_metrics N d h)
  unfolding merge_metrics
  merge_metrics-IsValid none h v = v
  merge_metrics-IsValid (some []) h v = v
  merge_metrics-IsValid (some (e ∷ es)) h v = record {
    rows = v.rows;
    counted = v.counted;
    running = v.running;
    asked = v.asked;
    distinct = v.distinct;
    timed = v.timed;
  }

  -- Every event keeps the hook valid.
  pub step-IsValid : (e : Event N) (h : Hook N) → IsValid h → IsValid (step N e h)
  unfolding step clear_signals flush_metrics_batch
  step-IsValid (message m) h v = receive-IsValid m h v
  step-IsValid pause_button h v = toggle_pause-IsValid h v
  step-IsValid clear_button h v = record {
    rows = record { bounded = omega arith; unique = tt; keyed = tt };
    counted = refl;
    running = λ e. refl;
    asked = v.asked;
    distinct = v.distinct;
    timed = v.timed;
  }
  step-IsValid metrics_due h v =
      if_elim IsValid h.metrics_timer (λ set. post-IsValid h.metrics_pending h v) (λ unset. v)
  step-IsValid (metrics_arrive d) h v = merge_metrics-IsValid d h v

  run-IsValid : (es : List (Event N)) (h : Hook N) → IsValid h → IsValid (run N es h)
  unfolding run
  run-IsValid [] h v = v
  run-IsValid (e ∷ es) h v = run-IsValid es (step N e h) (step-IsValid e h v)

  -- After any history of the page, opened on rows that an earlier page stored, the hook is valid.
  pub run-init-IsValid :
      (rows : List (Signal N)) (es : List (Event N))
      → IsWellFormed N rows
      → IsValid (run N es (init N (some (stored N rows))))
  unfolding init
  run-init-IsValid rows es w = run-IsValid es _ (record {
    rows = restore_signals-IsWellFormed N rows w;
    counted = refl;
    running = λ e. refl;
    asked = unfold flatten in refl;
    distinct = tt;
    timed = λ e. refl;
  })
