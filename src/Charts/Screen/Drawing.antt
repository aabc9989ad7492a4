-- ===== src/Charts/Screen/Drawing.antt =====
-- What CockpitUI/src/components/dashboard/useDailyChart.ts draws.
use trader_cockpit_app.Prelude.{
  ℕ, String, true, false, Option, none, some, List, [], ◌∷◌, ◌≡◌, refl, sym, ap, subst, arith, ◌⊎◌,
  inl, inr, nat_eq, if_elim,
}
use trader_cockpit_app.Prelude.Int.{ℤ}
use trader_cockpit_app.Js.Numbers.{Numbers}
use trader_cockpit_app.Js.Format.{Format}
use trader_cockpit_app.Js.Text.{Locale}
use trader_cockpit_app.Charts.{Calendar, ChartBar}
use trader_cockpit_app.Charts.Frames.{Timeframe}
use trader_cockpit_app.Charts.Screen.{
  Indicator, ChartReply, got, failed, Chart, bars_of, data_of, shown_if, open_chart, new_chart,
  crosshair_move, chart_answer, refresh_vp, toggle, ChartEvent, frame_chosen, answered, toggled,
  moved, pointed, chart_step, chart_steps,
}

module _ {N : Numbers} (F : Format N) (locale : Locale) (calendar : Calendar) where
  -- The series show what is kept of the candles received for the timeframe, as far as it is
  -- switched on.
  pub record ShowsFrame (received : List (ChartBar N)) (s : Chart N) : Type 0 where
    pub kept : s.data_ref ≡ data_of N s.tf (bars_of N locale calendar s.tf received)
    pub candle : s.drawn.candle ≡ s.data_ref.bars
    pub fast : s.drawn.fast ≡ shown_if N s.vis.ema50 s.data_ref.fast
    pub slow : s.drawn.slow ≡ shown_if N s.vis.ema200 s.data_ref.slow
    pub vol : s.drawn.vol ≡ shown_if N s.vis.vol s.data_ref.vol

  -- In the history the run was answered with these candles.
  pub data CameFor (run : ℕ) (received : List (ChartBar N)) : List (ChartEvent N) → Type 0 where
    now : {es : List (ChartEvent N)} → CameFor run received (answered run (got received) ∷ es)
    later :
        {e : ChartEvent N} {es : List (ChartEvent N)}
        → CameFor run received es
        → CameFor run received (e ∷ es)

  -- `P` says of the candles shown which run asked for them.
  abbrev pub ShowsWhenLoaded : (ℕ → List (ChartBar N) → Type 0) → Chart N → Type 0
  ShowsWhenLoaded P s =
      s.loading ≡ false
      → s.error ≡ none
      → (received : List (ChartBar N)) × P s.current_run received × ShowsFrame received s

  ShowsWhenLoaded-weaken :
      (P Q : ℕ → List (ChartBar N) → Type 0) (s : Chart N)
      → ((run : ℕ) (received : List (ChartBar N)) → P run received → Q run received)
      → ShowsWhenLoaded P s
      → ShowsWhenLoaded Q s
  ShowsWhenLoaded-weaken P Q s f h l e =
      let (received, p, k) = h l e in (received, f s.current_run received p, k)

  abbrev OrNow : ChartEvent N → (ℕ → List (ChartBar N) → Type 0) → ℕ → List (ChartBar N) → Type 0
  OrNow e P run received = (e ≡ answered run (got received)) ⊎ P run received

  nat_eq-true : (a b : ℕ) → nat_eq a b ≡ true → a ≡ b
  nat_eq-true a b h = ground arith

  chart_answer-ShowsWhenLoaded :
      (P : ℕ → List (ChartBar N) → Type 0) (run : ℕ) (r : ChartReply (List (ChartBar N)))
      → (s : Chart N) → ShowsWhenLoaded P s
      → ShowsWhenLoaded (OrNow (answered run r) P) (chart_answer F locale calendar run r s)
  unfolding chart_answer
  chart_answer-ShowsWhenLoaded P run (failed m) s h =
      if_elim (ShowsWhenLoaded (OrNow (answered run (failed m)) P)) (nat_eq run s.current_run)
        (λ now_due l e. cc)
        (λ late. ShowsWhenLoaded-weaken P (OrNow (answered run (failed m)) P) s (λ n x p. inr p) h)
  chart_answer-ShowsWhenLoaded P run (got received) s h =
      if_elim (ShowsWhenLoaded (OrNow (answered run (got received)) P)) (nat_eq run s.current_run)
        (λ now_due l e. (
          received,
          inl (ap (λ n. answered n (got received)) (nat_eq-true run s.current_run now_due)),
          record { kept = refl; candle = refl; fast = refl; slow = refl; vol = refl },
        ))
        (λ late.
          ShowsWhenLoaded-weaken P (OrNow (answered run (got received)) P) s (λ n x p. inr p) h)

  refresh_vp-ShowsWhenLoaded :
      (P : ℕ → List (ChartBar N) → Type 0) (range : Option (ℤ × ℤ)) (s : Chart N)
      → ShowsWhenLoaded P s
      → ShowsWhenLoaded P (refresh_vp F locale calendar range s)
  unfolding refresh_vp
  refresh_vp-ShowsWhenLoaded P range s h l e =
      let (received, p, k) = h l e in
      (
        received,
        p,
        record { kept = k.kept; candle = k.candle; fast = k.fast; slow = k.slow; vol = k.vol },
      )

  toggle-ShowsWhenLoaded :
      (P : ℕ → List (ChartBar N) → Type 0) (key : Indicator) (range : Option (ℤ × ℤ)) (s : Chart N)
      → ShowsWhenLoaded P s
      → ShowsWhenLoaded P (toggle F locale calendar key range s)
  unfolding toggle
  toggle-ShowsWhenLoaded P key range s h l e =
      let (received, p, k) = h l e in
      (
        received,
        p,
        record { kept = k.kept; candle = k.candle; fast = refl; slow = refl; vol = refl },
      )

  new_chart-ShowsWhenLoaded :
      (P : ℕ → List (ChartBar N) → Type 0) (tf : Timeframe) (s : Chart N)
      → ShowsWhenLoaded P (new_chart N tf s)
  unfolding new_chart
  new_chart-ShowsWhenLoaded P tf s l e = cc

  crosshair_move-ShowsWhenLoaded :
      (P : ℕ → List (ChartBar N) → Type 0) (t : Option String) (s : Chart N)
      → ShowsWhenLoaded P s
      → ShowsWhenLoaded P (crosshair_move N t s)
  unfolding crosshair_move
  crosshair_move-ShowsWhenLoaded P none s h l e =
      let (received, p, k) = h l e in
      (
        received,
        p,
        record { kept = k.kept; candle = k.candle; fast = k.fast; slow = k.slow; vol = k.vol },
      )
  crosshair_move-ShowsWhenLoaded P (some t) s h l e =
      let (received, p, k) = h l e in
      (
        received,
        p,
        record { kept = k.kept; candle = k.candle; fast = k.fast; slow = k.slow; vol = k.vol },
      )

  chart_step-ShowsWhenLoaded :
      (P : ℕ → List (ChartBar N) → Type 0) (e : ChartEvent N) (s : Chart N)
      → ShowsWhenLoaded P s
      → ShowsWhenLoaded (OrNow e P) (chart_step F locale calendar e s)
  chart_step-ShowsWhenLoaded P (frame_chosen tf) s h =
      new_chart-ShowsWhenLoaded (OrNow (frame_chosen tf) P) tf s
  chart_step-ShowsWhenLoaded P (answered run r) s h = chart_answer-ShowsWhenLoaded P run r s h
  chart_step-ShowsWhenLoaded P (toggled key range) s h =
      ShowsWhenLoaded-weaken P (OrNow (toggled key range) P) (toggle F locale calendar key range s)
        (λ n x p. inr p) (toggle-ShowsWhenLoaded P key range s h)
  chart_step-ShowsWhenLoaded P (moved range) s h =
      ShowsWhenLoaded-weaken P (OrNow (moved range) P) (refresh_vp F locale calendar range s)
        (λ n x p. inr p) (refresh_vp-ShowsWhenLoaded P range s h)
  chart_step-ShowsWhenLoaded P (pointed t) s h =
      ShowsWhenLoaded-weaken P (OrNow (pointed t) P) (crosshair_move N t s) (λ n x p. inr p)
        (crosshair_move-ShowsWhenLoaded P t s h)

  or_came :
      (P : ℕ → List (ChartBar N) → Type 0) (e : ChartEvent N) (es : List (ChartEvent N))
      → (run : ℕ) (received : List (ChartBar N)) → CameFor run received es ⊎ OrNow e P run received
      → CameFor run received (e ∷ es) ⊎ P run received
  or_came P e es run received (inl came) = inl (later came)
  or_came P e es run received (inr (inl same)) =
      inl (subst (λ x. CameFor run received (x ∷ es)) (sym same) now)
  or_came P e es run received (inr (inr p)) = inr p

  chart_steps-ShowsWhenLoaded :
      (P : ℕ → List (ChartBar N) → Type 0) (es : List (ChartEvent N)) (s : Chart N)
      → ShowsWhenLoaded P s
      → ShowsWhenLoaded
          (λ run received. CameFor run received es ⊎ P run received)
          (chart_steps F locale calendar es s)
  chart_steps-ShowsWhenLoaded P [] s h =
      ShowsWhenLoaded-weaken P (λ run received. CameFor run received [] ⊎ P run received) s
        (λ n x p. inr p) h
  chart_steps-ShowsWhenLoaded P (e ∷ es) s h =
      ShowsWhenLoaded-weaken (λ run received. CameFor run received es ⊎ OrNow e P run received)
        (λ run received. CameFor run received (e ∷ es) ⊎ P run received)
        (chart_steps F locale calendar es (chart_step F locale calendar e s)) (or_came P e es)
        (chart_steps-ShowsWhenLoaded (OrNow e P) es (chart_step F locale calendar e s)
          (chart_step-ShowsWhenLoaded P e s h))

  -- In any history of changes of the timeframe, clicks on indicators, moves and answers, these in
  -- any order: a chart that is no longer loading and has no error shows candles with which its own
  -- request was answered, the one for the timeframe now chosen and not an earlier one, as resampled
  -- for that timeframe, and their averages and volumes as far as they are switched on.
  pub chart_steps-open_chart-ShowsWhenLoaded :
      (es : List (ChartEvent N))
      → ShowsWhenLoaded
          (λ run received. CameFor run received es)
          (chart_steps F locale calendar es (open_chart N))
  unfolding open_chart
  chart_steps-open_chart-ShowsWhenLoaded es =
      ShowsWhenLoaded-weaken (λ run received. CameFor run received es ⊎ ⊥)
        (λ run received. CameFor run received es) (chart_steps F locale calendar es (open_chart N))
        (λ run received c. elim c [ inl came ↦ came | inr none_yet ↦ absurd none_yet ])
        (chart_steps-ShowsWhenLoaded (λ run received. ⊥) es (open_chart N) (λ l e. cc))
