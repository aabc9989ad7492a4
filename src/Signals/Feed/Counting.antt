-- ===== src/Signals/Feed/Counting.antt =====
-- How often a kind of signal was seen: `_count` in CockpitUI/src/hooks/useSignals.ts.
use trader_cockpit_app.Prelude.{
  ℕ, suc, zero, ◌+◌, eq_refl, Bool, true, false, none, some, List, [], ◌∷◌, ◌≡◌, refl, subst, arith,
  find_index, find_index-head, truthy, if◌then◌else◌,
}
use trader_cockpit_app.Js.Numbers.{Numbers}
use trader_cockpit_app.Signals.Types.{Signal}
use trader_cockpit_app.Signals.Feed.{key, has_key, keyed, repeated, ingest_live, ingest}
use trader_cockpit_app.Signals.Feed.Order.{prepend-head}

module _ (N : Numbers) where
  -- The rows after the same signal came `n` times.
  pub ingest_times : ℕ → Signal N → List (Signal N) → List (Signal N)
  ingest_times zero s rows = rows
  ingest_times (suc n) s rows = ingest_times n s (ingest N s rows).0

  -- The first row is of the signal's kind and was counted `c` times.
  abbrev pub CountedOnTop : Signal N → ℕ → List (Signal N) → Type 0
  CountedOnTop s c [] = ⊥
  CountedOnTop s c (r ∷ rest) =
      (r.dedup_key ≡ some (key N s)) × (r.count ≡ some c) × (truthy r.from_catchup ≡ false)

  ingest-repeat :
      (s r : Signal N) (rest : List (Signal N))
      → truthy s.catchup ≡ false
      → r.dedup_key ≡ some (key N s)
      → (ingest N s (r ∷ rest)).0 ≡ repeated N s r ∷ rest
  unfolding ingest ingest_live
  ingest-repeat s r rest live same = rw live (
      rw (find_index-head (has_key N (key N s)) r rest (rw same (eq_refl (key N s))), ingest_live)
        refl)

  ingest_times-CountedOnTop :
      (n c : ℕ) (s : Signal N) (rows : List (Signal N))
      → truthy s.catchup ≡ false
      → CountedOnTop s c rows
      → CountedOnTop s (n + c) (ingest_times n s rows)
  unfolding ingest_times
  ingest_times-CountedOnTop zero c s rows live top =
      subst (λ m. CountedOnTop s m rows) (let e : c ≡ 0 + c = omega arith in e) top
  ingest_times-CountedOnTop (suc n) c s [] live top = elim top [ ]
  ingest_times-CountedOnTop (suc n) c s (r ∷ rest) live (same, counted, counting) =
      rw (ingest-repeat s r rest live same) (
        subst (λ m. CountedOnTop s m (ingest_times n s (repeated N s r ∷ rest)))
          (let e : n + (c + 1) ≡ suc n + c = omega arith in e)
          (ingest_times-CountedOnTop n (c + 1) s (repeated N s r ∷ rest) live
            (same, rw counting (rw counted), refl)))

  -- The first live signal of its kind opens a row that was counted once.
  ingest_first :
      (s : Signal N) (rows : List (Signal N))
      → truthy s.catchup ≡ false
      → truthy s.from_catchup ≡ false
      → find_index (has_key N (key N s)) rows ≡ none
      → CountedOnTop s 1 (ingest N s rows).0
  unfolding ingest ingest_live
  ingest_first s rows live plain missing =
      let (rest, e, _, _) = prepend-head N (record (keyed N s) { count = some 1 }) rows in
      rw live (rw (missing, ingest_live) (rw e (refl, refl, plain)))

  -- A live signal of a kind not shown before, received n + 1 times in a row, stands on top with
  -- the count n + 1.
  pub count-ingest_times :
      (n : ℕ) (s : Signal N) (rows : List (Signal N))
      → truthy s.catchup ≡ false
      → truthy s.from_catchup ≡ false
      → find_index (has_key N (key N s)) rows ≡ none
      → CountedOnTop s (suc n) (ingest_times (suc n) s rows)
  unfolding ingest_times
  count-ingest_times n s rows live plain missing =
      subst (λ m. CountedOnTop s m (ingest_times n s (ingest N s rows).0))
        (let e : n + 1 ≡ suc n = omega arith in e)
        (ingest_times-CountedOnTop n 1 s (ingest N s rows).0 live
          (ingest_first s rows live plain missing))

  -- The first row is of the signal's kind and shows the count c; `caught` says whether it came from
  -- the catch-up and no live signal has reached it since.
  abbrev pub OnTop : Signal N → ℕ → Bool → List (Signal N) → Type 0
  OnTop s c caught [] = ⊥
  OnTop s c caught (r ∷ rest) =
      (r.dedup_key ≡ some (key N s)) × (r.count ≡ some c) × (truthy r.from_catchup ≡ caught)

  -- Where the first row is of the signal's kind, shows the count c, and is still marked as coming
  -- from the catch-up, n + 1 live signals of its kind in a row give the count n + c: the first of
  -- them only takes the row over. Where that row is not so marked, each of them is counted, and they
  -- give n + 1 + c. In both cases the row stays on top and is not marked afterwards.
  pub count-ingest_times_after_catchup :
      (n c : ℕ) (caught : Bool) (s : Signal N) (rows : List (Signal N))
      → truthy s.catchup ≡ false
      → OnTop s c caught rows
      → CountedOnTop s ((if caught then n else suc n) + c) (ingest_times (suc n) s rows)
  unfolding ingest_times
  count-ingest_times_after_catchup n c caught s [] live top = elim top [ ]
  count-ingest_times_after_catchup n c true s (r ∷ rest) live (same, counted, caught) =
      rw (ingest-repeat s r rest live same) (
        ingest_times-CountedOnTop n c s (repeated N s r ∷ rest) live
          (same, rw caught counted, refl))
  count-ingest_times_after_catchup n c false s (r ∷ rest) live top =
      ingest_times-CountedOnTop (suc n) c s (r ∷ rest) live top
