-- ===== src/Signals/Feed/Replay.antt =====
-- The catch-up that the server replays after each connection: CockpitUI/src/hooks/useSignals.ts,
-- the branch for `_catchup`.
use trader_cockpit_app.Prelude.{
  ℕ, ◌==◌, eq_refl, true, none, some, List, ◌∷◌, ◌≡◌, refl, ap, ◌∙◌, inl, inr, get_elem?,
  find_index, remove_at, any, find_index-some, find_index-head, Bool-cases, Option-cases,
}
use trader_cockpit_app.Js.Numbers.{Numbers}
use trader_cockpit_app.Signals.Types.{Signal}
use trader_cockpit_app.Signals.Feed.{
  key, has_key, keyed, refreshed, move_to_front, admit_catchup, ingest_catchup,
}
use trader_cockpit_app.Signals.Feed.Order.{prepend-head}

module _ (N : Numbers) where
  ingest_catchup-missing :
      (s : Signal N) (rows : List (Signal N))
      → find_index (has_key N (key N s)) rows ≡ none
      → ingest_catchup N s rows ≡ admit_catchup N (keyed N s) rows
  unfolding ingest_catchup
  ingest_catchup-missing s rows missing = rw (missing, ingest_catchup)

  ingest_catchup-found :
      (s : Signal N) (rows : List (Signal N)) (i : ℕ) (x : Signal N)
      → find_index (has_key N (key N s)) rows ≡ some i
      → get_elem? rows i ≡ some x
      → ingest_catchup N s rows ≡ refreshed N x s ∷ remove_at i rows
  unfolding ingest_catchup move_to_front
  ingest_catchup-found s rows i x found at_i = rw (found, ingest_catchup) (rw (at_i, move_to_front))

  -- A catch-up signal whose row stands on top and shows it already changes nothing.
  replay_on_top :
      (s r : Signal N) (rest : List (Signal N))
      → has_key N (key N s) r ≡ true
      → refreshed N r s ≡ r
      → ingest_catchup N s (r ∷ rest) ≡ r ∷ rest
  replay_on_top s r rest hit same =
      ingest_catchup-found s (r ∷ rest) 0 r (find_index-head (has_key N (key N s)) r rest hit) refl
      ∙ ap (λ w. w ∷ rest) same

  replay_admitted :
      (s : Signal N) (rows : List (Signal N))
      → find_index (has_key N (key N s)) rows ≡ none
      → ingest_catchup N s (admit_catchup N (keyed N s) rows) ≡ admit_catchup N (keyed N s) rows
  unfolding admit_catchup
  replay_admitted s rows missing = elim (Bool-cases (any (λ x. x.id == s.id) rows)) [
    | inl known ↦ rw known (rw (ingest_catchup-missing s rows missing) (rw (known, admit_catchup)))
    | inr new ↦
        let (rest, e, _, _) =
          prepend-head N (record (keyed N s) { count = some 1; from_catchup = some true }) rows in
        rw new (rw e (replay_on_top s _ rest (eq_refl (key N s)) refl))
  ]

  -- Replaying a catch-up signal changes the rows no further.
  pub ingest_catchup_idempotent :
      (s : Signal N) (rows : List (Signal N))
      → ingest_catchup N s (ingest_catchup N s rows) ≡ ingest_catchup N s rows
  ingest_catchup_idempotent s rows = elim (Option-cases (find_index (has_key N (key N s)) rows)) [
    | inl missing ↦ rw (ingest_catchup-missing s rows missing) (replay_admitted s rows missing)
    | inr (i, found) ↦
        let (x, at_i, hit) = find_index-some _ rows i found in
        rw (ingest_catchup-found s rows i x found at_i)
          (replay_on_top s (refreshed N x s) (remove_at i rows) hit refl)
  ]
