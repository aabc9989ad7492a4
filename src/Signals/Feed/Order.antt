-- ===== src/Signals/Feed/Order.antt =====
-- Where a signal lands among the rows of CockpitUI/src/hooks/useSignals.ts, and what becomes of the
-- others.
use trader_cockpit_app.Prelude.{
  suc, ◌≤◌, String, eq_iff, true, false, some, List, [], ◌∷◌, ◌≡◌, refl, arith, inl, inr, length,
  find_index, drop_last, IsSublist, IsSublist-refl, IsSublist-remove_at, IsSublist-drop_last,
  length-drop_last, length-remove_at, All-get_elem?, find_index-some, Bool-cases, Option-cases,
  truthy, ltb,
}
use trader_cockpit_app.Js.Numbers.{Numbers}
use trader_cockpit_app.Signals.Types.{Signal}
use trader_cockpit_app.Signals.Feed.{
  max_signals, same_key, key, has_key, keyed, move_to_front, prepend, ingest_live, ingest,
}
use trader_cockpit_app.Signals.Feed.Invariant.{IsWellFormed, IsKeyed}

module _ (N : Numbers) where
  -- `prepend` puts its row first and loses the last of the others at most.
  pub prepend-head :
      (s : Signal N) (rows : List (Signal N))
      → (rest : List (Signal N)) × (prepend N s rows ≡ s ∷ rest)
        × IsSublist rest rows
        × (length rows ≤ suc (length rest))
  unfolding prepend
  prepend-head s [] = ([], refl, IsSublist-refl [], omega arith)
  prepend-head s (y ∷ ys) = elim (Bool-cases (ltb max_signals (length (s ∷ y ∷ ys)))) [
    | inl full ↦ (
      drop_last (y ∷ ys),
      rw full,
      IsSublist-drop_last (y ∷ ys),
      omega (arith, length-drop_last y ys),
    )
    | inr room ↦ (y ∷ ys, rw room, IsSublist-refl (y ∷ ys), omega arith)
  ]

  -- The first row shows the signal, and the others are the rows from before in their order, all
  -- but one at most.
  abbrev pub LedBy : Signal N → List (Signal N) → List (Signal N) → Type 0
  LedBy s rows [] = ⊥
  LedBy s rows (r ∷ rest) =
      (key N r ≡ key N s)
      × (r.timestamp ≡ s.timestamp)
      × (r.price ≡ s.price)
      × (r.message ≡ s.message)
      × (r.volume_ratio ≡ s.volume_ratio)
      × (r.trail_stop ≡ s.trail_stop)
      × IsSublist rest rows
      × (length rows ≤ suc (length rest))

  -- The row that `find_index` finds is of the signal's own kind.
  pub key_of_found : (k : String) (x : Signal N) → has_key N k x ≡ true → IsKeyed N x → key N x ≡ k
  key_of_found k x hit keyed_x =
      let same : same_key (some (key N x)) (some k) ≡ true = rw keyed_x at hit in
      (eq_iff (key N x) k).0 same

  -- A live signal comes out on top, with its own time, price, message, volume ratio and trailing
  -- stop; the other rows keep their order, and no more than one of them leaves.
  pub ingest_live-LedBy :
      (s : Signal N) (rows : List (Signal N))
      → truthy s.catchup ≡ false
      → IsWellFormed N rows
      → LedBy s rows (ingest N s rows).0
  unfolding ingest ingest_live key
  ingest_live-LedBy s rows live w = elim (Option-cases (find_index (has_key N (key N s)) rows)) [
    | inl missing ↦
        let (rest, e, kept, long) = prepend-head (record (keyed N s) { count = some 1 }) rows in
        rw live (rw (missing, ingest_live) (rw e (refl, refl, refl, refl, refl, refl, kept, long)))
    | inr (i, found) ↦
        let (x, at_i, hit) = find_index-some _ rows i found in
        rw live (
          rw (found, ingest_live)
            (rw (at_i, move_to_front)
              (
                key_of_found (key N s) x hit (All-get_elem? (IsKeyed N) rows i at_i w.keyed),
                refl,
                refl,
                refl,
                refl,
                refl,
                IsSublist-remove_at i rows,
                omega (arith, length-remove_at rows i at_i),
              )))
  ]
