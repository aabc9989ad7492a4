-- ===== src/Signals/Feed/Invariant.antt =====
-- What holds of the rows of CockpitUI/src/hooks/useSignals.ts after any signal: their number, and
-- that no two of them show the same kind of signal.
use trader_cockpit_app.Prelude.{
  ap, map, take-of_length-le, subst, ℕ, suc, zero, ◌≤◌, String, ◌==◌, eq_iff, false, Option, none,
  some, List, [], ◌∷◌, ◌≡◌, refl, arith, inl, inr, length, get_elem?, find_index, remove_at, any,
  All, All-sublist, IsSublist, IsSublist-remove_at, IsSublist-drop_last, length-drop_last,
  length-remove_at, All-get_elem?, find_index-some, find_index-none, Bool-cases, Option-cases,
  truthy, nil, skip, keep, ltb,
}
use trader_cockpit_app.Js.Numbers.{Numbers}
use trader_cockpit_app.Signals.Types.{Signal, Regime}
use trader_cockpit_app.Signals.Feed.{
  max_signals, same_key, key, has_key, keyed, refreshed, repeated, move_to_front, prepend,
  admit_catchup, ingest_catchup, ingest_live, ingest, apply_regime, with_regime, stored,
  restored_row, restore_signals,
}

module _ (N : Numbers) where
  -- Two rows that share no key.
  abbrev pub Differ : Signal N → Signal N → Type 0
  Differ x y = same_key x.dedup_key y.dedup_key ≡ false

  abbrev pub UniqueKeys : List (Signal N) → Type 0
  UniqueKeys [] = Unit
  UniqueKeys (x ∷ xs) = All (Differ x) xs × UniqueKeys xs

  -- The key of a row is that of its own symbol and type.
  abbrev pub IsKeyed : Signal N → Type 0
  IsKeyed x = x.dedup_key ≡ some (key N x)

  pub record IsWellFormed (rows : List (Signal N)) : Type 0 where
    pub bounded : length rows ≤ max_signals
    pub unique : UniqueKeys rows
    pub keyed : All IsKeyed rows

  same_key-sym : (a b : Option String) → same_key a b ≡ false → same_key b a ≡ false
  same_key-sym none none h = refl
  same_key-sym none (some k) h = refl
  same_key-sym (some j) none h = refl
  same_key-sym (some j) (some k) h = ground (arith, eq_iff j k, eq_iff k j)

  UniqueKeys-sublist : {xs ys : List (Signal N)} → IsSublist xs ys → UniqueKeys ys → UniqueKeys xs
  UniqueKeys-sublist nil u = tt
  UniqueKeys-sublist (skip s) u = UniqueKeys-sublist s u.1
  UniqueKeys-sublist (keep {y} s) u = (All-sublist (Differ y) s u.0, UniqueKeys-sublist s u.1)

  -- The row at an index differs from every other one.
  Differ-rest :
      (xs : List (Signal N)) (i : ℕ) (x : Signal N)
      → get_elem? xs i ≡ some x
      → UniqueKeys xs
      → All (Differ x) (remove_at i xs)
  Differ-rest [] i x e u = cc
  Differ-rest (y ∷ xs) zero x e u = let same : y ≡ x = cc in subst (λ w. All (Differ w) xs) same u.0
  Differ-rest (y ∷ xs) (suc i) x e u = (
    same_key-sym y.dedup_key x.dedup_key (All-get_elem? (Differ y) xs i e u.0),
    Differ-rest xs i x e u.1,
  )

  Differ-all :
      (s : Signal N) (k : String) (xs : List (Signal N))
      → s.dedup_key ≡ some k
      → All (λ x. has_key N k x ≡ false) xs
      → All (Differ s) xs
  Differ-all s k [] e h = tt
  Differ-all s k (x ∷ xs) e h =
      (rw e (same_key-sym x.dedup_key (some k) h.0), Differ-all s k xs e h.1)

  prepend-IsWellFormed :
      (s : Signal N) (rows : List (Signal N))
      → IsKeyed s
      → All (Differ s) rows
      → IsWellFormed rows
      → IsWellFormed (prepend N s rows)
  unfolding prepend
  prepend-IsWellFormed s rows k d w = elim (Bool-cases (ltb max_signals (length (s ∷ rows)))) [
    | inl full ↦ rw full (record {
      bounded = omega (arith, length-drop_last s rows, w.bounded);
      unique = UniqueKeys-sublist (IsSublist-drop_last (s ∷ rows)) (d, w.unique);
      keyed = All-sublist IsKeyed (IsSublist-drop_last (s ∷ rows)) (k, w.keyed);
    })
    | inr room ↦
        rw room (record { bounded = ground arith; unique = (d, w.unique); keyed = (k, w.keyed) })
  ]

  -- A row may be replaced by one with the same key, symbol and type.
  abbrev pub SameIdentity : (f : Signal N → Signal N) → Type 0
  SameIdentity f =
      (x : Signal N)
      → ((f x).dedup_key ≡ x.dedup_key)
        × ((f x).symbol ≡ x.symbol)
        × ((f x).signal_type ≡ x.signal_type)

  move_to_front-IsWellFormed :
      (f : Signal N → Signal N) (i : ℕ) (rows : List (Signal N)) (x : Signal N)
      → SameIdentity f
      → get_elem? rows i ≡ some x
      → IsWellFormed rows
      → IsWellFormed (move_to_front N f i rows)
  unfolding move_to_front key
  move_to_front-IsWellFormed f i rows x same e w =
      rw (e, move_to_front)
        (record {
          bounded = omega (arith, length-remove_at rows i e, w.bounded);
          unique = (
            rw ((same x).0) (Differ-rest rows i x e w.unique),
            UniqueKeys-sublist (IsSublist-remove_at i rows) w.unique,
          );
          keyed = (
            rw (same x).0 (rw (same x).1 (rw (same x).2 (All-get_elem? IsKeyed rows i e w.keyed))),
            All-sublist IsKeyed (IsSublist-remove_at i rows) w.keyed,
          );
        })

  map-length :
      (f : Signal N → Signal N) (rows : List (Signal N)) → length (map f rows) ≡ length rows
  map-length f [] = refl
  map-length f (x ∷ xs) = ap suc (map-length f xs)

  map-Differ :
      (f : Signal N → Signal N) (x : Signal N) (rows : List (Signal N))
      → SameIdentity f
      → All (Differ x) rows
      → All (Differ (f x)) (map f rows)
  map-Differ f x [] same d = tt
  map-Differ f x (y ∷ ys) same d = (rw ((same x).0, (same y).0) d.0, map-Differ f x ys same d.1)

  map-UniqueKeys :
      (f : Signal N → Signal N) (rows : List (Signal N))
      → SameIdentity f
      → UniqueKeys rows
      → UniqueKeys (map f rows)
  map-UniqueKeys f [] same u = tt
  map-UniqueKeys f (x ∷ xs) same u = (map-Differ f x xs same u.0, map-UniqueKeys f xs same u.1)

  map-IsKeyed :
      (f : Signal N → Signal N) (rows : List (Signal N))
      → SameIdentity f
      → All IsKeyed rows
      → All IsKeyed (map f rows)
  unfolding key
  map-IsKeyed f [] same k = tt
  map-IsKeyed f (x ∷ xs) same k =
      (rw (same x).0 (rw (same x).1 (rw (same x).2 k.0)), map-IsKeyed f xs same k.1)

  pub map-IsWellFormed :
      (f : Signal N → Signal N) (rows : List (Signal N))
      → SameIdentity f
      → IsWellFormed rows
      → IsWellFormed (map f rows)
  map-IsWellFormed f rows same w = record {
    bounded = omega (arith, map-length f rows, w.bounded);
    unique = map-UniqueKeys f rows same w.unique;
    keyed = map-IsKeyed f rows same w.keyed;
  }

  with_regime-SameIdentity :
      (symbol : String) (r : Option Regime) → SameIdentity (with_regime N symbol r)
  with_regime-SameIdentity symbol r x = elim (Bool-cases (x.symbol == symbol)) [
    | inl hit ↦ rw hit (refl, refl, refl)
    | inr miss ↦ rw miss (refl, refl, refl)
  ]

  -- A regime update touches no key.
  pub apply_regime-IsWellFormed :
      (symbol : String) (r : Option Regime) (rows : List (Signal N))
      → IsWellFormed rows
      → IsWellFormed (apply_regime N symbol r rows)
  unfolding apply_regime
  apply_regime-IsWellFormed symbol r rows w =
      map-IsWellFormed (with_regime N symbol r) rows (with_regime-SameIdentity symbol r) w

  -- Rows that are stored and restored after a reload stay well formed.
  pub restore_signals-IsWellFormed :
      (rows : List (Signal N))
      → IsWellFormed rows
      → IsWellFormed (restore_signals N (some (stored N rows)))
  unfolding restore_signals stored
  restore_signals-IsWellFormed rows w = rw (take-of_length-le max_signals rows w.bounded) (
      rw (take-of_length-le max_signals rows w.bounded)
        (map-IsWellFormed (restored_row N) rows (λ x. (refl, refl, refl)) w))

  -- What a signal without a row of its key becomes at the head of the rows.
  fresh-IsWellFormed :
      (s s' : Signal N) (rows : List (Signal N))
      → s'.dedup_key ≡ some (key N s)
      → s'.symbol ≡ s.symbol
      → s'.signal_type ≡ s.signal_type
      → find_index (has_key N (key N s)) rows ≡ none
      → IsWellFormed rows
      → IsWellFormed (prepend N s' rows)
  unfolding key
  fresh-IsWellFormed s s' rows k e t missing w =
      prepend-IsWellFormed s' rows (rw (k, e, t))
        (Differ-all s' (key N s) rows k (find_index-none _ rows missing)) w

  admit_catchup-IsWellFormed :
      (s : Signal N) (rows : List (Signal N))
      → find_index (has_key N (key N s)) rows ≡ none
      → IsWellFormed rows
      → IsWellFormed (admit_catchup N (keyed N s) rows)
  unfolding admit_catchup
  admit_catchup-IsWellFormed s rows missing w = elim (Bool-cases (any (λ x. x.id == s.id) rows)) [
    | inl known ↦ rw known w
    | inr new ↦ rw new (fresh-IsWellFormed s _ rows refl refl refl missing w)
  ]

  refreshed-SameIdentity : (s : Signal N) → SameIdentity (λ ex. refreshed N ex s)
  refreshed-SameIdentity s x = (refl, refl, refl)

  repeated-SameIdentity : (s : Signal N) → SameIdentity (repeated N s)
  repeated-SameIdentity s x = (refl, refl, refl)

  ingest_catchup-IsWellFormed :
      (s : Signal N) (rows : List (Signal N))
      → IsWellFormed rows
      → IsWellFormed (ingest_catchup N s rows)
  unfolding ingest_catchup
  ingest_catchup-IsWellFormed s rows w =
      elim (Option-cases (find_index (has_key N (key N s)) rows)) [
        | inl missing ↦ rw (missing, ingest_catchup) (admit_catchup-IsWellFormed s rows missing w)
        | inr (i, found) ↦
            let (x, at_i, _) = find_index-some _ rows i found in
            rw (found, ingest_catchup)
              (move_to_front-IsWellFormed _ i rows x (refreshed-SameIdentity s) at_i w)
      ]

  ingest_live-IsWellFormed :
      (s : Signal N) (rows : List (Signal N))
      → IsWellFormed rows
      → IsWellFormed (ingest_live N s rows).0
  unfolding ingest_live
  ingest_live-IsWellFormed s rows w = elim (Option-cases (find_index (has_key N (key N s)) rows)) [
    | inl missing ↦ rw (missing, ingest_live) (fresh-IsWellFormed s _ rows refl refl refl missing w)
    | inr (i, found) ↦
        let (x, at_i, _) = find_index-some _ rows i found in
        rw (found, ingest_live)
          (move_to_front-IsWellFormed _ i rows x (repeated-SameIdentity s) at_i w)
  ]

  -- Whatever signal comes, live or from the catch-up, the rows stay well formed: at most 200 of
  -- them, each under the key of its own symbol and type, and no two under one key.
  pub ingest-IsWellFormed :
      (s : Signal N) (rows : List (Signal N)) → IsWellFormed rows → IsWellFormed (ingest N s rows).0
  unfolding ingest
  ingest-IsWellFormed s rows w = elim (Bool-cases (truthy s.catchup)) [
    | inl catchup ↦ rw catchup (ingest_catchup-IsWellFormed s rows w)
    | inr live ↦ rw live (ingest_live-IsWellFormed s rows w)
  ]
