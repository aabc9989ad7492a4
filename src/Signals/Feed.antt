-- ===== src/Signals/Feed.antt =====
-- The signal pipeline of CockpitUI/src/hooks/useSignals.ts: what `pushSignalRef` does to the rows
-- on screen. A row list is newest first. A state updater is a function from the previous rows to
-- the next ones, with the sounds that it plays.
pub mod Counting
pub mod Invariant
pub mod Order
pub mod Replay
use Prim.Native.String.{◌++◌}
use trader_cockpit_app.Prelude.{
  ℕ, ◌+◌, String, ◌==◌, Bool, true, false, Option, none, some, get_or, List, [], ◌∷◌, ltb,
  if◌then◌else◌, truthy, length, get_elem?, find_index, remove_at, drop_last, any, take, map,
}
use trader_cockpit_app.Js.Numbers.{Numbers}
use trader_cockpit_app.Signals.Types.{Signal, SignalType, Regime, type_name, same_type}

abbrev pub max_signals : ℕ
max_signals = 200

-- ALWAYS_NEW_SIGNALS, which the source leaves empty.
abbrev pub always_new_signals : List SignalType
always_new_signals = []

abbrev pub is_always_new : SignalType → Bool
is_always_new t = any (same_type t) always_new_signals

-- `a._dedupKey === b`: a missing key equals no key.
abbrev pub same_key : Option String → Option String → Bool
same_key none b = false
same_key (some j) none = false
same_key (some j) (some k) = j == k

module _ (N : Numbers) where
  unfoldable pub key : Signal N → String
  key s = s.symbol ++ (":" ++ type_name s.signal_type)

  abbrev pub has_key : String → Signal N → Bool
  has_key k row = same_key row.dedup_key (some k)

  -- The id and the regime that a raw signal gets before it reaches the rows.
  unfoldable pub prepare : (String → Option Regime) → Signal N → Signal N
  prepare regimes raw = record raw {
    id =
        if raw.id == ""
        then raw.symbol ++ ("-" ++ (type_name raw.signal_type ++ ("-" ++ raw.timestamp)))
        else raw.id;
    regime = elim raw.regime [ none ↦ regimes raw.symbol | some r ↦ some r ];
  }

  -- `{ ...s, _dedupKey: key }`.
  abbrev pub keyed : Signal N → Signal N
  keyed s = record s { dedup_key = some (key s) }

  -- The fields that a repeated signal overwrites.
  abbrev pub refreshed : Signal N → Signal N → Signal N
  refreshed ex s = record ex {
    timestamp = s.timestamp;
    price = s.price;
    message = s.message;
    volume_ratio = s.volume_ratio;
    trail_stop = s.trail_stop;
  }

  -- `[updated, ...prev.filter((_, i) => i !== idx)]`.
  unfoldable pub move_to_front : (Signal N → Signal N) → ℕ → List (Signal N) → List (Signal N)
  move_to_front f i prev = elim (get_elem? prev i) [
    | none ↦ prev
    | some ex ↦ f ex ∷ remove_at i prev
  ]

  -- `const out = [s, ...prev]; if (out.length > MAX_SIGNALS) out.pop();`
  unfoldable pub prepend : Signal N → List (Signal N) → List (Signal N)
  prepend s prev = if ltb max_signals (length (s ∷ prev)) then drop_last (s ∷ prev) else s ∷ prev

  -- A catch-up signal with no row of its key: rejected if its id is shown already.
  unfoldable pub admit_catchup : Signal N → List (Signal N) → List (Signal N)
  unfolding prepend
  admit_catchup s prev =
      if any (λ x. x.id == s.id) prev
      then prev
      else prepend (record s { count = some 1; from_catchup = some true }) prev

  unfoldable pub ingest_catchup : Signal N → List (Signal N) → List (Signal N)
  unfolding move_to_front admit_catchup
  ingest_catchup s prev =
      if is_always_new s.signal_type
      then admit_catchup s prev
      else (elim (find_index (has_key (key s)) prev) [
        | none ↦ admit_catchup (keyed s) prev
        | some i ↦ move_to_front (λ ex. refreshed ex s) i prev
      ])

  -- `ex._fromCatchup ? ex._count : (ex._count ?? 1) + 1`.
  abbrev pub next_count : Signal N → Option ℕ
  next_count ex = if truthy ex.from_catchup then ex.count else some (get_or ex.count 1 + 1)

  abbrev pub repeated : Signal N → Signal N → Signal N
  repeated s ex = record (refreshed ex s) { count = next_count ex; from_catchup = some false }

  -- A live signal; each branch plays the alert of its type once.
  unfoldable pub ingest_live : Signal N → List (Signal N) → List (Signal N) × List SignalType
  unfolding move_to_front prepend
  ingest_live s prev =
      if is_always_new s.signal_type
      then (prepend (record s { count = some 1 }) prev, s.signal_type ∷ [])
      else (elim (find_index (has_key (key s)) prev) [
        | none ↦ (prepend (record (keyed s) { count = some 1 }) prev, s.signal_type ∷ [])
        | some i ↦ (move_to_front (repeated s) i prev, s.signal_type ∷ [])
      ])

  -- The updater that `setSignals` gets.
  unfoldable pub ingest : Signal N → List (Signal N) → List (Signal N) × List SignalType
  unfolding ingest_catchup ingest_live
  ingest s prev = if truthy s.catchup then (ingest_catchup s prev, []) else ingest_live s prev

  -- What the storage effect writes after each change of the rows.
  unfoldable pub stored : List (Signal N) → List (Signal N)
  stored rows = take max_signals rows

  abbrev pub restored_row : Signal N → Signal N
  restored_row s = record s {
    count = some (get_or s.count 1);
    from_catchup = some (get_or s.from_catchup true);
  }

  -- `restoreSignals`, on the rows that the session storage holds (none: no entry, no window, or
  -- text that is no JSON array).
  unfoldable pub restore_signals : Option (List (Signal N)) → List (Signal N)
  restore_signals none = []
  restore_signals (some rows) = map restored_row (take max_signals rows)

  abbrev pub with_regime : String → Option Regime → Signal N → Signal N
  with_regime symbol r s = if s.symbol == symbol then record s { regime = r } else s

  -- `regime_update`: every row of the symbol takes the regime.
  unfoldable pub apply_regime : String → Option Regime → List (Signal N) → List (Signal N)
  apply_regime symbol r rows = map (with_regime symbol r) rows
