-- ===== src/Signals/Tests.antt =====
-- Runs of the signal feed on concrete signals, and the theorems at inputs that meet their
-- conditions.
use trader_cockpit_app.Prelude.{
  ℕ, ◌+◌, ◌<◌, String, true, false, Option, none, some, List, [], ◌∷◌, ◌≡◌, ◌≢◌, ◌↔◌, refl, arith,
  filter, length, find_index,
}
use trader_cockpit_app.Js.Numbers.{Numbers, zero_n}
use trader_cockpit_app.Js.Collections.{empty_object}
use trader_cockpit_app.Js.Thousandths.{thousandths, pos}
use trader_cockpit_app.Signals.Types.{
  Signal, SignalType, SignalCategory, all_signals, break, cam, range_breakout, cam_h4_breakout,
  choppy, type_name,
}
use trader_cockpit_app.Signals.Feed.{key, has_key, ingest, ingest_catchup}
use trader_cockpit_app.Signals.Feed.Invariant.{IsWellFormed, ingest-IsWellFormed}
use trader_cockpit_app.Signals.Feed.Order.{LedBy, ingest_live-LedBy}
use trader_cockpit_app.Signals.Feed.Replay.{ingest_catchup_idempotent}
use trader_cockpit_app.Signals.Feed.Counting.{
  CountedOnTop, OnTop, ingest_times, count-ingest_times, count-ingest_times_after_catchup,
}
use trader_cockpit_app.Signals.Hook.{
  Hook, Event, message, signal, regime_update, pause_button, clear_button, metrics_due, init, run,
  toggle_pause,
}
use trader_cockpit_app.Signals.Hook.Invariant.{IsValid, run-init-IsValid}
use trader_cockpit_app.Signals.Hook.Pause.{receive_all, pause_is_transparent}
use trader_cockpit_app.Signals.Feed.{stored}
use trader_cockpit_app.Signals.Socket.{
  SocketEvent, opened, errored, closed, retry_due, mount, handle, handle_all, unmount, connected,
}
use trader_cockpit_app.Signals.Socket.Lifecycle.{
  IsLive, handle_all-mount-IsLive, not_of, old_socket_leaves_no_trace, unmount_is_final, recovery,
  recovery-connected,
}
use trader_cockpit_app.Signals.Filter.{passes, filter_signals}
use trader_cockpit_app.Signals.Filter.Laws.{IsShown, passes_iff, tabs_partition}

abbrev pub N : Numbers
N = thousandths

abbrev pub plain : String → SignalType → String → Signal N
plain symbol t at = record {
  id = symbol;
  symbol = symbol;
  signal_type = t;
  direction = none;
  price = some (pos 1000);
  volume_ratio = none;
  score = none;
  timestamp = at;
  message = none;
  bias_15m = none;
  bias_1h = none;
  entry_low = none;
  entry_high = none;
  stop = none;
  target_1 = none;
  trail_stop = none;
  watchlist_conflict = none;
  regime = none;
  count = none;
  dedup_key = none;
  from_catchup = none;
  catchup = none;
}

abbrev pub tcs : Signal N
tcs = plain "TCS" range_breakout "10:00"

abbrev pub infy : Signal N
infy = plain "INFY" cam_h4_breakout "10:05"

abbrev tcs_replayed : Signal N
tcs_replayed = record tcs { catchup = some true }

no_rows-IsWellFormed : IsWellFormed N []
no_rows-IsWellFormed = record { bounded = omega arith; unique = tt; keyed = tt }

abbrev one_row : List (Signal N)
one_row = (ingest N infy []).0

one_row-IsWellFormed : IsWellFormed N one_row
one_row-IsWellFormed = ingest-IsWellFormed N infy [] no_rows-IsWellFormed

-- Two signals of a kind are one row with the count 2, and two sounds.
abbrev counts : List (Signal N) → List (Option ℕ)
counts [] = []
counts (r ∷ rs) = r.count ∷ counts rs

counting_run : counts (ingest N tcs (ingest N infy (ingest N tcs []).0).0).0 ≡ some 2 ∷ some 1 ∷ []
unfolding ingest key type_name
counting_run = refl

ingest-IsWellFormed_example : IsWellFormed N (ingest N tcs one_row).0
ingest-IsWellFormed_example = ingest-IsWellFormed N tcs one_row one_row-IsWellFormed

ingest_live-LedBy_example : LedBy N tcs one_row (ingest N tcs one_row).0
ingest_live-LedBy_example = ingest_live-LedBy N tcs one_row refl one_row-IsWellFormed

ingest_catchup_idempotent_example :
    ingest_catchup N tcs_replayed (ingest_catchup N tcs_replayed one_row)
    ≡ ingest_catchup N tcs_replayed one_row
ingest_catchup_idempotent_example = ingest_catchup_idempotent N tcs_replayed one_row

new_kind : find_index (has_key N (key N tcs)) one_row ≡ none
unfolding ingest key type_name
new_kind = refl

count-ingest_times_example : CountedOnTop N tcs 3 (ingest_times N 3 tcs one_row)
count-ingest_times_example = count-ingest_times N 2 tcs one_row refl refl new_kind

caught_up : OnTop N tcs 1 true (ingest N tcs_replayed one_row).0
unfolding ingest key type_name
caught_up = (refl, refl, refl)

count-ingest_times_after_catchup_example :
    CountedOnTop N tcs 3 (ingest_times N 3 tcs (ingest N tcs_replayed one_row).0)
count-ingest_times_after_catchup_example =
    count-ingest_times_after_catchup N 2 1 true tcs (ingest N tcs_replayed one_row).0 refl caught_up

abbrev history : List (Event N)
history =
    message (signal tcs)
    ∷ pause_button
    ∷ message (signal infy)
    ∷ message (regime_update "TCS" (some choppy))
    ∷ pause_button
    ∷ metrics_due
    ∷ clear_button
    ∷ []

run-init-IsValid_example : IsValid N (run N history (init N (some (stored N []))))
run-init-IsValid_example = run-init-IsValid N [] history no_rows-IsWellFormed

abbrev fresh : Hook N
unfolding init
fresh = init N none

pause_is_transparent_example :
    toggle_pause N (receive_all N (tcs ∷ infy ∷ tcs ∷ []) (toggle_pause N (init N none)))
    ≡ receive_all N (tcs ∷ infy ∷ tcs ∷ []) (init N none)
unfolding init
pause_is_transparent_example =
    pause_is_transparent N (tcs ∷ infy ∷ tcs ∷ []) (init N none) refl refl refl

abbrev flaky : List SocketEvent
flaky = opened 0 ∷ errored 0 ∷ closed 0 ∷ retry_due ∷ opened 0 ∷ []

handle_all-mount-IsLive_example : IsLive (handle_all flaky mount)
handle_all-mount-IsLive_example = handle_all-mount-IsLive flaky

closed_at_once : (handle_all (closed 0 ∷ retry_due ∷ []) mount).current ≢ some 0
unfolding handle_all handle mount
closed_at_once e = cc

old_socket_leaves_no_trace_example :
    handle_all (closed 0 ∷ opened 1 ∷ errored 0 ∷ []) (handle_all (closed 0 ∷ retry_due ∷ []) mount)
    ≡ handle_all
        (filter (not_of 0) (closed 0 ∷ opened 1 ∷ errored 0 ∷ []))
        (handle_all (closed 0 ∷ retry_due ∷ []) mount)
unfolding handle_all handle mount
old_socket_leaves_no_trace_example =
    old_socket_leaves_no_trace (closed 0 ∷ opened 1 ∷ errored 0 ∷ []) 0
      (handle_all (closed 0 ∷ retry_due ∷ []) mount) (let h : 0 < 2 = omega arith in h)
      closed_at_once

unmount_is_final_example :
    ((handle_all flaky (unmount mount)).made ≡ mount.made)
    × ((handle_all flaky (unmount mount)).retry_timer ≡ false)
unmount_is_final_example = unmount_is_final flaky mount

recovery-connected_example :
    (handle_all (recovery (handle_all flaky mount)) (handle_all flaky mount)).conn_state ≡ connected
unfolding handle_all handle mount
recovery-connected_example = recovery-connected flaky refl

passes_iff_example :
    (passes N cam (zero_n N) empty_object none false infy ≡ true)
    ↔ IsShown N cam (zero_n N) empty_object none false infy
passes_iff_example = passes_iff N cam (zero_n N) empty_object none false infy

tabs_partition_example :
    let shown = λ (c : SignalCategory).
      length (filter_signals N (tcs ∷ infy ∷ []) c (zero_n N) empty_object none false) in
    shown all_signals ≡ shown break + shown cam
tabs_partition_example = tabs_partition N (tcs ∷ infy ∷ []) (zero_n N) empty_object none false
