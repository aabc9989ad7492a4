-- ===== src/Pipeline/Tests.antt =====
-- Runs of the full sync, and the theorems at inputs that meet their conditions.
use trader_cockpit_app.Prelude.{
  String, ◌==◌, if◌then◌else◌, false, none, some, List, [], ◌∷◌, ◌≡◌, refl,
}
use trader_cockpit_app.Js.Numbers.{Numbers}
use trader_cockpit_app.Js.Thousandths.{thousandths, pos}
use trader_cockpit_app.Pipeline.{
  idle, error, zerodha, sync_daily, sync_1min, fulfilled, rejected, SyncEvent, clicked, progressed,
  second_passed, ended, sync_event, sync_events, idle_sync,
}
use trader_cockpit_app.Pipeline.Protocol.{◌⟶◌, view, sync_event_follows_protocol}
use trader_cockpit_app.Pipeline.Runs.{
  IsSound, IsOver, status, first_end, second_end, sync_events-IsSound, run_pipeline-IsOver,
}
use trader_cockpit_app.Pipeline.Stream.{
  Json, Parsed, invalid, event, streaming, read_sse, read_chunks, split_lines, read_lines,
  line_answer, event_answer,
}
use trader_cockpit_app.Pipeline.Stream.Chunks.{concat, read_sse_chunks}

abbrev N : Numbers
N = thousandths

abbrev opening : List (SyncEvent N)
opening = clicked (pos 0) ∷ ended zerodha (fulfilled "2 accounts") (pos 1000) (pos 1000) ∷ []

sync_events-IsSound_example : IsSound N (sync_events N opening (idle_sync N))
sync_events-IsSound_example = sync_events-IsSound N opening

at_first : (idle_sync N).running_ref ≡ false
unfolding idle_sync
at_first = refl

abbrev noise : List (SyncEvent N)
noise = progressed sync_1min "half way" ∷ second_passed ∷ clicked (pos 500) ∷ []

run_pipeline-IsOver_example :
    let started = sync_events N (clicked (pos 0) ∷ noise) (idle_sync N) in
    let both =
      sync_events N
        (ended zerodha (fulfilled "2 accounts") (pos 1000) (pos 1000) ∷ noise)
        started in
    let one =
      sync_events N
        (first_end N false (rejected (some "HTTP 502")) (fulfilled "done") (pos 2000) ∷ noise)
        both in
    let refused = sync_event N (ended zerodha (rejected none) (pos 1000) (pos 1000)) started in
    IsOver N
      (sync_event N
        (second_end N false (rejected (some "HTTP 502")) (fulfilled "done") (pos 3000))
        one)
      (rejected (some "HTTP 502"))
      (fulfilled "done")
    × (refused.running_ref ≡ false)
    × (status N zerodha refused ≡ error)
    × (status N sync_daily refused ≡ idle)
    × (status N sync_1min refused ≡ idle)
run_pipeline-IsOver_example =
    run_pipeline-IsOver N (idle_sync N) noise noise noise "2 accounts" none false
      (rejected (some "HTTP 502")) (fulfilled "done") (pos 0) (pos 1000) (pos 1000) (pos 2000)
      (pos 3000) at_first (tt, (tt, (tt, tt))) (tt, (tt, (tt, tt))) (tt, (tt, (tt, tt)))

-- A parser that knows three texts.
abbrev parse_known : String → Parsed
parse_known text =
    if text == "1"
    then event "running" (some "half way")
    else if text == "2"
    then event "ok" none
    else invalid

abbrev json : Json
json = record { parse = parse_known; null_error = "null" }

abbrev cut : List String
cut = "data" ∷ ": 1\nping\nda" ∷ "ta: 2\n" ∷ []

progress_run : read_sse json (streaming cut) ≡ ("half way" ∷ [], fulfilled "done")
unfolding read_sse read_chunks split_lines read_lines line_answer event_answer
progress_run = refl

read_sse_chunks_example :
    read_sse json (streaming cut) ≡ read_sse json (streaming (concat cut ∷ []))
read_sse_chunks_example = read_sse_chunks json cut

sync_event_follows_protocol_example :
    view N (sync_events N (clicked (pos 0) ∷ []) (idle_sync N))
    ⟶ view N (
        sync_event N
          (ended zerodha (rejected none) (pos 1000) (pos 1000))
          (sync_events N (clicked (pos 0) ∷ []) (idle_sync N)))
sync_event_follows_protocol_example =
    sync_event_follows_protocol N (clicked (pos 0) ∷ [])
      (ended zerodha (rejected none) (pos 1000) (pos 1000))
