-- ===== src/Pipeline/Stream.antt =====
-- `readSSE` of CockpitUI/src/components/admin/sseUtils.ts. The stream is the list of its decoded
-- chunks; where the list ends, the reader answers `done`. `JSON.parse` is a parameter, by what the
-- code reads of its answer.
pub mod Chunks
use Prim.Native.Char.{code, Char}
use Prim.Native.String.{slice, len, ◌++◌ as ◌+++◌}
use Prim.Native.String as Text
use text.Mathlib.Text.{starts_with}
use trader_cockpit_app.Prelude.{
  ℕ, String, ◌==◌, Bool, true, false, not, ◌&&◌, Option, none, some, get_or, List, [], ◌∷◌, ◌++◌,
  nat_eq, if◌then◌else◌,
}
use trader_cockpit_app.Pipeline.{Outcome, fulfilled, rejected}

-- What `JSON.parse` answers: it throws, gives null, or an object with a status.
pub data Parsed : Type 0 where
  invalid null_value : Parsed
  event : String → Option String → Parsed

-- The parser, and the message of the error that reading a field of null throws.
pub record Json : Type 0 where
  pub parse : String → Parsed
  pub null_error : String

-- What a line does: nothing, a call of `onProgress`, or the end of the function.
pub data LineAnswer : Type 0 where
  skip : LineAnswer
  report : String → LineAnswer
  finish : Outcome → LineAnswer

-- `message` in a condition.
abbrev pub has_text : Option String → Bool
has_text none = false
has_text (some m) = not (m == "")

unfoldable pub event_answer : Json → Parsed → LineAnswer
event_answer j invalid = skip
event_answer j null_value = finish (rejected (some j.null_error))
event_answer j (event status message) =
    if status == "running" && has_text message
    then report (get_or message "")
    else if status == "ok"
    then finish (fulfilled (get_or message "done"))
    else if status == "error"
    then finish (rejected (some (get_or message "failed")))
    else skip

unfoldable pub line_answer : Json → String → LineAnswer
line_answer j line =
    if starts_with line "data: " then event_answer j (j.parse (slice line 6 (len line))) else skip

-- A character in front of a text that is split already.
abbrev pub onto_first : Char → List String × String → List String × String
onto_first c ([], rest) = ([], Text.◌∷◌ c rest)
onto_first c (l ∷ ls, rest) = (Text.◌∷◌ c l ∷ ls, rest)

-- `buf.split('\n')`, as the lines that are complete and the rest, which `pop` takes off.
unfoldable pub split_lines : String → List String × String
split_lines Text.[] = ([], "")
split_lines (Text.◌∷◌ c s) =
    let r = split_lines s in if nat_eq (code c) 10 then ("" ∷ r.0, r.1) else onto_first c r

abbrev pub answer_then : LineAnswer → List String × Option Outcome → List String × Option Outcome
answer_then skip r = r
answer_then (report m) r = (m ∷ r.0, r.1)
answer_then (finish o) r = ([], some o)

-- The loop over the lines: the messages reported, and how it returned, if it did.
unfoldable pub read_lines : Json → List String → List String × Option Outcome
read_lines j [] = ([], none)
read_lines j (l ∷ ls) = answer_then (line_answer j l) (read_lines j ls)

abbrev pub after_lines :
    List String × Option Outcome → List String × Outcome → List String × Outcome
after_lines (reports, some o) rest = (reports, o)
after_lines (reports, none) rest = (reports ++ rest.0, rest.1)

abbrev pub closed_early : List String × Outcome
closed_early = ([], rejected (some "SSE stream closed without completion event"))

-- The outer loop, with `buf`.
unfoldable pub read_chunks : Json → String → List String → List String × Outcome
read_chunks j buf [] = closed_early
read_chunks j buf (c ∷ cs) =
    let r = split_lines (buf +++ c) in after_lines (read_lines j r.0) (read_chunks j r.1 cs)

-- The answer to the request: refused, with its status in digits and the two fields of its body that
-- are read, or a stream.
pub data Response : Type 0 where
  refused : String → Option String → Option String → Response
  streaming : List String → Response

-- `data?.detail ?? data?.message ?? 'HTTP …'`.
abbrev pub refusal : String → Option String → Option String → String
refusal status (some d) message = d
refusal status none (some m) = m
refusal status none none = "HTTP " +++ status

unfoldable pub read_sse : Json → Response → List String × Outcome
read_sse j (refused status detail message) = ([], rejected (some (refusal status detail message)))
read_sse j (streaming chunks) = read_chunks j "" chunks
