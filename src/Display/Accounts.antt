-- ===== src/Display/Accounts.antt =====
-- CockpitUI/src/components/accounts/accountFmt.ts.
use Prim.Native.String.{slice, ◌++◌ as ◌+++◌}
use trader_cockpit_app.Prelude.{
  ℕ, ◌/◌, ◌%◌, String, ◌==◌, ◌||◌, Option, none, some, ltb, nat_eq, if◌then◌else◌,
}
use trader_cockpit_app.Prelude.Int.{ℤ, at_least_zero}
use trader_cockpit_app.Js.Numbers.{Numbers, zero_n}
use trader_cockpit_app.Js.Format.{Format, Dates}
use trader_cockpit_app.Js.Text.{replace}

unfoldable pub status_class : String → String
status_class status =
    if status == "connected" || status == "ok"
    then "border-bull/40 bg-bull/10 text-bull"
    else if status == "error"
    then "border-bear/40 bg-bear/10 text-bear"
    else "border-warn/40 bg-warn/10 text-warn"

-- `when`, on a text of ASCII characters.
unfoldable pub when_text : Option String → String
when_text none = "-"
when_text (some value) = replace (slice value 0 16) "T" " "

module _ {N : Numbers} (F : Format N) where
  open N use {Number, lit, le, is_nan}

  unfoldable pub money : Option Number → String
  money none = "-"
  money (some value) = if is_nan value then "-" else F.grouped value

  unfoldable pub tone : Number → String
  tone value = if le (zero_n N) value then "text-bull" else "text-bear"

  abbrev pub count_text : ℕ → String
  count_text n = F.shown (lit n 1)

  -- `fmtHold`, of a number of minutes that is not NaN.
  unfoldable pub fmt_hold : ℕ → String
  fmt_hold minutes =
      let h = minutes / 60 in
      let m = minutes % 60 in
      if nat_eq minutes 0
      then "-"
      else if ltb minutes 60
      then count_text minutes +++ "m"
      else if nat_eq m 0
      then count_text h +++ "h"
      else count_text h +++ ("h " +++ (count_text m +++ "m"))

module _ {N : Numbers} (F : Format N) (D : Dates N) where
  open N use {Number, lit, sub, div}

  -- The rounded minutes between two times; none where a text is no date, so that they are NaN.
  abbrev pub minutes_between : Option Number → Option Number → Option ℤ
  minutes_between (some a) (some b) = F.round (div (sub b a) (lit 60000 1))
  minutes_between _ _ = none

  -- `holdMinutes`, where none stands for NaN.
  unfoldable pub hold_minutes : Option String → Option String → Option ℕ
  hold_minutes none exit = some 0
  hold_minutes (some entry) none = some 0
  hold_minutes (some entry) (some exit) =
      if entry == "" || exit == ""
      then some 0
      else (elim (minutes_between (D.time_of entry) (D.time_of exit)) [
        | none ↦ none
        | some m ↦ some (at_least_zero m)
      ])
