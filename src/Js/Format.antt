-- ===== src/Js/Format.antt =====
-- How numbers and times become texts, and numbers integers: what the browser does there is a
-- parameter.
use trader_cockpit_app.Prelude.{ℕ, String, Option}
use trader_cockpit_app.Prelude.Int.{ℤ}
use trader_cockpit_app.Js.Numbers.{Numbers}

pub record Format (N : Numbers) : Type 0 where
  -- `v.toFixed(d)`, `String(v)` and `Intl.NumberFormat('en-IN', …).format(v)`.
  pub fixed : ℕ → N.Number → String
  pub shown : N.Number → String
  pub grouped : N.Number → String
  -- `Math.round`, `Math.floor` and `Math.ceil`; none at NaN and at the infinities.
  pub round : N.Number → Option ℤ
  pub floor : N.Number → Option ℤ
  pub ceil : N.Number → Option ℤ

-- `new Date(text).getTime()`, none at an invalid date, and the texts of a time.
pub record Dates (N : Numbers) : Type 0 where
  pub time_of : String → Option (N.Number)
  pub ist_time : N.Number → String
  pub ist_date_time : N.Number → String
  pub locale_text : N.Number → String
