-- ===== src/Display/Header.antt =====
-- The token's state in the header: CockpitUI/src/lib/headerUtils.ts and
-- CockpitUI/src/hooks/useTokenStatus.ts.
use Prim.Native.String.{◌++◌ as ◌+++◌}
use trader_cockpit_app.Prelude.{
  ℕ, ◌/◌, String, ◌==◌, Bool, not, Option, none, some, ltb, if◌then◌else◌,
}
use trader_cockpit_app.Prelude.Int.{ℤ, at_least_zero}
use trader_cockpit_app.Js.Numbers.{Numbers}
use trader_cockpit_app.Js.Format.{Format, Dates}
use trader_cockpit_app.Signals.Market.{
  MarketPhase, drive_window, execution, dead_zone, close_momentum, session_end, no_phase,
}

pub record TokenStatus : Type 0 where
  pub present : Bool
  pub expires_at : Option String
  pub expired : Bool

-- A poll of `useTokenStatus`: none where the request failed or its body is null.
unfoldable pub poll_answer : Option TokenStatus → Option TokenStatus → Option TokenStatus
poll_answer none status = status
poll_answer (some d) status = some d

abbrev pub phase_title : MarketPhase → String
phase_title drive_window = "9:15-9:45. High-momentum open; trend entries need fast confirmation."
phase_title execution = "9:45-11:30. Primary execution window; signals have better context."
phase_title dead_zone = "11:30-14:30. Lower conviction, more chop, stricter selection."
phase_title close_momentum = "14:30-15:15. Late directional flow can resume."
phase_title session_end = "15:15-15:30. Avoid fresh risk unless already planned."
phase_title no_phase = "Market closed or phase unavailable."

pub record TokenMeta : Type 0 where
  pub label : String
  pub color : String
  pub title : String

-- `expires_at` in a condition: null and the empty text are false.
abbrev pub known_expiry : Option String → Option String
known_expiry none = none
known_expiry (some t) = if t == "" then none else some t

module _ {N : Numbers} (F : Format N) (D : Dates N) where
  open N use {Number, lit, sub, div}

  abbrev pub count_text : ℕ → String
  count_text n = F.shown (lit n 1)

  -- `toLocaleString()` of a text's time.
  abbrev pub locale_of : String → String
  locale_of t = elim (D.time_of t) [ none ↦ "Invalid Date" | some ms ↦ D.locale_text ms ]

  abbrev pub expired_title : Option String → String
  expired_title none = "Token expired"
  expired_title (some t) = "Expired at " +++ locale_of t

  -- The label and colour of a token with some minutes left.
  abbrev pub left_meta : ℕ → String → TokenMeta
  left_meta minutes title =
      let hours = minutes / 60 in
      if ltb hours 1
      then record {
        label = "Token " +++ (count_text minutes +++ "m");
        color = "rgb(var(--amber))";
        title = title;
      }
      else if ltb hours 24
      then record {
        label = "Token " +++ (count_text hours +++ "h");
        color = "rgb(var(--bull))";
        title = title;
      }
      else record {
        label = "Token " +++ (count_text (hours / 24) +++ "d");
        color = "rgb(var(--bull))";
        title = title;
      }

  -- The whole minutes from `now` to a time; NaN at an invalid date.
  abbrev pub minutes_left : Number → Option Number → Option ℤ
  minutes_left now none = none
  minutes_left now (some t) = F.floor (div (sub t now) (lit 60000 1))

  abbrev pub valid_meta : Number → Option String → TokenMeta
  valid_meta now none = record {
    label = "Token ok";
    color = "rgb(var(--bull))";
    title = "Token present; expiry unavailable";
  }
  valid_meta now (some t) =
      let title = "Expires " +++ locale_of t in
      elim (minutes_left now (D.time_of t)) [
        | none ↦ record { label = "Token NaNd"; color = "rgb(var(--bull))"; title = title }
        | some m ↦ left_meta (at_least_zero m) title
      ]

  unfoldable pub token_meta : Number → Option TokenStatus → TokenMeta
  token_meta now none = record {
    label = "Token unknown";
    color = "rgb(var(--ghost))";
    title = "Dhan token status unavailable";
  }
  token_meta now (some s) =
      if not s.present
      then record {
        label = "No token";
        color = "rgb(var(--bear))";
        title = "Dhan access token is not set";
      }
      else if s.expired
      then record {
        label = "Token expired";
        color = "rgb(var(--bear))";
        title = expired_title (known_expiry s.expires_at);
      }
      else valid_meta now (known_expiry s.expires_at)
