-- ===== src/Js/PlainFormat.antt =====
-- A format that writes every number as 0, for runs on concrete inputs.
use trader_cockpit_app.Prelude.{some}
use trader_cockpit_app.Js.Format.{Format}
use trader_cockpit_app.Js.Thousandths.{thousandths}

abbrev pub plain_format : Format thousandths
plain_format = record {
  fixed = λ d v. "0";
  shown = λ v. "0";
  grouped = λ v. "0";
  round = λ v. some v;
  floor = λ v. some v;
  ceil = λ v. some v;
}
