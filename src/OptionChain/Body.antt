-- ===== src/OptionChain/Body.antt =====
-- What CockpitUI/src/components/dashboard/OptionChainBody.tsx shows of the panel's state: which of its
-- four parts, and the cells of a strike with their classes.
use Prim.Native.String.{◌++◌ as ◌+++◌}
use trader_cockpit_app.Prelude.{
  String, ◌==◌, Bool, false, not, ◌&&◌, Option, none, some, is_some, List, [], ◌∷◌, if◌then◌else◌,
}
use trader_cockpit_app.Js.Numbers.{Numbers}
use trader_cockpit_app.Js.Format.{Format}
use trader_cockpit_app.Display.Fmt.{fmt2}
use trader_cockpit_app.OptionChain.{
  OptionStrike, OptionChainResponse, AssessResult, fmt_oi, fmt_iv, fmt_greek,
}

abbrev pub call_hdrs : List String
call_hdrs = "OI" ∷ "Vol" ∷ "IV" ∷ "Delta" ∷ "Bid" ∷ "Ask" ∷ "LTP" ∷ []

abbrev pub put_hdrs : List String
put_hdrs = "LTP" ∷ "Bid" ∷ "Ask" ∷ "Delta" ∷ "IV" ∷ "Vol" ∷ "OI" ∷ []

-- The truth of a message: there is one, and it is not empty.
abbrev pub has_message : Option String → Bool
has_message none = false
has_message (some m) = not (m == "")

-- The parts that are shown, the conditions being those of the four `&&`.
pub record BodyParts : Type 0 where
  pub assessment_shown : Bool
  pub loading_shown : Bool
  pub error_shown : Bool
  pub table_shown : Bool

pub record StrikeCell : Type 0 where
  pub text : String
  pub style : String

abbrev pub styled : String → String → StrikeCell
styled style text = record { text = text; style = style }

-- `cond ? a : b` of a class.
abbrev pub class_if : Bool → String → String → String
class_if b on off = if b then on else off

module _ {N : Numbers} (F : Format N) where
  open N use {Number, lt, eq}

  unfoldable pub body_parts :
      Option (OptionChainResponse N) → Bool → Option String → Option AssessResult → BodyParts
  body_parts chain loading error assessment = record {
    assessment_shown = is_some assessment && not loading;
    loading_shown = loading;
    error_shown = has_message error && not loading;
    table_shown = is_some chain && not loading && not (has_message error);
  }

  abbrev pub is_atm : Option Number → Number → Bool
  is_atm none strike = false
  is_atm (some atm) strike = eq strike atm

  -- The cells of the calls, which stand before the strike.
  unfoldable pub call_cells : Number → OptionStrike N → List StrikeCell
  call_cells spot s =
      styled "text-dim" (fmt_oi F s.call_oi)
      ∷ styled "text-dim" (fmt_oi F s.call_volume)
      ∷ styled "text-amber" (fmt_iv F s.call_iv)
      ∷ styled "text-dim" (fmt_greek F s.call_delta)
      ∷ styled "text-dim" (fmt2 F s.call_bid)
      ∷ styled "text-dim" (fmt2 F s.call_ask)
      ∷ styled (class_if (lt s.strike_price spot) "text-bull" "text-fg") (fmt2 F s.call_ltp)
      ∷ []

  unfoldable pub strike_cell : Option Number → OptionStrike N → StrikeCell
  strike_cell atm s =
      let here = is_atm atm s.strike_price in
      styled (class_if here "text-accent" "text-fg")
        (F.shown s.strike_price +++ (if here then " ATM" else ""))

  unfoldable pub put_cells : Number → OptionStrike N → List StrikeCell
  put_cells spot s =
      styled (class_if (lt spot s.strike_price) "text-bear" "text-fg") (fmt2 F s.put_ltp)
      ∷ styled "text-dim" (fmt2 F s.put_bid)
      ∷ styled "text-dim" (fmt2 F s.put_ask)
      ∷ styled "text-dim" (fmt_greek F s.put_delta)
      ∷ styled "text-amber" (fmt_iv F s.put_iv)
      ∷ styled "text-dim" (fmt_oi F s.put_volume)
      ∷ styled "text-dim" (fmt_oi F s.put_oi)
      ∷ []
