-- ===== src/OptionChain.antt =====
-- The option chain: CockpitUI/src/domain/option_chain.ts and CockpitUI/src/lib/chainAssessment.ts.
pub mod Verdict
pub mod Panel
pub mod Body
mod Tests
use Prim.Native.String.{◌++◌ as ◌+++◌}
use trader_cockpit_app.Prelude.{
  ℕ, ◌+◌, String, Bool, true, false, ◌&&◌, Option, none, some, get_or, List, [], ◌∷◌, ◌++◌, leb,
  length, if◌then◌else◌,
}
use trader_cockpit_app.Prelude.Int.{ℤ, pos, pos_part, neg_part, sub_ℕ}
use trader_cockpit_app.Js.Numbers.{Numbers, zero_n, abs, nonzero}
use trader_cockpit_app.Js.Format.{Format}

pub record OptionStrike (N : Numbers) : Type 0 where
  pub strike_price : N.Number
  pub call_ltp : Option (N.Number)
  pub call_iv : Option (N.Number)
  pub call_delta : Option (N.Number)
  pub call_theta : Option (N.Number)
  pub call_gamma : Option (N.Number)
  pub call_vega : Option (N.Number)
  pub call_oi : Option (N.Number)
  pub call_volume : Option (N.Number)
  pub call_bid : Option (N.Number)
  pub call_ask : Option (N.Number)
  pub put_ltp : Option (N.Number)
  pub put_iv : Option (N.Number)
  pub put_delta : Option (N.Number)
  pub put_theta : Option (N.Number)
  pub put_gamma : Option (N.Number)
  pub put_vega : Option (N.Number)
  pub put_oi : Option (N.Number)
  pub put_volume : Option (N.Number)
  pub put_bid : Option (N.Number)
  pub put_ask : Option (N.Number)

pub record OptionChainResponse (N : Numbers) : Type 0 where
  pub symbol : String
  pub expiry : String
  pub spot_price : N.Number
  pub strikes : List (OptionStrike N)

pub record AssessResult : Type 0 where
  pub label : String
  pub color : String
  pub reasons : List String

-- The variables `score` and `reasons`.
pub record Assessing : Type 0 where
  pub score : ℤ
  pub reasons : List String

abbrev pub raise : Assessing → Assessing
raise a = record a { score = sub_ℕ (pos_part a.score + 1) (neg_part a.score) }

abbrev pub lower : ℕ → Assessing → Assessing
lower k a = record a { score = sub_ℕ (pos_part a.score) (neg_part a.score + k) }

abbrev pub say : String → Assessing → Assessing
say r a = record a { reasons = a.reasons ++ (r ∷ []) }

-- `score >= k`.
abbrev pub reaches : ℕ → ℤ → Bool
reaches k score = leb (k + neg_part score) (pos_part score)

module _ {N : Numbers} (F : Format N) where
  open N use {Number, lit, add, sub, mul, div, lt, eq}

  -- `reduce((a, v) => a + v, a)`.
  unfoldable pub total : Number → List Number → Number
  total a [] = a
  total a (v ∷ vs) = total (add a v) vs

  -- `v != null && v > 0`, as the list of the value or nothing.
  abbrev pub positive : Option Number → List Number
  positive none = []
  positive (some v) = if lt (zero_n N) v then v ∷ [] else []

  unfoldable pub ivs : List (OptionStrike N) → List Number
  ivs [] = []
  ivs (s ∷ ss) = positive s.call_iv ++ (positive s.put_iv ++ ivs ss)

  -- A mean, 0 of nothing.
  abbrev pub mean : List Number → Number
  mean [] = zero_n N
  mean (v ∷ vs) = div (total (zero_n N) (v ∷ vs)) (lit (length (v ∷ vs)) 1)

  unfoldable pub iv_block : Number → Assessing → Assessing
  iv_block avg_iv a =
      if lt (zero_n N) avg_iv
      then if lt avg_iv (lit 25 1)
        then say ("Low IV " +++ (F.fixed 1 avg_iv +++ "%")) (raise a)
        else if lt (lit 40 1) avg_iv
        then say ("High IV " +++ (F.fixed 1 avg_iv +++ "%")) (lower 1 a)
        else say ("Moderate IV " +++ (F.fixed 1 avg_iv +++ "%")) a
      else a

  -- `Math.abs(s.strike_price - spotPrice)`.
  abbrev pub distance : Number → OptionStrike N → Number
  distance spot s = abs N (sub s.strike_price spot)

  -- The strike next to the spot price, the first of several.
  unfoldable pub nearest : Number → OptionStrike N → List (OptionStrike N) → OptionStrike N
  nearest spot best [] = best
  nearest spot best (s ∷ ss) =
      nearest spot (if lt (distance spot s) (distance spot best) then s else best) ss

  -- The spread of a side in percent of its bid, as the list of the value or nothing.
  abbrev pub side_spread : Option Number → Option Number → List Number
  side_spread (some ask) (some bid) =
      if lt (zero_n N) bid then mul (div (sub ask bid) bid) (lit 100 1) ∷ [] else []
  side_spread _ _ = []

  abbrev pub spreads : OptionStrike N → List Number
  spreads s = side_spread s.call_ask s.call_bid ++ side_spread s.put_ask s.put_bid

  -- `if (spread < 1) score += 1; if (spread > 3) score -= 1;` and the reason.
  abbrev pub judge_spread : Number → Assessing → Assessing
  judge_spread spread a =
      let b = if lt spread (lit 1 1) then raise a else a in
      let c = if lt (lit 3 1) spread then lower 1 b else b in
      say ("Spread " +++ (F.fixed 1 spread +++ "%")) c

  unfoldable pub spread_block : List Number → Assessing → Assessing
  spread_block [] a = a
  spread_block (v ∷ vs) a = judge_spread (mean (v ∷ vs)) a

  unfoldable pub total_call_oi : Number → List (OptionStrike N) → Number
  total_call_oi a [] = a
  total_call_oi a (s ∷ ss) = total_call_oi (add a (get_or s.call_oi (zero_n N))) ss

  unfoldable pub total_put_oi : Number → List (OptionStrike N) → Number
  total_put_oi a [] = a
  total_put_oi a (s ∷ ss) = total_put_oi (add a (get_or s.put_oi (zero_n N))) ss

  unfoldable pub total_vol : Number → List (OptionStrike N) → Number
  total_vol a [] = a
  total_vol a (s ∷ ss) =
      total_vol (add (add a (get_or s.call_volume (zero_n N))) (get_or s.put_volume (zero_n N))) ss

  -- `pcr > 1.2` and `pcr < 0.7`.
  abbrev pub judge_pcr : Number → Assessing → Assessing
  judge_pcr pcr a =
      let b = say ("PCR " +++ F.fixed 2 pcr) a in
      let c = if lt (lit 12 10) pcr then raise b else b in
      if lt pcr (lit 7 10) then lower 1 c else c

  unfoldable pub pcr_block : Number → Number → Assessing → Assessing
  pcr_block call_oi put_oi a =
      if lt (zero_n N) (add call_oi put_oi)
      then judge_pcr (div put_oi (if nonzero N call_oi then call_oi else lit 1 1)) a
      else a

  unfoldable pub volume_block : Number → Assessing → Assessing
  volume_block volume a =
      if eq volume (zero_n N)
      then say "No traded volume" (lower 2 a)
      else if lt volume (lit 1000 1)
      then say "Low volume" a
      else a

  abbrev pub verdict : Assessing → AssessResult
  verdict a = record {
    label =
        if reaches 2 a.score
        then "Favourable for buying"
        else if reaches 0 a.score
        then "Neutral"
        else "Unfavourable for buying";
    color =
        if reaches 2 a.score
        then "rgb(var(--bull))"
        else if reaches 0 a.score
        then "rgb(var(--amber))"
        else "rgb(var(--bear))";
    reasons = a.reasons;
  }

  unfoldable pub assess_chain : List (OptionStrike N) → Number → AssessResult
  assess_chain [] spot = record { label = "No data"; color = "rgb(var(--ghost))"; reasons = [] }
  assess_chain (s ∷ ss) spot =
      let strikes = s ∷ ss in
      verdict (
        volume_block (total_vol (zero_n N) strikes) (
          pcr_block (total_call_oi (zero_n N) strikes) (total_put_oi (zero_n N) strikes) (
            spread_block (spreads (nearest spot s strikes))
              (iv_block (mean (ivs strikes)) (record { score = pos 0; reasons = [] })))))

  unfoldable pub fmt_oi : Option Number → String
  fmt_oi none = "-"
  fmt_oi (some v) =
      if N.le (lit 100000 1) v
      then F.fixed 1 (div v (lit 100000 1)) +++ "L"
      else if N.le (lit 1000 1) v
      then F.fixed 1 (div v (lit 1000 1)) +++ "K"
      else F.shown v

  unfoldable pub fmt_iv : Option Number → String
  fmt_iv none = "-"
  fmt_iv (some v) = F.fixed 1 v +++ "%"

  unfoldable pub fmt_greek : Option Number → String
  fmt_greek none = "-"
  fmt_greek (some v) = F.fixed 2 v
