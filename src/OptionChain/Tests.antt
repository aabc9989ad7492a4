-- ===== src/OptionChain/Tests.antt =====
-- The option chain on concrete strikes, and the theorems at inputs that meet their conditions.
use trader_cockpit_app.Prelude.{
  ℕ, ◌≤◌, String, ◌==◌, if◌then◌else◌, ap, List, true, Option, none, some, [], ◌∷◌, ◌≡◌, ◌≢◌, refl,
  length, any, All,
}
use trader_cockpit_app.Js.Numbers.{Numbers, abs, nonzero}
use trader_cockpit_app.Js.Thousandths.{thousandths, ℤ, pos}
use trader_cockpit_app.Js.PlainFormat.{plain_format}
use trader_cockpit_app.OptionChain.{
  OptionStrike, OptionChainResponse, assess_chain, volume_block, total_vol, pcr_block,
  total_call_oi, total_put_oi, spread_block, nearest, total, iv_block, ivs,
}
use trader_cockpit_app.OptionChain.Verdict.{no_volume_not_favourable}
use trader_cockpit_app.OptionChain.Panel.{
  Reply, replied, failed, ChainPanel, open_panel, expiries_answer, select_exp, chain_answer,
  atm_strike, at_price, visible_strikes,
}
use trader_cockpit_app.OptionChain.Panel.Answers.{
  Waiting, IsSettling, Turn, chosen, oldest_answered, late_answer-not-IsSettling,
}
use trader_cockpit_app.OptionChain.Panel.Window.{NotNearer, visible_strikes_around_spot}

abbrev N : Numbers
N = thousandths

abbrev strike : ℕ → Option (N.Number) → OptionStrike N
strike price volume = record {
  strike_price = pos price;
  call_ltp = none;
  call_iv = some (pos 20000);
  call_delta = none;
  call_theta = none;
  call_gamma = none;
  call_vega = none;
  call_oi = some (pos 1000);
  call_volume = volume;
  call_bid = some (pos 100000);
  call_ask = some (pos 100500);
  put_ltp = none;
  put_iv = none;
  put_delta = none;
  put_theta = none;
  put_gamma = none;
  put_vega = none;
  put_oi = some (pos 2000);
  put_volume = none;
  put_bid = none;
  put_ask = none;
}

traded :
    (assess_chain plain_format (strike 100000 (some (pos 5000000)) ∷ []) (pos 100000)).label
    ≡ "Favourable for buying"
unfolding assess_chain volume_block total_vol pcr_block total_call_oi total_put_oi nonzero
    spread_block nearest abs total iv_block ivs
traded = refl

no_volume_not_favourable_example :
    (assess_chain plain_format (strike 100000 none ∷ []) (pos 100000)).label
    ≢ "Favourable for buying"
unfolding total_vol
no_volume_not_favourable_example =
    no_volume_not_favourable plain_format (strike 100000 none ∷ []) (pos 100000) refl

visible_strikes_around_spot_example :
    let strikes = strike 90000 none ∷ strike 100000 none ∷ strike 110000 none ∷ [] in
    (atm : N.Number) × (atm_strike N (pos 104000) strikes ≡ some atm)
    × (length (visible_strikes N (pos 104000) strikes) ≤ 11)
    × (any (at_price N atm) (visible_strikes N (pos 104000) strikes) ≡ true)
    × All (λ t. NotNearer N (pos 104000) atm t.strike_price) strikes
unfolding abs
visible_strikes_around_spot_example =
    visible_strikes_around_spot N (pos 104000) (strike 90000 none)
      (strike 100000 none ∷ strike 110000 none ∷ [])
      ((refl, refl), ((refl, refl), ((refl, refl), tt)))

abbrev chain_of : ℤ → OptionChainResponse N
chain_of spot = record { symbol = "NIFTY"; expiry = ""; spot_price = spot; strikes = [] }

-- A service that knows two expiries.
abbrev serve : String → Reply (OptionChainResponse N)
serve e =
    if e == "2026-01-29"
    then replied (chain_of (pos 0))
    else if e == "2026-02-26"
    then replied (chain_of (pos 1))
    else failed "404"

abbrev two_months : ChainPanel N
two_months = expiries_answer N (replied ("2026-01-29" ∷ "2026-02-26" ∷ [])) (open_panel N)

abbrev asked_once : Waiting serve
asked_once = record { panel = two_months; under_way = "2026-01-29" ∷ [] }

abbrev clicks : List (Turn serve)
clicks = chosen "2026-02-26" ∷ oldest_answered ∷ oldest_answered ∷ []

abbrev second_asked : ChainPanel N
second_asked = select_exp N (some "2026-02-26") two_months

asked_twice : IsSettling serve ("2026-01-29" ∷ "2026-02-26" ∷ []) second_asked
unfolding expiries_answer select_exp open_panel
asked_twice = refl

different : chain_of (pos 0) ≢ chain_of (pos 1)
different e = (let spot = ap (λ (c : OptionChainResponse N). c.spot_price) e in cc)

late_answer-not-IsSettling_example :
    ¬ IsSettling serve []
      (chain_answer N (serve "2026-01-29") (chain_answer N (serve "2026-02-26") second_asked))
late_answer-not-IsSettling_example =
    late_answer-not-IsSettling serve "2026-01-29" "2026-02-26" (chain_of (pos 0)) (chain_of (pos 1))
      second_asked asked_twice refl refl different
