-- ===== src/OptionChain/Panel.antt =====
-- The state of CockpitUI/src/components/dashboard/OptionChainPanel.tsx: its two effects and what it
-- computes of the chain. A request is its start and its answer; a failed one has the message.
pub mod Answers
pub mod Window
use trader_cockpit_app.Prelude.{
  ℕ, ◌+◌, ◌-◌, String, ◌==◌, Bool, true, false, Option, none, some, List, [], ◌∷◌, ◌++◌, min,
  length, take, drop, find_index, if◌then◌else◌,
}
use trader_cockpit_app.Js.Numbers.{Numbers, abs}
use trader_cockpit_app.Js.Format.{Format}
use trader_cockpit_app.OptionChain.{OptionStrike, OptionChainResponse, AssessResult, assess_chain}

abbrev pub atm_count : ℕ
atm_count = 5

pub data Reply {ℓ} (A : Type ℓ) : Type ℓ where
  replied : A → Reply A
  failed : String → Reply A

-- `data.expiries[0] ?? null`.
abbrev pub first_of : List String → Option String
first_of [] = none
first_of (e ∷ es) = some e

-- `xs.slice(from, to)`, for positions that are not negative.
abbrev pub slice_list {ℓ} : {A : Type ℓ} → ℕ → ℕ → List A → List A
slice_list from to xs = take (to - from) (drop from xs)

module _ (N : Numbers) where
  open N use {Number, sub, lt, eq}

  -- `requested` has the expiries whose chain was asked for, the latest last.
  pub record ChainPanel : Type 0 where
    pub expiries : List String
    pub selected_exp : Option String
    pub chain : Option (OptionChainResponse N)
    pub loading : Bool
    pub error : Option String
    pub requested : List String

  -- The first render and the first effect.
  unfoldable pub open_panel : ChainPanel
  open_panel = record {
    expiries = [];
    selected_exp = none;
    chain = none;
    loading = true;
    error = none;
    requested = [];
  }

  -- The second effect, after the selection has changed; an empty selection asks for nothing.
  abbrev pub ask_chain : Option String → ChainPanel → ChainPanel
  ask_chain none p = p
  ask_chain (some e) p =
      if e == ""
      then p
      else record p { loading = true; error = none; requested = p.requested ++ (e ∷ []) }

  abbrev pub same_selection : Option String → Option String → Bool
  same_selection none none = true
  same_selection (some a) (some b) = a == b
  same_selection _ _ = false

  -- `setSelectedExp`, and the effect that depends on it.
  unfoldable pub select_exp : Option String → ChainPanel → ChainPanel
  select_exp e p =
      if same_selection p.selected_exp e then p else ask_chain e (record p { selected_exp = e })

  unfoldable pub expiries_answer : Reply (List String) → ChainPanel → ChainPanel
  unfolding select_exp
  expiries_answer (failed m) p = record p { error = some m; loading = false }
  expiries_answer (replied es) p =
      select_exp (first_of es) (record p { expiries = es; loading = false })

  -- The answer to any of the requests, also to one for an expiry no longer selected.
  unfoldable pub chain_answer : Reply (OptionChainResponse N) → ChainPanel → ChainPanel
  chain_answer (failed m) p = record p { error = some m; loading = false }
  chain_answer (replied c) p = record p { chain = some c; loading = false }

  -- The price of the strike next to the spot price.
  unfoldable pub nearest_price : Number → Number → List (OptionStrike N) → Number
  nearest_price spot best [] = best
  nearest_price spot best (s ∷ ss) =
      nearest_price spot
        (if lt (abs N (sub s.strike_price spot)) (abs N (sub best spot))
          then s.strike_price
          else best)
        ss

  -- `atmStrike` of the strikes of a chain.
  unfoldable pub atm_strike : Number → List (OptionStrike N) → Option Number
  atm_strike spot [] = none
  atm_strike spot (s ∷ ss) = some (nearest_price spot s.strike_price (s ∷ ss))

  abbrev pub at_price : Number → OptionStrike N → Bool
  at_price price s = eq s.strike_price price

  -- Up to five strikes on each side of the strike found.
  abbrev pub window : Option ℕ → List (OptionStrike N) → List (OptionStrike N)
  window none strikes = strikes
  window (some idx) strikes =
      slice_list (idx - atm_count) (min (length strikes) (idx + atm_count + 1)) strikes

  abbrev pub around : Option Number → List (OptionStrike N) → List (OptionStrike N)
  around none strikes = []
  around (some atm) strikes = window (find_index (at_price atm) strikes) strikes

  unfoldable pub visible_strikes : Number → List (OptionStrike N) → List (OptionStrike N)
  visible_strikes spot strikes = around (atm_strike spot strikes) strikes

  -- `assessment`.
  unfoldable pub assessment : Format N → Option (OptionChainResponse N) → Option AssessResult
  assessment F none = none
  assessment F (some c) =
      some (assess_chain F (visible_strikes c.spot_price c.strikes) c.spot_price)
