-- ===== src/OptionChain/Verdict.antt =====
-- The verdict of `assessChain` (CockpitUI/src/lib/chainAssessment.ts).
use trader_cockpit_app.Prelude.{
  ℕ, ◌+◌, ◌≤◌, String, eq_iff, Bool, true, false, List, [], ◌∷◌, ◌≡◌, ◌≢◌, sym, ◌∙◌, arith, if_elim,
  if_false, if◌then◌else◌,
}
use trader_cockpit_app.Prelude.Int.{pos, pos_part, neg_part}
use trader_cockpit_app.Js.Numbers.{Numbers, zero_n}
use trader_cockpit_app.Js.Format.{Format}
use trader_cockpit_app.OptionChain.{
  OptionStrike, Assessing, raise, lower, reaches, iv_block, spread_block, judge_spread, pcr_block,
  judge_pcr, volume_block, verdict, assess_chain, total_vol, total_call_oi, total_put_oi, mean, ivs,
  nearest, spreads,
}

-- The score is at most `k`.
abbrev AtMost : ℕ → Assessing → Type 0
AtMost k a = pos_part a.score ≤ k + neg_part a.score

raise-AtMost : (k : ℕ) (a : Assessing) → AtMost k a → AtMost (k + 1) (raise a)
raise-AtMost k a h = ground arith

lower-AtMost : (k n : ℕ) (a : Assessing) → AtMost (k + n) a → AtMost k (lower n a)
lower-AtMost k n a h = ground arith

favourable-eq-false : (a : Assessing) → AtMost 1 a → reaches 2 a.score ≡ false
favourable-eq-false a h = ground arith

no_data_label : ¬ (◌≡◌ {A = String} "No data" "Favourable for buying")
no_data_label e = cc ((eq_iff "No data" "Favourable for buying").1 e)

modest_label :
    (b : Bool)
    → ◌≢◌ {A = String} (if b then "Neutral" else "Unfavourable for buying") "Favourable for buying"
modest_label true e = cc ((eq_iff "Neutral" "Favourable for buying").1 e)
modest_label false e = cc ((eq_iff "Unfavourable for buying" "Favourable for buying").1 e)

module _ {N : Numbers} (F : Format N) where
  iv_block-AtMost :
      (v : N.Number) (k : ℕ) (a : Assessing) → AtMost k a → AtMost (k + 1) (iv_block F v a)
  unfolding iv_block
  iv_block-AtMost v k a h = ground arith

  judge_spread-AtMost :
      (v : N.Number) (k : ℕ) (a : Assessing) → AtMost k a → AtMost (k + 1) (judge_spread F v a)
  judge_spread-AtMost v k a h = ground arith

  spread_block-AtMost :
      (vs : List (N.Number)) (k : ℕ) (a : Assessing)
      → AtMost k a
      → AtMost (k + 1) (spread_block F vs a)
  unfolding spread_block
  spread_block-AtMost [] k a h = omega (arith, h)
  spread_block-AtMost (v ∷ vs) k a h = judge_spread-AtMost (mean F (v ∷ vs)) k a h

  judge_pcr-AtMost :
      (v : N.Number) (k : ℕ) (a : Assessing) → AtMost k a → AtMost (k + 1) (judge_pcr F v a)
  judge_pcr-AtMost v k a h = ground arith

  pcr_block-AtMost :
      (c p : N.Number) (k : ℕ) (a : Assessing) → AtMost k a → AtMost (k + 1) (pcr_block F c p a)
  unfolding pcr_block
  pcr_block-AtMost c p k a h =
      if_elim (AtMost (k + 1)) (N.lt (zero_n N) (N.add c p)) (λ on. judge_pcr-AtMost _ k a h)
        (λ off. omega (arith, h))

  no_volume-AtMost :
      (v : N.Number) (a : Assessing)
      → N.eq v (zero_n N) ≡ true
      → AtMost 3 a
      → AtMost 1 (volume_block F v a)
  unfolding volume_block
  no_volume-AtMost v a e h = rw e (lower-AtMost 1 2 a h)

  modest-verdict : (a : Assessing) → AtMost 1 a → (verdict F a).label ≢ "Favourable for buying"
  modest-verdict a h e =
      modest_label (reaches 0 a.score) (sym (if_false _ _ (favourable-eq-false a h)) ∙ e)

  -- A chain in which nothing was traded is never called favourable, whatever its volatility, its
  -- spreads and its open interest.
  pub no_volume_not_favourable :
      (strikes : List (OptionStrike N)) (spot : N.Number)
      → N.eq (total_vol F (zero_n N) strikes) (zero_n N) ≡ true
      → (assess_chain F strikes spot).label ≢ "Favourable for buying"
  unfolding assess_chain
  no_volume_not_favourable [] spot e = no_data_label
  no_volume_not_favourable (s ∷ ss) spot e =
      let strikes = s ∷ ss in
      let volatility =
        iv_block F (mean F (ivs F strikes)) (record { score = pos 0; reasons = [] }) in
      let spread = spread_block F (spreads F (nearest F spot s strikes)) volatility in
      let interest =
        pcr_block F (total_call_oi F (zero_n N) strikes) (total_put_oi F (zero_n N) strikes)
          spread in
      modest-verdict (volume_block F (total_vol F (zero_n N) strikes) interest) (
        no_volume-AtMost (total_vol F (zero_n N) strikes) interest e (
          pcr_block-AtMost (total_call_oi F (zero_n N) strikes) (total_put_oi F (zero_n N) strikes)
            2 spread
            (spread_block-AtMost (spreads F (nearest F spot s strikes)) 1 volatility (
              iv_block-AtMost (mean F (ivs F strikes)) 0 (record { score = pos 0; reasons = [] })
                (omega arith)))))
