-- ===== src/OptionChain/Panel/Answers.antt =====
-- The order of answers in CockpitUI/src/components/dashboard/OptionChainPanel.tsx. The service is a
-- parameter: what it answers for an expiry.
use trader_cockpit_app.Prelude.{
  String, ◌==◌, false, some, List, [], ◌∷◌, ◌++◌, ◌≡◌, ◌≢◌, refl, sym, ap, ◌∙◌,
}
use trader_cockpit_app.Js.Numbers.{Numbers}
use trader_cockpit_app.OptionChain.{OptionChainResponse}
use trader_cockpit_app.OptionChain.Panel.{
  Reply, replied, failed, ChainPanel, select_exp, chain_answer,
}

module _ {N : Numbers} (serve : String → Reply (OptionChainResponse N)) where
  -- The panel, and the expiries whose chain is under way, the oldest request first.
  pub record Waiting : Type 0 where
    pub panel : ChainPanel N
    pub under_way : List String

  -- The requests that stand in the second list after the first.
  pub since : List String → List String → List String
  since [] later = later
  since (a ∷ as_) [] = []
  since (a ∷ as_) (b ∷ bs) = since as_ bs

  -- A click on an expiry.
  abbrev pub choose : String → Waiting → Waiting
  choose e w =
      let p = select_exp N (some e) w.panel in
      record { panel = p; under_way = w.under_way ++ since w.panel.requested p.requested }

  abbrev pub answer_next : List String → Waiting → Waiting
  answer_next [] w = w
  answer_next (e ∷ es) w = record { panel = chain_answer N (serve e) w.panel; under_way = es }

  -- The oldest request is answered.
  pub data Turn : Type 0 where
    chosen : String → Turn
    oldest_answered : Turn

  abbrev pub turn : Turn → Waiting → Waiting
  turn (chosen e) w = choose e w
  turn oldest_answered w = answer_next w.under_way w

  abbrev pub turns : List Turn → Waiting → Waiting
  turns [] w = w
  turns (t ∷ ts) w = turns ts (turn t w)

  -- What the panel shows is the answer for this expiry, or the message of its failure.
  abbrev pub Shows : Reply (OptionChainResponse N) → ChainPanel N → Type 0
  Shows (replied c) p = p.chain ≡ some c
  Shows (failed m) p = p.error ≡ some m

  -- The last request under way is for the expiry selected, and where none is, its answer is shown.
  abbrev pub IsSettling : List String → ChainPanel N → Type 0
  IsSettling [] p = (e : String) × (p.selected_exp ≡ some e) × Shows (serve e) p
  IsSettling (e ∷ []) p = p.selected_exp ≡ some e
  IsSettling (e ∷ f ∷ es) p = IsSettling (f ∷ es) p

  -- The clicks are on expiries with a text.
  abbrev pub IsClick : Turn → Type 0
  IsClick (chosen e) = (e == "") ≡ false
  IsClick oldest_answered = Unit

  selected-chain_answer :
      (r : Reply (OptionChainResponse N)) (p : ChainPanel N)
      → (chain_answer N r p).selected_exp ≡ p.selected_exp
  unfolding chain_answer
  selected-chain_answer (replied c) p = refl
  selected-chain_answer (failed m) p = refl

  shown_of :
      (r : Reply (OptionChainResponse N)) (c d : OptionChainResponse N) (p : ChainPanel N)
      → r ≡ replied d
      → p.chain ≡ some c
      → Shows r p
      → c ≡ d
  shown_of (replied x) c d p e h k = cc
  shown_of (failed m) c d p e h k = cc

  -- Without that order the panel may fail this: where two requests are under way that the service
  -- answers with different chains, the panel on which the later one is answered first and the earlier
  -- one last does not hold the chain of the expiry selected, though no request is under way any more.
  pub late_answer-not-IsSettling :
      (e f : String) (c d : OptionChainResponse N) (p : ChainPanel N)
      → IsSettling (e ∷ f ∷ []) p
      → serve e ≡ replied c
      → serve f ≡ replied d
      → c ≢ d
      → ¬ IsSettling [] (chain_answer N (serve e) (chain_answer N (serve f) p))
  unfolding chain_answer
  late_answer-not-IsSettling e f c d p h se sf differ (g, selected, shown) =
      let q = chain_answer N (serve e) (chain_answer N (serve f) p) in
      let kept : q.selected_exp ≡ some f =
        selected-chain_answer (serve e) (chain_answer N (serve f) p)
        ∙ selected-chain_answer (serve f) p
        ∙ h in
      let same : g ≡ f = (let both = sym selected ∙ kept in cc) in
      let now : q.chain ≡ some c = rw se refl in
      differ (shown_of (serve g) c d q (ap serve same ∙ sf) now shown)
