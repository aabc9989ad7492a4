-- ===== src/Signals/Filter/Laws.antt =====
-- What `filterSignals` of CockpitUI/src/domain/signal.ts shows.
use trader_cockpit_app.Prelude.{
  ◌+◌, Bool, true, false, not, ◌&&◌, Option, none, some, List, [], ◌∷◌, ◌≡◌, ◌≢◌, ◌↔◌, ◌⊎◌, inl,
  inr, refl, sym, ap, arith, get_or, length, if◌then◌else◌,
}
use trader_cockpit_app.Js.Numbers.{Numbers, zero_n}
use trader_cockpit_app.Js.Collections.{Object}
use trader_cockpit_app.Signals.Types.{
  Signal, SignalType, SignalCategory, all_signals, break, cam, category_types, same_type, type_name,
  range_breakout, range_breakdown, cam_h3_reversal, cam_h4_breakout, cam_h4_reversal,
  cam_l3_reversal, cam_l4_breakdown, cam_l4_reversal,
}
use trader_cockpit_app.Signals.Market.{InstrumentMetrics}
use trader_cockpit_app.Signals.Filter.{
  is_all, includes_type, other_sub_type, is_fno_of, illiquid, passes, filter_signals,
}

-- The category of a type: rectangle signals are breaks, the others Camarilla signals.
abbrev pub category_of : SignalType → SignalCategory
category_of range_breakout = break
category_of range_breakdown = break
category_of _ = cam

same_type-eq : (s t : SignalType) → same_type s t ≡ true → s ≡ t
unfolding type_name
same_type-eq range_breakout range_breakout e = refl
same_type-eq range_breakout _ e = cc
same_type-eq range_breakdown range_breakdown e = refl
same_type-eq range_breakdown _ e = cc
same_type-eq cam_h3_reversal cam_h3_reversal e = refl
same_type-eq cam_h3_reversal _ e = cc
same_type-eq cam_h4_breakout cam_h4_breakout e = refl
same_type-eq cam_h4_breakout _ e = cc
same_type-eq cam_h4_reversal cam_h4_reversal e = refl
same_type-eq cam_h4_reversal _ e = cc
same_type-eq cam_l3_reversal cam_l3_reversal e = refl
same_type-eq cam_l3_reversal _ e = cc
same_type-eq cam_l4_breakdown cam_l4_breakdown e = refl
same_type-eq cam_l4_breakdown _ e = cc
same_type-eq cam_l4_reversal cam_l4_reversal e = refl
same_type-eq cam_l4_reversal _ e = cc

same_type_refl : (s : SignalType) → same_type s s ≡ true
unfolding type_name
same_type_refl range_breakout = refl
same_type_refl _ = refl

includes_iff :
    (c : SignalCategory) (t : SignalType)
    → (c ≢ all_signals)
    → (includes_type (category_types c) t ≡ true) ↔ (c ≡ category_of t)
unfolding category_types type_name
includes_iff all_signals t h = absurd (h refl)
includes_iff break range_breakout h = ground arith
includes_iff break _ h = ground arith
includes_iff cam range_breakout h = ground arith
includes_iff cam _ h = ground arith

other_sub_type_iff :
    (o : Option SignalType) (t : SignalType)
    → (other_sub_type o t ≡ false) ↔ ((o ≡ none) ⊎ (o ≡ some t))
other_sub_type_iff none t = (λ e. inl refl, λ h. refl)
other_sub_type_iff (some u) t = (
  λ e. inr (ap some (sym (same_type-eq t u (ground arith)))),
  λ h. elim h [ inl e ↦ cc | inr e ↦ let same : u ≡ t = cc in rw same (rw (same_type_refl t)) ],
)

category_test_iff :
    (c : SignalCategory) (t : SignalType)
    → ((not (is_all c) && not (includes_type (category_types c) t)) ≡ false)
      ↔ ((c ≡ all_signals) ⊎ (c ≡ category_of t))
category_test_iff all_signals t = (λ e. inl refl, λ h. refl)
category_test_iff break t =
    let (to, from) = includes_iff break t (λ e. cc) in
    (λ e. inr (to (ground arith)), λ h. elim h [ inl e ↦ cc | inr e ↦ rw (from e) ])
category_test_iff cam t =
    let (to, from) = includes_iff cam t (λ e. cc) in
    (λ e. inr (to (ground arith)), λ h. elim h [ inl e ↦ cc | inr e ↦ rw (from e) ])

-- A type is listed under one category of the two.
one_tab :
    (t : SignalType)
    → ((includes_type (category_types break) t ≡ true)
        × (includes_type (category_types cam) t ≡ false))
      ⊎ ((includes_type (category_types break) t ≡ false)
          × (includes_type (category_types cam) t ≡ true))
unfolding category_types type_name
one_tab range_breakout = inl (refl, refl)
one_tab range_breakdown = inl (refl, refl)
one_tab _ = inr (refl, refl)

fno_test_iff : (a b : Bool) → ((a && not b) ≡ false) ↔ ((a ≡ false) ⊎ (b ≡ true))
fno_test_iff true true = (λ e. inr refl, λ h. refl)
fno_test_iff true false = (λ e. cc, λ h. elim h [ inl e ↦ cc | inr e ↦ cc ])
fno_test_iff false b = (λ e. inl refl, λ h. refl)

returns_true_iff :
    (a b c d : Bool)
    → ((if a then false else if b then false else if c then false else if d then false else true)
        ≡ true)
      ↔ ((a ≡ false) × (b ≡ false) × (c ≡ false) × (d ≡ false))
returns_true_iff a b c d = (λ e. ground arith, λ h. ground arith)

module _ (N : Numbers) where
  -- The metrics let a minimum turnover pass: none asked for, none known, or enough (a missing
  -- turnover is 0).
  abbrev pub IsLiquid : Option (InstrumentMetrics N) → N.Number → Type 0
  IsLiquid none min_adv = Unit
  IsLiquid (some m) min_adv =
      (N.lt (zero_n N) min_adv ≡ false) ⊎ (N.lt (get_or m.adv_20_cr (zero_n N)) min_adv ≡ false)

  -- What the toolbar asks of a signal.
  pub record IsShown (category : SignalCategory) (min_adv : N.Number)
      (cache : Object (InstrumentMetrics N)) (sub_type : Option SignalType) (fno_only : Bool)
      (s : Signal N) : Type 0 where
    pub of_category : (category ≡ all_signals) ⊎ (category ≡ category_of s.signal_type)
    pub of_type : (sub_type ≡ none) ⊎ (sub_type ≡ some s.signal_type)
    pub of_fno : (fno_only ≡ false) ⊎ (is_fno_of N (cache s.symbol) ≡ true)
    pub liquid : IsLiquid (cache s.symbol) min_adv

  IsLiquid-test_iff :
      (m : Option (InstrumentMetrics N)) (min_adv : N.Number)
      → ((N.lt (zero_n N) min_adv && illiquid N m min_adv) ≡ false) ↔ IsLiquid m min_adv
  IsLiquid-test_iff none min_adv = (λ e. tt, λ h. ground arith)
  IsLiquid-test_iff (some m) min_adv = (λ e. ground arith, λ h. ground arith)

  -- The filter lets a signal through exactly when the toolbar asks for it: the category is ALL or
  -- that of the signal's type, no other type is picked, F&O is not asked for or the metrics know
  -- the symbol as F&O, and the known turnover is not below a positive minimum.
  pub passes_iff :
      (category : SignalCategory) (min_adv : N.Number) (cache : Object (InstrumentMetrics N))
      (sub_type : Option SignalType) (fno_only : Bool) (s : Signal N)
      → (passes N category min_adv cache sub_type fno_only s ≡ true)
        ↔ IsShown category min_adv cache sub_type fno_only s
  unfolding passes
  passes_iff category min_adv cache sub_type fno_only s = (
    λ e.
        let (a, b, c, d) = (returns_true_iff _ _ _ _).0 e in
        record {
          of_category = (category_test_iff category s.signal_type).0 a;
          of_type = (other_sub_type_iff sub_type s.signal_type).0 b;
          of_fno = (fno_test_iff fno_only (is_fno_of N (cache s.symbol))).0 c;
          liquid = (IsLiquid-test_iff (cache s.symbol) min_adv).0 d;
        },
    λ h. (returns_true_iff _ _ _ _).1 (
      (category_test_iff category s.signal_type).1 h.of_category,
      (other_sub_type_iff sub_type s.signal_type).1 h.of_type,
      (fno_test_iff fno_only (is_fno_of N (cache s.symbol))).1 h.of_fno,
      (IsLiquid-test_iff (cache s.symbol) min_adv).1 h.liquid,
    ),
  )

  -- Every signal of the feed falls into one of the two tabs: the ALL view is as long as BREAK and
  -- CAM together, under the same other filters.
  pub tabs_partition :
      (signals : List (Signal N)) (min_adv : N.Number) (cache : Object (InstrumentMetrics N))
      (sub_type : Option SignalType) (fno_only : Bool)
      → let shown = λ (c : SignalCategory).
        length (filter_signals N signals c min_adv cache sub_type fno_only) in
        shown all_signals ≡ shown break + shown cam
  unfolding filter_signals passes
  tabs_partition [] min_adv cache sub_type fno_only = omega arith
  tabs_partition (s ∷ ss) min_adv cache sub_type fno_only =
      ground (arith, one_tab s.signal_type, tabs_partition ss min_adv cache sub_type fno_only)
