-- ===== src/Prices/Agreement.antt =====
-- What a use of `useLivePrices` (CockpitUI/src/hooks/useLivePrices.ts) shows and what is shared.
use trader_cockpit_app.Prelude.{
  String, ◌==◌, eq_iff, true, ◌&&◌, Option, none, some, List, [], ◌∷◌, ◌≡◌, refl, sym, ap, ◌∙◌,
  subst, if_elim, if_true, Bool-cases, inl, inr,
}
use trader_cockpit_app.Js.Numbers.{Numbers}
use trader_cockpit_app.Js.Collections.{Object, put, empty_object}
use trader_cockpit_app.Signals.Market.{InstrumentMetrics}
use trader_cockpit_app.Prices.{
  or_else, tracks, LivePriceData, LivePrices, pick_prices, watch, take_price, price_in, merge_all,
  take_metrics, PriceStep, streamed, fetched, price_steps, merge_metric_price, metric_price,
  prev_close_of,
}

module _ (N : Numbers) where
  -- The hook watches, and shows for each of its symbols what the shared table has.
  pub record AgreesWithShared (s : LivePrices N) : Type 0 where
    pub watching : s.active ≡ true
    pub agree : (k : String) → tracks s.symbols k ≡ true → s.prices k ≡ s.shared k

  watch-AgreesWithShared :
      (symbols : List String) (shared : Object (LivePriceData N))
      → AgreesWithShared (watch N symbols shared)
  unfolding watch pick_prices
  watch-AgreesWithShared symbols shared = record { watching = refl; agree = λ k t. if_true _ _ t }

  take_price-AgreesWithShared :
      (o : Option (String × N.Number)) (s : LivePrices N)
      → AgreesWithShared s
      → AgreesWithShared (take_price N o s)
  unfolding take_price
  take_price-AgreesWithShared none s h = h
  take_price-AgreesWithShared (some (symbol, price)) s h =
      let next : LivePriceData N = record {
        ltp = some price;
        prev_close = prev_close_of N (s.shared symbol);
      } in
      record {
        watching = h.watching;
        agree = λ k t. elim (Bool-cases (k == symbol)) [
          | inl e ↦
              let tracked = subst (λ x. tracks s.symbols x ≡ true) ((eq_iff k symbol).0 e) t in
              rw (h.watching, tracked, e) refl
          | inr e ↦
              if_elim (λ (p : Object (LivePriceData N)). p k ≡ put symbol next s.shared k)
                (s.active && tracks s.symbols symbol) (λ on. rw e (h.agree k t))
                (λ off. rw e (h.agree k t))
        ];
      }

  -- What the loop puts into the map is what it puts into the shared table.
  merge_all-overlay :
      (entries : List (String × InstrumentMetrics N)) (shared map start : Object (LivePriceData N))
      → ((k : String) → shared k ≡ or_else (map k) (start k))
      → (k : String)
      → (merge_all N entries (shared, map)).0 k
        ≡ or_else ((merge_all N entries (shared, map)).1 k) (start k)
  unfolding merge_all
  merge_all-overlay [] shared map start h k = h k
  merge_all-overlay ((symbol, m) ∷ rest) shared map start h k =
      let next = merge_metric_price N (shared symbol) (metric_price N m) in
      merge_all-overlay rest (put symbol next shared) (put symbol next map) start
        (λ j. elim (Bool-cases (j == symbol)) [ inl e ↦ rw e refl | inr e ↦ rw e (h j) ]) k

  take_metrics-AgreesWithShared :
      (answer : Option (List (String × InstrumentMetrics N))) (s : LivePrices N)
      → AgreesWithShared s
      → AgreesWithShared (take_metrics N answer s)
  unfolding take_metrics
  take_metrics-AgreesWithShared none s h = h
  take_metrics-AgreesWithShared (some entries) s h =
      let r = merge_all N entries (s.shared, empty_object) in
      if_elim AgreesWithShared s.active
        (λ on. record {
          watching = h.watching;
          agree = λ k t. sym (
              merge_all-overlay entries s.shared empty_object s.shared (λ j. refl) k
              ∙ ap (or_else (r.1 k)) (sym (h.agree k t)));
        })
        (λ off. h)

  price_steps-AgreesWithShared :
      (es : List (PriceStep N)) (s : LivePrices N)
      → AgreesWithShared s
      → AgreesWithShared (price_steps N es s)
  unfolding price_steps
  price_steps-AgreesWithShared [] s h = h
  price_steps-AgreesWithShared (streamed type symbol price ∷ es) s h =
      price_steps-AgreesWithShared es (take_price N (price_in N type symbol price) s)
        (take_price-AgreesWithShared (price_in N type symbol price) s h)
  price_steps-AgreesWithShared (fetched answer ∷ es) s h =
      price_steps-AgreesWithShared es (take_metrics N answer s)
        (take_metrics-AgreesWithShared answer s h)

  -- However streamed messages and fetched metrics follow each other, a single use of the hook shows
  -- for each of its symbols the price and the close that the shared table holds.
  pub price_steps-watch-AgreesWithShared :
      (symbols : List String) (shared : Object (LivePriceData N)) (es : List (PriceStep N))
      → AgreesWithShared (price_steps N es (watch N symbols shared))
  price_steps-watch-AgreesWithShared symbols shared es =
      price_steps-AgreesWithShared es (watch N symbols shared)
        (watch-AgreesWithShared symbols shared)
