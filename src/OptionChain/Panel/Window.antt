-- ===== src/OptionChain/Panel/Window.antt =====
-- What CockpitUI/src/components/dashboard/OptionChainPanel.tsx shows of a chain.
use trader_cockpit_app.Prelude.{
  ℕ, zero, suc, ◌+◌, ◌-◌, ◌≤◌, ◌<◌, Bool, true, false, Option, some, List, [], ◌∷◌, ◌≡◌, refl,
  arith, min, length, take, drop, any, find_index, All, length-take, Bool-cases, ◌⊎◌, inl, inr,
  if_elim,
}
use trader_cockpit_app.Js.Numbers.{Numbers, abs}
use trader_cockpit_app.Js.Order.{IsNumber, lt-IsWeakOrder}
use trader_cockpit_app.OptionChain.{OptionStrike}
use trader_cockpit_app.OptionChain.Panel.{
  atm_count, nearest_price, atm_strike, at_price, window, visible_strikes,
}

module _ {ℓ} {A : Type ℓ} (p : A → Bool) where
  -- What is found is in a part of the list that reaches over it.
  any-take_of_found :
      (xs : List A) (i m : ℕ) → find_index p xs ≡ some i → i < m → any p (take m xs) ≡ true
  any-take_of_found [] i m e h = cc
  any-take_of_found (x ∷ xs) i zero e h = absurd (omega (arith, h))
  any-take_of_found (x ∷ xs) zero (suc m) e h = elim (Bool-cases (p x)) [
    | inl hit ↦ rw hit refl
    | inr miss ↦ absurd (ground arith)
  ]
  any-take_of_found (x ∷ xs) (suc i) (suc m) e h = elim (Bool-cases (p x)) [
    | inl hit ↦ rw hit refl
    | inr miss ↦ rw miss (any-take_of_found xs i m (ground arith) (omega (arith, h)))
  ]

  any-slice_of_found :
      (xs : List A) (i n k : ℕ)
      → find_index p xs ≡ some i
      → n ≤ i
      → i < n + k
      → any p (take k (drop n xs)) ≡ true
  any-slice_of_found xs i zero k e h l = any-take_of_found xs i k e (omega (arith, l))
  any-slice_of_found [] i (suc n) k e h l = cc
  any-slice_of_found (x ∷ xs) zero (suc n) k e h l = absurd (omega (arith, h))
  any-slice_of_found (x ∷ xs) (suc i) (suc n) k e h l =
      any-slice_of_found xs i n k (ground arith) (omega (arith, h)) (omega (arith, l))

  found-lt-length : (xs : List A) (i : ℕ) → find_index p xs ≡ some i → i < length xs
  found-lt-length [] i e = cc
  found-lt-length (x ∷ xs) zero e = omega arith
  found-lt-length (x ∷ xs) (suc i) e = omega (arith, found-lt-length xs i (ground arith))

  found_of_any : (xs : List A) → any p xs ≡ true → (i : ℕ) × (find_index p xs ≡ some i)
  found_of_any [] e = cc
  found_of_any (x ∷ xs) e = elim (Bool-cases (p x)) [
    | inl hit ↦ (0, rw hit refl)
    | inr miss ↦ let (i, f) = found_of_any xs (ground arith) in (suc i, rw (miss, f) refl)
  ]

module _ (N : Numbers) (spot : N.Number) where
  open N use {Number, lt, sub}

  abbrev price_distance : Number → Number
  price_distance price = abs N (sub price spot)

  -- A price that is not NaN, and neither is its distance from the spot price.
  abbrev pub IsPriced : OptionStrike N → Type 0
  IsPriced s = IsNumber N s.strike_price × IsNumber N (price_distance s.strike_price)

  abbrev pub NotNearer : Number → Number → Type 0
  NotNearer atm price = lt (price_distance price) (price_distance atm) ≡ false

  NotNearer-trans :
      (a b c : Number)
      → IsNumber N (price_distance a)
      → IsNumber N (price_distance b)
      → IsNumber N (price_distance c)
      → NotNearer a b
      → NotNearer b c
      → NotNearer a c
  NotNearer-trans a b c =
      (lt-IsWeakOrder N).trans (price_distance a) (price_distance b) (price_distance c)

  -- What is found is not farther than what it starts from, nor than any strike.
  abbrev Least : Number → List (OptionStrike N) → Number → Type 0
  Least best ss atm =
      IsNumber N atm
      × IsNumber N (price_distance atm)
      × NotNearer atm best
      × All (λ s. NotNearer atm s.strike_price) ss

  nearest_price-Least :
      (best : Number) (ss : List (OptionStrike N))
      → IsNumber N best
      → IsNumber N (price_distance best)
      → All IsPriced ss
      → Least best ss (nearest_price N spot best ss)
  unfolding nearest_price
  nearest_price-Least best [] n d g = (n, d, N.lt_irrefl (price_distance best), tt)
  nearest_price-Least best (s ∷ ss) n d g =
      if_elim (λ (b : Number). Least best (s ∷ ss) (nearest_price N spot b ss))
        (lt (price_distance s.strike_price) (price_distance best))
        (λ nearer.
          let r = nearest_price-Least s.strike_price ss g.0.0 g.0.1 g.1 in
          (
            r.0,
            r.1,
            NotNearer-trans _ s.strike_price best r.1 g.0.1 d r.2
                ((lt-IsWeakOrder N).asym _ _ g.0.1 d nearer),
            (r.2, r.3),
          ))
        (λ farther.
          let r = nearest_price-Least best ss n d g.1 in
          (r.0, r.1, r.2, (NotNearer-trans _ best s.strike_price r.1 d g.0.1 r.2 farther, r.3)))

  abbrev Listed : Number → List (OptionStrike N) → Number → Type 0
  Listed best ss atm = (atm ≡ best) ⊎ (any (at_price N atm) ss ≡ true)

  nearest_price-Listed :
      (best : Number) (ss : List (OptionStrike N))
      → IsNumber N best
      → All IsPriced ss
      → Listed best ss (nearest_price N spot best ss)
  unfolding nearest_price
  nearest_price-Listed best [] n g = inl refl
  nearest_price-Listed best (s ∷ ss) n g =
      if_elim (λ (b : Number). Listed best (s ∷ ss) (nearest_price N spot b ss))
        (lt (price_distance s.strike_price) (price_distance best))
        (λ nearer. elim (nearest_price-Listed s.strike_price ss g.0.0 g.1) [
          | inl e ↦ inr (rw (e, N.eq_self s.strike_price g.0.0) refl)
          | inr e ↦ inr (ground (arith, e))
        ])
        (λ farther. elim (nearest_price-Listed best ss n g.1) [
          | inl e ↦ inl e
          | inr e ↦ inr (ground (arith, e))
        ])

  Listed-any :
      (s : OptionStrike N) (ss : List (OptionStrike N)) (atm : Number)
      → IsNumber N s.strike_price
      → Listed s.strike_price (s ∷ ss) atm
      → any (at_price N atm) (s ∷ ss) ≡ true
  Listed-any s ss atm n (inl e) = rw (e, N.eq_self s.strike_price n) refl
  Listed-any s ss atm n (inr e) = e

  abbrev ShowsPrice : List (OptionStrike N) → Number → Option ℕ → Type 0
  ShowsPrice strikes atm o =
      (length (window N o strikes) ≤ 11) × (any (at_price N atm) (window N o strikes) ≡ true)

  window-ShowsPrice :
      (strikes : List (OptionStrike N)) (atm : Number)
      → any (at_price N atm) strikes ≡ true
      → ShowsPrice strikes atm (find_index (at_price N atm) strikes)
  window-ShowsPrice strikes atm e =
      let (i, f) = found_of_any (at_price N atm) strikes e in
      let here = found-lt-length (at_price N atm) strikes i f in
      rw f (
        ground (
          arith,
          length-take (min (length strikes) (i + atm_count + 1) - (i - atm_count))
              (drop (i - atm_count) strikes),
        ),
        any-slice_of_found (at_price N atm) strikes i (i - atm_count) _ f (omega arith)
            (ground (arith, here)),
      )

  -- What a chain with strikes shows, its prices and their distances from the spot price being
  -- numbers: at most eleven strikes, among them one at the money, no strike being nearer.
  pub visible_strikes_around_spot :
      (s : OptionStrike N) (ss : List (OptionStrike N))
      → All IsPriced (s ∷ ss)
      → (atm : Number) × (atm_strike N spot (s ∷ ss) ≡ some atm)
        × (length (visible_strikes N spot (s ∷ ss)) ≤ 11)
        × (any (at_price N atm) (visible_strikes N spot (s ∷ ss)) ≡ true)
        × All (λ t. NotNearer atm t.strike_price) (s ∷ ss)
  unfolding atm_strike visible_strikes
  visible_strikes_around_spot s ss g =
      let atm = nearest_price N spot s.strike_price (s ∷ ss) in
      let shown =
        window-ShowsPrice (s ∷ ss) atm
          (Listed-any s ss atm g.0.0 (nearest_price-Listed s.strike_price (s ∷ ss) g.0.0 g)) in
      (atm, refl, shown.0, shown.1, (nearest_price-Least s.strike_price (s ∷ ss) g.0.0 g.0.1 g).3)
