-- ===== src/Charts/Profile.antt =====
-- `buildVolumeProfile` of CockpitUI/src/lib/chartUtils.ts, for bars of finite prices.
use trader_cockpit_app.Prelude.{
  ℕ, zero, suc, ◌+◌, ◌-◌, Option, none, some, List, [], ◌∷◌, min, leb, if◌then◌else◌,
}
use trader_cockpit_app.Prelude.Int.{ℤ, pos, negsuc}
use trader_cockpit_app.Js.Numbers.{Numbers, zero_n, neg_infinity}
use trader_cockpit_app.Js.Format.{Format}
use trader_cockpit_app.Charts.{ChartBar, max_n, highest, lowest}

pub record Range : Type 0 where
  pub from : ℕ
  pub size : ℕ

-- `Math.max(0, from)` and `Math.min(buckets - 1, to)`: none where the loop does nothing, as it does
-- for NaN.
abbrev pub clamp : ℕ → Option ℤ → Option ℤ → Option Range
clamp buckets (some (pos a)) (some (pos b)) =
    let last = min (buckets - 1) b in
    if leb a last then some (record { from = a; size = last - a + 1 }) else none
clamp buckets (some (negsuc a)) (some (pos b)) =
    some (record { from = 0; size = min (buckets - 1) b + 1 })
clamp buckets _ _ = none

module _ (N : Numbers) where
  open N use {Number}

  pub record ProfileRow : Type 0 where
    pub price : Number
    pub vol : Number
    pub pct : Number

module _ {N : Numbers} (F : Format N) where
  open N use {Number, lit, add, sub, mul, div, lt, eq}

  -- `new Array(buckets).fill(0)`.
  abbrev pub zeros : ℕ → List Number
  zeros zero = []
  zeros (suc n) = zero_n N ∷ zeros n

  -- Adds to the first places of a part of the array.
  abbrev pub add_first : ℕ → Number → List Number → List Number
  add_first zero v profile = profile
  add_first (suc n) v [] = []
  add_first (suc n) v (x ∷ profile) = add x v ∷ add_first n v profile

  -- `for (let i = bLo; i <= bHi; i++) profile[i] += v`.
  unfoldable pub add_range : ℕ → ℕ → Number → List Number → List Number
  add_range zero n v profile = add_first n v profile
  add_range (suc i) n v [] = []
  add_range (suc i) n v (x ∷ profile) = x ∷ add_range i n v profile

  abbrev pub add_volume : Option Range → Number → List Number → List Number
  add_volume none volume profile = profile
  add_volume (some r) volume profile = add_range r.from r.size (div volume (lit r.size 1)) profile

  unfoldable pub add_bars : ℕ → Number → Number → List (ChartBar N) → List Number → List Number
  add_bars buckets lo step [] profile = profile
  add_bars buckets lo step (b ∷ bars) profile = add_bars buckets lo step bars (
      add_volume
        (clamp buckets (F.floor (div (sub b.low lo) step)) (F.floor (div (sub b.high lo) step)))
        b.volume profile)

  -- `Math.max(...profile)`.
  unfoldable pub largest : List Number → Number
  largest [] = neg_infinity N
  largest (v ∷ vs) = max_n N v (largest vs)

  unfoldable pub profile_rows : Number → Number → Number → ℕ → List Number → List (ProfileRow N)
  profile_rows lo step max_vol i [] = []
  profile_rows lo step max_vol i (vol ∷ vols) =
      record {
        price = add lo (mul (add (lit i 1) (lit 5 10)) step);
        vol = vol;
        pct = if lt (zero_n N) max_vol then div vol max_vol else zero_n N;
      }
      ∷ profile_rows lo step max_vol (i + 1) vols

  unfoldable pub build_volume_profile : List (ChartBar N) → ℕ → List (ProfileRow N)
  build_volume_profile [] buckets = []
  build_volume_profile (b ∷ bs) buckets =
      let lo = lowest N (b ∷ bs) in
      let hi = highest N (b ∷ bs) in
      let step = div (sub hi lo) (lit buckets 1) in
      let profile = add_bars buckets lo step (b ∷ bs) (zeros buckets) in
      if eq hi lo then [] else profile_rows lo step (largest profile) 0 profile
