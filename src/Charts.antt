-- ===== src/Charts.antt =====
-- Bars of the price chart: CockpitUI/src/lib/chartUtils.ts. The calendar of
-- `Date` is a parameter; the daily bars that are resampled have dates as times.
pub mod Grouping
pub mod Frames
pub mod Legend
pub mod Colors
pub mod Profile
pub mod Screen
mod Tests
use Prim.Native.String.{slice, ◌++◌ as ◌+++◌}
use trader_cockpit_app.Prelude.{
  ℕ, zero, suc, ◌+◌, ◌-◌, ◌%◌, nat_eq, String, ◌==◌, Bool, Option, none, some, List, [], ◌∷◌, ◌++◌,
  length, map, take, drop, ltb, if◌then◌else◌,
}
use trader_cockpit_app.Js.Numbers.{Numbers, zero_n, neg_infinity}
use trader_cockpit_app.Js.Text.{Locale}
use trader_cockpit_app.Js.Sort.{sort}

-- What `Date` makes of a date in UTC: the number of its day, and the text of a day (`toISOString`,
-- cut after the date). Days are counted from Monday, 1 January of the year 1.
pub record Calendar : Type 0 where
  pub day_of : String → ℕ
  pub date_text : ℕ → String

-- `getUTCDay`: Sunday is 0.
abbrev pub utc_day : ℕ → ℕ
utc_day n = (n + 1) % 7

-- The day shifted to its Monday, by -6 on a Sunday and by 1 - day otherwise.
unfoldable pub monday_of : ℕ → ℕ
monday_of n = if nat_eq (utc_day n) 0 then n - 6 else n + 1 - utc_day n

module _ (N : Numbers) where
  open N use {Number, lit, add, sub, mul, div, lt, is_nan}

  pub record ChartBar : Type 0 where
    pub time : String
    pub open_price : Number
    pub high : Number
    pub low : Number
    pub close : Number
    pub volume : Number

  -- `Math.max` and `Math.min` of two numbers.
  unfoldable pub max_n : Number → Number → Number
  max_n a b = if is_nan a then a else if is_nan b then b else if lt a b then b else a

  unfoldable pub min_n : Number → Number → Number
  min_n a b = if is_nan a then a else if is_nan b then b else if lt b a then b else a

  -- `Math.max(...bars.map(b => b.high))`, and its like.
  unfoldable pub highest : List ChartBar → Number
  unfolding max_n
  highest [] = neg_infinity N
  highest (b ∷ bs) = max_n b.high (highest bs)

  unfoldable pub lowest : List ChartBar → Number
  unfolding min_n
  lowest [] = N.infinity
  lowest (b ∷ bs) = min_n b.low (lowest bs)

  -- `reduce((s, b) => s + b.volume, s)`.
  unfoldable pub add_volumes : Number → List ChartBar → Number
  add_volumes s [] = s
  add_volumes s (b ∷ bs) = add_volumes (add s b.volume) bs

  unfoldable pub add_closes : Number → List ChartBar → Number
  add_closes s [] = s
  add_closes s (b ∷ bs) = add_closes (add s b.close) bs

  -- `if (!groups.has(key)) groups.set(key, []); groups.get(key)!.push(bar);`
  unfoldable pub push_bar :
      String → ChartBar → List (String × List ChartBar) → List (String × List ChartBar)
  push_bar key b [] = (key, b ∷ []) ∷ []
  push_bar key b ((k, g) ∷ rest) =
      let others = push_bar key b rest in
      if k == key then (k, g ++ (b ∷ [])) ∷ rest else (k, g) ∷ others

  unfoldable pub push_bars :
      (ChartBar → String)
      → List ChartBar
      → List (String × List ChartBar)
      → List (String × List ChartBar)
  unfolding push_bar
  push_bars key_of [] groups = groups
  push_bars key_of (b ∷ bs) groups = push_bars key_of bs (push_bar (key_of b) b groups)

  abbrev pub last_close : ChartBar → List ChartBar → Number
  last_close b [] = b.close
  last_close b (c ∷ cs) = last_close c cs

  -- One bar for a group; a group is never empty.
  unfoldable pub candle : (String → String) → String × List ChartBar → Option ChartBar
  candle time_of (key, []) = none
  candle time_of (key, b ∷ bs) = some (record {
    time = time_of key;
    open_price = b.open_price;
    high = highest (b ∷ bs);
    low = lowest (b ∷ bs);
    close = last_close b bs;
    volume = add_volumes (zero_n N) (b ∷ bs);
  })

  unfoldable pub candles : (String → String) → List (String × List ChartBar) → List ChartBar
  candles time_of [] = []
  candles time_of (g ∷ gs) = elim (candle time_of g) [
    | none ↦ candles time_of gs
    | some c ↦ c ∷ candles time_of gs
  ]

  abbrev pub before_key : Locale → String × List ChartBar → String × List ChartBar → Bool
  before_key locale g h = locale.before g.0 h.0

  -- The groups in the order of their keys.
  unfoldable pub sorted_groups :
      Locale → (ChartBar → String) → List ChartBar → List (String × List ChartBar)
  sorted_groups locale key_of bars = sort (before_key locale) (push_bars key_of bars [])

  -- The group of a bar in `resampleWeekly`.
  abbrev pub week_key : Calendar → ChartBar → String
  week_key calendar b = calendar.date_text (monday_of (calendar.day_of b.time))

  unfoldable pub resample_weekly : Locale → Calendar → List ChartBar → List ChartBar
  unfolding sorted_groups monday_of
  resample_weekly locale calendar bars =
      candles (λ key. key) (sorted_groups locale (week_key calendar) bars)

  -- The group of a bar in `resampleMonthly`.
  abbrev pub month_key : ChartBar → String
  month_key b = slice b.time 0 7

  unfoldable pub resample_monthly : Locale → List ChartBar → List ChartBar
  unfolding sorted_groups
  resample_monthly locale bars =
      candles (λ key. key +++ "-01") (sorted_groups locale month_key bars)

  -- A point of an average.
  pub record EmaPoint : Type 0 where
    pub time : String
    pub value : Number

  -- The loop after its first round.
  unfoldable pub ema_from : Number → Number → List ChartBar → List EmaPoint
  ema_from k ema [] = []
  ema_from k ema (b ∷ bs) =
      let next = add (mul b.close k) (mul ema (sub (lit 1 1) k)) in
      record { time = b.time; value = next } ∷ ema_from k next bs

  -- The first round, at the last bar of the seed, and the others.
  unfoldable pub ema_rounds : Number → Number → List ChartBar → List EmaPoint
  ema_rounds k seed [] = []
  ema_rounds k seed (b ∷ bs) = record { time = b.time; value = seed } ∷ ema_from k seed bs

  -- `computeEMA`, for a period of at least 1.
  unfoldable pub compute_ema : List ChartBar → ℕ → List EmaPoint
  compute_ema bars period =
      if ltb (length bars) period
      then []
      else ema_rounds (div (lit 2 1) (lit (period + 1) 1))
          (div (add_closes (zero_n N) (take period bars)) (lit period 1)) (drop (period - 1) bars)
