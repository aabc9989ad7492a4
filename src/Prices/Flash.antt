-- ===== src/Prices/Flash.antt =====
-- CockpitUI/src/components/ui/LivePrice.tsx: the tone of a price and the flash on a tick. The class
-- names go through `cn`, a parameter.
pub mod Timer
use Prim.Native.String.{◌++◌ as ◌+++◌}
use trader_cockpit_app.Prelude.{
  ℕ, ◌+◌, String, Bool, true, false, ◌&&◌, ◌||◌, Option, none, some, List, [], ◌∷◌, nat_eq, is_some,
  if◌then◌else◌,
}
use trader_cockpit_app.Js.Numbers.{Numbers, zero_n}
use trader_cockpit_app.Js.Format.{Format}
use trader_cockpit_app.Display.Fmt.{fmt2}
use trader_cockpit_app.Prices.{LivePriceData}

pub data PriceTone : Type 0 where
  bull bear neutral : PriceTone

pub data TickFlash : Type 0 where
  up down no_flash : TickFlash

abbrev pub dir_color : PriceTone → String
dir_color bull = "rgb(var(--bull))"
dir_color bear = "rgb(var(--bear))"
dir_color neutral = "rgb(var(--ghost))"

abbrev pub dir_bg : PriceTone → String
dir_bg bull = "rgba(13,177,118,0.10)"
dir_bg bear = "rgba(229,73,93,0.10)"
dir_bg neutral = "rgba(109,124,132,0.06)"

abbrev pub flash_class : TickFlash → String
flash_class up = "price-flash price-flash-up"
flash_class down = "price-flash price-flash-down"
flash_class no_flash = ""

-- The attributes of the span that is shown.
pub record PriceSpan : Type 0 where
  pub key : ℕ
  pub class_name : String
  pub color : String
  pub background : Option String
  pub title : Option String
  pub text : String

pub data PriceView : Type 0 where
  dash : PriceView
  span : PriceSpan → PriceView

module _ (N : Numbers) where
  open N use {Number, lit, neg, sub, div, lt, eq}

  unfoldable pub price_dir : Option Number → Option Number → PriceTone
  price_dir none prev_close = neutral
  price_dir (some ltp) none = neutral
  price_dir (some ltp) (some prev_close) =
      let chg = div (sub ltp prev_close) prev_close in
      if eq prev_close (zero_n N)
      then neutral
      else if lt (lit 1 10000) chg
      then bull
      else if lt chg (neg (lit 1 10000))
      then bear
      else neutral

  -- The refs and the state of `FlashPrice`. `timer` is the `nextSeq` of the timer that is set.
  pub record FlashPrice : Type 0 where
    pub last_price : Option Number
    pub flash_seq : ℕ
    pub dir : TickFlash
    pub seq : ℕ
    pub timer : Option ℕ

  unfoldable pub mount_flash : Option Number → FlashPrice
  mount_flash price = record {
    last_price = price;
    flash_seq = 0;
    dir = no_flash;
    seq = 0;
    timer = none;
  }

  -- `setFlash` and `setTimeout`, the sequence number one further.
  abbrev pub start_flash : TickFlash → FlashPrice → FlashPrice
  start_flash d s =
      let next_seq = s.flash_seq + 1 in
      record s { flash_seq = next_seq; dir = d; seq = next_seq; timer = some next_seq }

  -- The last lines of the effect, from the price before.
  abbrev pub tick : Option Number → Number → FlashPrice → FlashPrice
  tick none price s = s
  tick (some previous) price s =
      if eq previous price then s else start_flash (if lt previous price then up else down) s

  -- The cleanup of the last effect and the effect, for the price that has come.
  unfoldable pub price_changed : Option Number → FlashPrice → FlashPrice
  price_changed none s = record s { last_price = none; timer = none }
  price_changed (some price) s =
      tick s.last_price price (record s { last_price = some price; timer = none })

  -- The callback of the timer, when it is due.
  abbrev pub end_flash : Option ℕ → FlashPrice → FlashPrice
  end_flash none s = s
  end_flash (some next_seq) s = record s {
    dir = if nat_eq s.seq next_seq then no_flash else s.dir;
    timer = none;
  }

  unfoldable pub timer_due : FlashPrice → FlashPrice
  timer_due s = end_flash s.timer s

  module _ (F : Format N) (cn : List String → String) where
    unfoldable pub flash_view :
        Option Number → Option Number → String → Bool → Option String → FlashPrice → PriceView
    flash_view none prev_close class_name show_background title s = dash
    flash_view (some price) prev_close class_name show_background title s =
        let tone = price_dir (some price) prev_close in
        span (record {
          key = s.seq;
          class_name = cn (
              "num inline-block rounded px-1 py-0.5 font-black tabular-nums"
              ∷ flash_class s.dir
              ∷ class_name
              ∷ []);
          color = dir_color tone;
          background = if show_background then some (dir_bg tone) else none;
          title = title;
          text = fmt2 F (some price);
        })

    -- `ltp ?? prevClose`.
    abbrev pub shown_price : LivePriceData N → Option Number
    shown_price d = elim d.ltp [ none ↦ d.prev_close | some ltp ↦ some ltp ]

    abbrev pub prev_close_note : Option Number → String
    prev_close_note none = ""
    prev_close_note (some c) = " · prev close " +++ fmt2 F (some c)

    -- `LivePrice`: nothing where there is no price.
    unfoldable pub live_price : LivePriceData N → Bool → String → FlashPrice → Option PriceView
    live_price d market_open class_name s =
        let live = market_open && is_some d.ltp in
        let tip = (if live then "Live price" else "Last price") +++ prev_close_note d.prev_close in
        if is_some (shown_price d)
        then some (
            flash_view (shown_price d) d.prev_close (cn ("text-[12px]" ∷ class_name ∷ [])) live
              (some tip) s)
        else none
