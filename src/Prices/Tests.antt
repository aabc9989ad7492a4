-- ===== src/Prices/Tests.antt =====
-- A run of the live prices, and the theorem at an input.
use trader_cockpit_app.Prelude.{none, some, List, [], ◌∷◌, ◌≡◌, refl}
use trader_cockpit_app.Js.Numbers.{Numbers}
use trader_cockpit_app.Js.Collections.{empty_object}
use trader_cockpit_app.Js.Thousandths.{thousandths, pos}
use trader_cockpit_app.Prices.{
  PriceStep, streamed, watch, price_steps, take_price, price_in, pick_prices, ltp_of,
}
use trader_cockpit_app.Prices.Flash.{up, no_flash, mount_flash, price_changed, timer_due}
use trader_cockpit_app.Prices.Flash.Timer.{price, flash_steps, flash_goes_out}
use trader_cockpit_app.Prices.Stream.{
  StreamEvent, used, failed, timer_came, stream_steps, ensure_price_stream, no_stream, IsWatched,
  stream_steps-ensure_price_stream-IsWatched,
}
use trader_cockpit_app.Prices.Agreement.{AgreesWithShared, price_steps-watch-AgreesWithShared}

abbrev N : Numbers
N = thousandths

abbrev two_messages : List (PriceStep N)
two_messages =
    streamed (some "price") (some "TCS") (some (pos 5000))
    ∷ streamed (some "price") (some "INFY") (some (pos 7000))
    ∷ []

price_run :
    ltp_of N ((price_steps N two_messages (watch N ("TCS" ∷ []) empty_object)).prices "TCS")
    ≡ some (pos 5000)
unfolding price_steps take_price price_in watch pick_prices
price_run = refl

price_steps-watch-AgreesWithShared_example :
    AgreesWithShared N (price_steps N two_messages (watch N ("TCS" ∷ []) empty_object))
price_steps-watch-AgreesWithShared_example =
    price_steps-watch-AgreesWithShared N ("TCS" ∷ []) empty_object two_messages

flash_goes_out_example :
    let s = flash_steps N (price (pos 1000) ∷ price (pos 1005) ∷ []) (mount_flash N none) in
    let t = price_changed N (some (pos 1010)) (price_changed N none s) in
    ((timer_due N s).dir ≡ no_flash) × (t.dir ≡ s.dir) × (t.timer ≡ none)
flash_goes_out_example =
    flash_goes_out N none (price (pos 1000) ∷ price (pos 1005) ∷ []) (pos 1010) (tt, (refl, tt))

up_tick : (flash_steps N (price (pos 1000) ∷ price (pos 1005) ∷ []) (mount_flash N none)).dir ≡ up
unfolding mount_flash price_changed
up_tick = refl

abbrev outage : List StreamEvent
outage = used ∷ failed ∷ used ∷ timer_came ∷ failed ∷ []

stream_steps-ensure_price_stream-IsWatched_example :
    IsWatched (stream_steps outage (ensure_price_stream no_stream))
stream_steps-ensure_price_stream-IsWatched_example =
    stream_steps-ensure_price_stream-IsWatched outage
