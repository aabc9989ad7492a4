-- ===== src/Prices/Stream.antt =====
-- The stream of prices in CockpitUI/src/hooks/useLivePrices.ts, in the browser: `ensurePriceStream`
-- with its error handler and its timers. The sources that are made have numbers.
use trader_cockpit_app.Prelude.{
  ℕ, zero, suc, ◌+◌, ◌≤◌, Option, none, some, List, [], ◌∷◌, ◌≡◌, refl, arith,
}

-- `timers` counts the calls of `setTimeout` that are still to come.
pub record PriceStream : Type 0 where
  pub shared_events : Option ℕ
  pub made : ℕ
  pub closed : ℕ
  pub timers : ℕ

unfoldable pub no_stream : PriceStream
no_stream = record { shared_events = none; made = 0; closed = 0; timers = 0 }

-- A stream that is there is kept.
abbrev pub make_stream : Option ℕ → PriceStream → PriceStream
make_stream none s = record s { shared_events = some s.made; made = suc s.made }
make_stream (some id) s = s

unfoldable pub ensure_price_stream : PriceStream → PriceStream
ensure_price_stream s = make_stream s.shared_events s

-- `sharedEvents?.close()`.
abbrev pub close_stream : Option ℕ → PriceStream → PriceStream
close_stream none s = s
close_stream (some id) s = record s { shared_events = none; closed = suc s.closed }

-- `onerror`.
unfoldable pub stream_error : PriceStream → PriceStream
stream_error s = let t = close_stream s.shared_events s in record t { timers = suc t.timers }

-- A timer that comes, where there is one.
abbrev pub after_timer : ℕ → PriceStream → PriceStream
after_timer zero s = s
after_timer (suc n) s = ensure_price_stream (record s { timers = n })

unfoldable pub stream_timer_due : PriceStream → PriceStream
stream_timer_due s = after_timer s.timers s

pub data StreamEvent : Type 0 where
  used failed timer_came : StreamEvent

abbrev pub stream_step : StreamEvent → PriceStream → PriceStream
stream_step used s = ensure_price_stream s
stream_step failed s = stream_error s
stream_step timer_came s = stream_timer_due s

abbrev pub stream_steps : List StreamEvent → PriceStream → PriceStream
stream_steps [] s = s
stream_steps (e ∷ es) s = stream_steps es (stream_step e s)

abbrev pub open_streams : Option ℕ → ℕ
open_streams none = 0
open_streams (some id) = 1

-- All sources that were made are closed but the one in hand, and without one a timer is to come.
pub record IsWatched (s : PriceStream) : Type 0 where
  pub balance : s.made ≡ s.closed + open_streams s.shared_events
  pub live : 1 ≤ open_streams s.shared_events + s.timers

make_stream-IsWatched :
    (current : Option ℕ) (s : PriceStream)
    → s.shared_events ≡ current
    → s.made ≡ s.closed + open_streams current
    → IsWatched (make_stream current s)
make_stream-IsWatched none s e h = record { balance = omega arith; live = omega arith }
make_stream-IsWatched (some id) s e h = record { balance = rw e h; live = rw e (omega arith) }

ensure_price_stream-IsWatched :
    (s : PriceStream)
    → s.made ≡ s.closed + open_streams s.shared_events
    → IsWatched (ensure_price_stream s)
unfolding ensure_price_stream
ensure_price_stream-IsWatched s h = make_stream-IsWatched s.shared_events s refl h

closed_stream-IsWatched :
    (current : Option ℕ) (s : PriceStream)
    → s.shared_events ≡ current
    → s.made ≡ s.closed + open_streams current
    → (n : ℕ) → IsWatched (record (close_stream current s) { timers = suc n })
closed_stream-IsWatched none s e h n = record { balance = rw e h; live = omega arith }
closed_stream-IsWatched (some id) s e h n = record { balance = omega arith; live = omega arith }

stream_error-IsWatched : (s : PriceStream) → IsWatched s → IsWatched (stream_error s)
unfolding stream_error
stream_error-IsWatched s h =
    closed_stream-IsWatched s.shared_events s refl h.balance (close_stream s.shared_events s).timers

after_timer-IsWatched : (n : ℕ) (s : PriceStream) → IsWatched s → IsWatched (after_timer n s)
after_timer-IsWatched zero s h = h
after_timer-IsWatched (suc n) s h =
    ensure_price_stream-IsWatched (record s { timers = n }) h.balance

stream_step-IsWatched :
    (e : StreamEvent) (s : PriceStream) → IsWatched s → IsWatched (stream_step e s)
unfolding stream_timer_due
stream_step-IsWatched used s h = ensure_price_stream-IsWatched s h.balance
stream_step-IsWatched failed s h = stream_error-IsWatched s h
stream_step-IsWatched timer_came s h = after_timer-IsWatched s.timers s h

stream_steps-IsWatched :
    (es : List StreamEvent) (s : PriceStream) → IsWatched s → IsWatched (stream_steps es s)
stream_steps-IsWatched [] s h = h
stream_steps-IsWatched (e ∷ es) s h =
    stream_steps-IsWatched es (stream_step e s) (stream_step-IsWatched e s h)

-- After the first use of the hook, whatever uses, errors and timers follow in any order: at most one
-- source of prices is open, every other one that was made is closed, and where none is open a timer
-- that opens one is still to come.
pub stream_steps-ensure_price_stream-IsWatched :
    (es : List StreamEvent) → IsWatched (stream_steps es (ensure_price_stream no_stream))
unfolding no_stream
stream_steps-ensure_price_stream-IsWatched es =
    stream_steps-IsWatched es (ensure_price_stream no_stream)
      (ensure_price_stream-IsWatched no_stream refl)
