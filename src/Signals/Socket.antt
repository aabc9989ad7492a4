-- ===== src/Signals/Socket.antt =====
-- The connection effect of CockpitUI/src/hooks/useSignals.ts. Sockets are numbered in the order in
-- which they are made. The host delivers their events, late ones too, and runs the retry timer only
-- while it is set; `closes` records the calls of `close`, and `heard` the sockets whose messages were
-- taken: what `onmessage` does with a message is `receive` of Signals/Hook.
pub mod Lifecycle
use trader_cockpit_app.Prelude.{
  ℕ, suc, Bool, true, false, not, ◌&&◌, ◌||◌, Option, none, some, List, [], ◌∷◌, ◌++◌, nat_eq,
  if◌then◌else◌,
}

pub data ConnState : Type 0 where
  connecting connected disconnected : ConnState

pub record Socket : Type 0 where
  pub current : Option ℕ
  pub made : ℕ
  pub retry_timer : Bool
  pub destroyed : Bool
  pub conn_state : ConnState
  pub closes : List ℕ
  pub heard : List ℕ

-- `socket === nextSocket`.
abbrev pub is_current : ℕ → Option ℕ → Bool
is_current id none = false
is_current id (some j) = nat_eq j id

unfoldable pub connect : Socket → Socket
connect s = if s.destroyed then s else record s { current = some s.made; made = suc s.made }

-- The mount of the effect.
unfoldable pub mount : Socket
unfolding connect
mount = connect (record {
  current = none;
  made = 0;
  retry_timer = false;
  destroyed = false;
  conn_state = connecting;
  closes = [];
  heard = [];
})

unfoldable pub on_open : ℕ → Socket → Socket
on_open id s = if not (is_current id s.current) then s else record s { conn_state = connected }

unfoldable pub on_error : ℕ → Socket → Socket
on_error id s = if is_current id s.current then record s { closes = s.closes ++ (id ∷ []) } else s

unfoldable pub on_close : ℕ → Socket → Socket
on_close id s =
    if not (is_current id s.current) || s.destroyed
    then s
    else record s { conn_state = disconnected; current = none; retry_timer = true }

-- `onmessage` does not ask whether the socket is the one in hand.
unfoldable pub on_message : ℕ → Socket → Socket
on_message id s = record s { heard = s.heard ++ (id ∷ []) }

-- The callback of the retry timer, which is spent when it runs.
unfoldable pub on_retry : Socket → Socket
unfolding connect
on_retry s = connect (record s { retry_timer = false; conn_state = connecting })

-- `socket?.close()`.
abbrev pub close_current : Option ℕ → List ℕ → List ℕ
close_current none closes = closes
close_current (some id) closes = closes ++ (id ∷ [])

unfoldable pub unmount : Socket → Socket
unmount s = record s {
  destroyed = true;
  closes = close_current s.current s.closes;
  retry_timer = false;
}

pub data SocketEvent : Type 0 where
  opened errored closed messaged : ℕ → SocketEvent
  retry_due unmounted : SocketEvent

unfoldable pub handle : SocketEvent → Socket → Socket
unfolding on_open on_error on_close on_message on_retry unmount
handle (opened id) s = on_open id s
handle (errored id) s = on_error id s
handle (closed id) s = on_close id s
handle (messaged id) s = on_message id s
handle retry_due s = if s.retry_timer then on_retry s else s
handle unmounted s = unmount s

unfoldable pub handle_all : List SocketEvent → Socket → Socket
handle_all [] s = s
handle_all (e ∷ es) s = handle_all es (handle e s)
