-- ===== src/Signals/Socket/Lifecycle.antt =====
-- The life of the connection of CockpitUI/src/hooks/useSignals.ts: one socket or one retry at a
-- time, late events, the unmount, and recovery.
use trader_cockpit_app.Prelude.{
  ℕ, ◌<◌, Bool, true, false, not, nat_eq, filter, Bool-cases, inl, inr, Option, none, some, List,
  [], ◌∷◌, ◌≡◌, ◌≢◌, refl, arith,
}
use trader_cockpit_app.Signals.Socket.{
  connected, disconnected, Socket, connect, mount, unmount, SocketEvent, opened, errored, closed,
  messaged, retry_due, unmounted, handle, handle_all,
}

-- The socket in hand, or its absence, against the retry timer and the badge.
abbrev pub Agrees : Option ℕ → Socket → Type 0
Agrees none s = (s.destroyed ≡ false → (s.retry_timer ≡ true) × (s.conn_state ≡ disconnected))
Agrees (some id) s =
    (id < s.made) × (s.retry_timer ≡ false) × (s.destroyed ≡ false → s.conn_state ≢ disconnected)

-- While the effect is mounted there is a socket in hand or a retry to come, and never both; the
-- badge says "disconnected" exactly while the retry is to come; an unmounted effect has no timer.
pub record IsLive (s : Socket) : Type 0 where
  pub agrees : Agrees s.current s
  pub quiet : s.destroyed ≡ true → s.retry_timer ≡ false

mount-IsLive : IsLive mount
unfolding mount
mount-IsLive = record { agrees = (omega arith, refl, λ d e. cc); quiet = λ e. refl }

handle-Agrees :
    (e : SocketEvent) (s : Socket) (c : Option ℕ) → s.current ≡ c → IsLive s → IsLive (handle e s)
unfolding handle connect
handle-Agrees (opened id) s none e v = ground arith
handle-Agrees (opened id) s (some j) e v = ground arith
handle-Agrees (errored id) s none e v = ground arith
handle-Agrees (errored id) s (some j) e v = ground arith
handle-Agrees (closed id) s none e v = ground arith
handle-Agrees (closed id) s (some j) e v = ground arith
handle-Agrees (messaged id) s none e v = ground arith
handle-Agrees (messaged id) s (some j) e v = ground arith
handle-Agrees retry_due s none e v = ground arith
handle-Agrees retry_due s (some j) e v = ground arith
handle-Agrees unmounted s none e v = ground arith
handle-Agrees unmounted s (some j) e v = ground arith

handle_all-IsLive : (es : List SocketEvent) (s : Socket) → IsLive s → IsLive (handle_all es s)
unfolding handle_all
handle_all-IsLive [] s v = v
handle_all-IsLive (e ∷ es) s v =
    handle_all-IsLive es (handle e s) (handle-Agrees e s s.current refl v)

-- Whatever events the host delivers, and in whatever order, from the mount on: while the effect is
-- mounted there is either a socket in hand, which is not shown as disconnected, or a retry to come,
-- which is; never both and never neither; and an unmounted effect has no timer.
pub handle_all-mount-IsLive : (es : List SocketEvent) → IsLive (handle_all es mount)
handle_all-mount-IsLive es = handle_all-IsLive es mount mount-IsLive

-- No opening, error or close of this socket. A message of any socket is passed on.
abbrev pub not_of : ℕ → SocketEvent → Bool
not_of id (opened j) = not (nat_eq j id)
not_of id (errored j) = not (nat_eq j id)
not_of id (closed j) = not (nat_eq j id)
not_of id (messaged j) = true
not_of id retry_due = true
not_of id unmounted = true

-- The socket was made, and it is not in hand.
abbrev IsOld : ℕ → Socket → Type 0
IsOld id s = (id < s.made) × (s.current ≢ some id)

handle-IsOld : (e : SocketEvent) (id : ℕ) (s : Socket) → IsOld id s → IsOld id (handle e s)
unfolding handle connect
handle-IsOld (opened j) id s h = ground arith
handle-IsOld (errored j) id s h = ground arith
handle-IsOld (closed j) id s h = ground arith
handle-IsOld (messaged j) id s h = ground arith
handle-IsOld retry_due id s h = ground arith
handle-IsOld unmounted id s h = ground arith

handle-old :
    (e : SocketEvent) (id : ℕ) (s : Socket) → IsOld id s → not_of id e ≡ false → handle e s ≡ s
unfolding handle
handle-old (opened j) id s h e = ground arith
handle-old (errored j) id s h e = ground arith
handle-old (closed j) id s h e = ground arith
handle-old (messaged j) id s h e = cc
handle-old retry_due id s h e = cc
handle-old unmounted id s h e = cc

-- A socket that was made and is no longer in hand never comes back: in whatever history follows, its
-- openings, errors and closes leave no trace, the whole history ending in the same state as without
-- them.
pub old_socket_leaves_no_trace :
    (es : List SocketEvent) (id : ℕ) (s : Socket)
    → id < s.made
    → s.current ≢ some id
    → handle_all es s ≡ handle_all (filter (not_of id) es) s
unfolding handle_all
old_socket_leaves_no_trace [] id s made old = refl
old_socket_leaves_no_trace (e ∷ es) id s made old = elim (Bool-cases (not_of id e)) [
  | inl other ↦
      let h = handle-IsOld e id s (made, old) in
      rw other (old_socket_leaves_no_trace es id (handle e s) h.0 h.1)
  | inr own ↦
      rw (own, handle-old e id s (made, old) own) (old_socket_leaves_no_trace es id s made old)
]

record IsGone (n : ℕ) (s : Socket) : Type 0 where
  destroyed : s.destroyed ≡ true
  quiet : s.retry_timer ≡ false
  made : s.made ≡ n

handle-IsGone : (e : SocketEvent) (n : ℕ) (s : Socket) → IsGone n s → IsGone n (handle e s)
unfolding handle connect
handle-IsGone (opened id) n s g = ground arith
handle-IsGone (errored id) n s g = ground arith
handle-IsGone (closed id) n s g = ground arith
handle-IsGone (messaged id) n s g = ground arith
handle-IsGone retry_due n s g = ground arith
handle-IsGone unmounted n s g = ground arith

handle_all-IsGone :
    (es : List SocketEvent) (n : ℕ) (s : Socket) → IsGone n s → IsGone n (handle_all es s)
unfolding handle_all
handle_all-IsGone [] n s g = g
handle_all-IsGone (e ∷ es) n s g = handle_all-IsGone es n (handle e s) (handle-IsGone e n s g)

-- After the unmount no event makes a socket or sets the retry timer.
pub unmount_is_final :
    (es : List SocketEvent) (s : Socket)
    → let t = handle_all es (unmount s) in (t.made ≡ s.made) × (t.retry_timer ≡ false)
unfolding unmount
unmount_is_final es s =
    let g =
      handle_all-IsGone es s.made (unmount s)
        (record { destroyed = refl; quiet = refl; made = refl }) in
    (g.made, g.quiet)

-- The host's part in a recovery: a retry if one is to come, then the opening of the socket.
abbrev pub recovery : Socket → List SocketEvent
recovery s = elim s.current [ none ↦ retry_due ∷ opened s.made ∷ [] | some id ↦ opened id ∷ [] ]

recover_from :
    (c : Option ℕ) (s : Socket)
    → s.current ≡ c
    → s.destroyed ≡ false
    → IsLive s
    → (handle_all (recovery s) s).conn_state ≡ connected
unfolding handle_all handle connect
recover_from none s e d v = ground arith
recover_from (some id) s e d v = ground arith

-- However the connection failed, at most one retry and one opening later it is back.
pub recovery-connected :
    (es : List SocketEvent)
    → let s = handle_all es mount in
      s.destroyed ≡ false → (handle_all (recovery s) s).conn_state ≡ connected
recovery-connected es d =
    recover_from (handle_all es mount).current (handle_all es mount) refl d
      (handle_all-mount-IsLive es)
