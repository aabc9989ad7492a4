-- ===== src/Signals/Hook/Pause.antt =====
-- Pausing the feed of CockpitUI/src/hooks/useSignals.ts and resuming it.
use mathlib.Core.List.{append-nil, append_assoc}
use trader_cockpit_app.Prelude.{
  true, false, List, [], ◌∷◌, ◌++◌, ◌≡◌, refl, sym, ap, ◌∙◌, length, if_elim, if_false, subst,
}
use trader_cockpit_app.Js.Numbers.{Numbers}
use trader_cockpit_app.Js.Collections.{has}
use trader_cockpit_app.Signals.Types.{Signal}
use trader_cockpit_app.Signals.Feed.{prepare}
use trader_cockpit_app.Signals.Hook.{
  Hook, signal, queue_metrics, push_signal, push_all, receive, toggle_pause,
}

module _ (N : Numbers) where
  -- A burst of signals, as the socket delivers them.
  pub receive_all : List (Signal N) → Hook N → Hook N
  receive_all [] h = h
  receive_all (s ∷ ss) h = receive_all ss (receive N (signal s) h)

  push_signal-paused : (s : Signal N) (h : Hook N) → (push_signal N s h).paused ≡ h.paused
  unfolding push_signal queue_metrics
  push_signal-paused s h =
      if_elim (λ (g : Hook N). g.paused ≡ h.paused)
        (has h.fetching (prepare N h.regime_by_symbol s).symbol) (λ known. refl) (λ new. refl)

  receive_running :
      (s : Signal N) (h : Hook N) → h.paused ≡ false → receive N (signal s) h ≡ push_signal N s h
  unfolding receive
  receive_running s h running = if_false _ _ running

  receive_all_running :
      (ss : List (Signal N)) (h : Hook N) → h.paused ≡ false → receive_all ss h ≡ push_all N ss h
  unfolding receive_all push_all
  receive_all_running [] h running = refl
  receive_all_running (s ∷ ss) h running =
      ap (receive_all ss) (receive_running s h running)
      ∙ receive_all_running ss (push_signal N s h) (push_signal-paused s h ∙ running)

  -- The hook as it is while paused, with a queue.
  abbrev holding : Hook N → List (Signal N) → Hook N
  holding h q = record h { paused = true; pending = q; pending_count = length q }

  receive_all-holding :
      (ss q : List (Signal N)) (h : Hook N) → receive_all ss (holding h q) ≡ holding h (q ++ ss)
  unfolding receive_all receive
  receive_all-holding [] q h = ap (holding h) (sym (append-nil q))
  receive_all-holding (s ∷ ss) q h =
      receive_all-holding ss (q ++ (s ∷ [])) h ∙ ap (holding h) (append_assoc q (s ∷ []) ss)

  abbrev released : Hook N → Hook N
  released h = record h { paused = false; pending = []; pending_count = 0 }

  resume_released :
      (ss : List (Signal N)) (h : Hook N)
      → toggle_pause N (receive_all ss (toggle_pause N (released h))) ≡ receive_all ss (released h)
  unfolding toggle_pause
  resume_released ss h =
      ap (toggle_pause N) (receive_all-holding ss [] h)
      ∙ sym (receive_all_running ss (released h) refl)

  released_self :
      (h : Hook N) → h.paused ≡ false → h.pending ≡ [] → h.pending_count ≡ 0 → released h ≡ h
  released_self h p q c = sym (λ i. record h { paused = p i; pending = q i; pending_count = c i })

  -- A burst of signals that falls between a pause and a resume leaves the hook as the same burst
  -- would have left it without them: no signal is lost, doubled or reordered, and the counts, the
  -- sounds and the symbols asked for are the same.
  pub pause_is_transparent :
      (ss : List (Signal N)) (h : Hook N)
      → h.paused ≡ false
      → h.pending ≡ []
      → h.pending_count ≡ 0
      → toggle_pause N (receive_all ss (toggle_pause N h)) ≡ receive_all ss h
  pause_is_transparent ss h p q c =
      subst (λ g. toggle_pause N (receive_all ss (toggle_pause N g)) ≡ receive_all ss g)
        (released_self h p q c) (resume_released ss h)
