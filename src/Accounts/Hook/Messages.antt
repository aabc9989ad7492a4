-- ===== src/Accounts/Hook/Messages.antt =====
-- Which messages of CockpitUI/src/components/accounts/useAccountsData.ts last.
use Prim.Native.String.{◌++◌ as ◌+++◌}
use trader_cockpit_app.Prelude.{
  String, ◌==◌, false, Option, none, some, get_or, List, [], ◌∷◌, ◌≡◌, ◌⊎◌, inl, inr, if_elim,
}
use trader_cockpit_app.Js.Numbers.{Numbers}
use trader_cockpit_app.Js.Format.{Format}
use trader_cockpit_app.Accounts.{AccountState}
use trader_cockpit_app.Accounts.Hook.{
  loaded, not_ok, thrown, AccountEvent, load_started, load_answered, window_message, saved,
  save_refused, sync_started, sync_answered, sync_thrown, imported, import_refused,
  initial_accounts, load_start, load_answer, say_and_load, on_message, save_refusal, import_refusal,
  account_step, account_steps,
}

module _ {N : Numbers} (F : Format N) where
  -- The text that a failed request gives.
  abbrev pub failure_text : AccountEvent N → Option String
  failure_text (load_answered not_ok) = some "account dashboard API failed"
  failure_text (load_answered (thrown m)) = some (get_or m "failed to load accounts")
  failure_text (save_refused detail status) = some (get_or detail ("save failed HTTP " +++ status))
  failure_text (import_refused detail) = some (get_or detail "history import failed")
  failure_text _ = none

  -- A text that a failed request of the history gave.
  pub data SaidBy (t : String) : List (AccountEvent N) → Type 0 where
    now :
        {e : AccountEvent N} {es : List (AccountEvent N)}
        → failure_text e ≡ some t
        → SaidBy t (e ∷ es)
    later : {e : AccountEvent N} {es : List (AccountEvent N)} → SaidBy t es → SaidBy t (e ∷ es)

  -- A message that lasts, nothing being loaded, has `P`.
  abbrev LastsIn : (String → Type 0) → AccountState N → Type 0
  LastsIn P s = s.loading ≡ false → (t : String) → s.message ≡ some t → P t

  abbrev OrFrom : AccountEvent N → (String → Type 0) → String → Type 0
  OrFrom e P t = (failure_text e ≡ some t) ⊎ P t

  say_and_load-LastsIn :
      (P : String → Type 0) (text : String) (s : AccountState N) → LastsIn P (say_and_load N text s)
  unfolding load_start
  say_and_load-LastsIn P text s l t m = cc

  account_step-LastsIn :
      (P : String → Type 0) (e : AccountEvent N) (s : AccountState N)
      → LastsIn P s
      → LastsIn (OrFrom e P) (account_step F e s)
  unfolding account_step load_start load_answer on_message save_refusal import_refusal
  account_step-LastsIn P load_started s h l t m = cc
  account_step-LastsIn P (load_answered (loaded a d x y)) s h l t m = cc
  account_step-LastsIn P (load_answered not_ok) s h l t m = inl m
  account_step-LastsIn P (load_answered (thrown x)) s h l t m = inl m
  account_step-LastsIn P (window_message source id text) s h l t m =
      if_elim (LastsIn (OrFrom (window_message source id text) P)) (source == "zerodha-auth")
        (λ ours l t m. cc) (λ other l t m. inr (h l t m)) l t m
  account_step-LastsIn P saved s h l t m = cc
  account_step-LastsIn P (save_refused d status) s h l t m = inl m
  account_step-LastsIn P sync_started s h l t m = cc
  account_step-LastsIn P (sync_answered results text) s h l t m = cc
  account_step-LastsIn P sync_thrown s h l t m = inr (h l t m)
  account_step-LastsIn P (imported count label id) s h l t m = cc
  account_step-LastsIn P (import_refused d) s h l t m = inl m

  account_steps-LastsIn :
      (P : String → Type 0) (es : List (AccountEvent N)) (s : AccountState N)
      → LastsIn P s
      → LastsIn (λ t. SaidBy t es ⊎ P t) (account_steps F es s)
  account_steps-LastsIn P [] s h l t m = inr (h l t m)
  account_steps-LastsIn P (e ∷ es) s h l t m =
      elim (account_steps-LastsIn (OrFrom e P) es (account_step F e s)
        (account_step-LastsIn P e s h) l t m) [
          | inl said ↦ inl (later said)
          | inr (inl said) ↦ inl (now said)
          | inr (inr p) ↦ inr p
        ]

  no_message_at_first : LastsIn (λ t. ⊥) (initial_accounts N)
  unfolding initial_accounts
  no_message_at_first l t m = cc

  -- In any history of requests and answers, these in any order: once nothing is being loaded, a
  -- message that is shown is the text of a failed request. So that an account was saved, what a
  -- sync did and what was imported is said only until the reload that follows is answered.
  pub lasting_message_is_failure :
      (es : List (AccountEvent N)) (t : String)
      → (account_steps F es (initial_accounts N)).loading ≡ false
      → (account_steps F es (initial_accounts N)).message ≡ some t
      → SaidBy t es
  lasting_message_is_failure es t l m =
      elim (account_steps-LastsIn (λ t. ⊥) es (initial_accounts N) no_message_at_first l t m) [
        | inl said ↦ said
        | inr none_at_first ↦ absurd none_at_first
      ]
