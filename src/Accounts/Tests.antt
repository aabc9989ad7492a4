-- ===== src/Accounts/Tests.antt =====
-- A history of the accounts screen, and the theorem at it.
use trader_cockpit_app.Prelude.{none, some, List, [], ◌∷◌, ◌≡◌, refl}
use trader_cockpit_app.Js.Numbers.{Numbers}
use trader_cockpit_app.Js.Thousandths.{thousandths}
use trader_cockpit_app.Js.PlainFormat.{plain_format}
use trader_cockpit_app.Accounts.Hook.{
  AccountEvent, load_started, load_answered, saved, save_refused, loaded, initial_accounts,
  load_start, load_answer, save_refusal, account_step, account_steps,
}
use trader_cockpit_app.Accounts.Hook.Messages.{SaidBy, lasting_message_is_failure}

abbrev N : Numbers
N = thousandths

abbrev refused_save : List (AccountEvent N)
refused_save =
    load_started
    ∷ saved
    ∷ load_answered (loaded none none none none)
    ∷ save_refused (some "unknown client") "422"
    ∷ []

lasting_message_is_failure_example : SaidBy plain_format "unknown client" refused_save
unfolding initial_accounts load_start load_answer save_refusal account_step
lasting_message_is_failure_example =
    lasting_message_is_failure plain_format refused_save "unknown client" refl refl

saved_is_gone :
    (account_steps plain_format
      (saved ∷ load_answered (loaded none none none none) ∷ [])
      (initial_accounts N)).message
    ≡ none
unfolding initial_accounts load_start load_answer account_step
saved_is_gone = refl
