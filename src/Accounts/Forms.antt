-- ===== src/Accounts/Forms.antt =====
-- The forms of the accounts screen, ConfigureAccounts.tsx and HistoryImport.tsx of
-- CockpitUI/src/components/accounts. A call of the parent is a step that records it and a step for its
-- answer.
use trader_cockpit_app.Prelude.{
  String, ◌==◌, Bool, true, false, ◌||◌, Option, none, some, List, [], ◌∷◌, ◌++◌, if◌then◌else◌,
}
use trader_cockpit_app.Js.Numbers.{Numbers}
use trader_cockpit_app.Accounts.{AccountForm, empty_form, ZerodhaAccountStatus}
use trader_cockpit_app.Accounts.Hook.{or_text}
use trader_cockpit_app.Accounts.Edge.{needs_login}

-- `keyof AccountForm`.
pub data FormKey : Type 0 where
  account_id client_id display_name api_key api_secret strategy_capital : FormKey

pub record FormField : Type 0 where
  pub key : FormKey
  pub label : String
  pub input_type : String

abbrev pub form_field : FormKey → String → String → FormField
form_field key label input_type = record { key = key; label = label; input_type = input_type }

abbrev pub form_fields : List FormField
form_fields =
    form_field account_id "Account ID" "text"
    ∷ form_field client_id "Client ID" "text"
    ∷ form_field display_name "Display Name" "text"
    ∷ form_field api_key "API Key" "text"
    ∷ form_field api_secret "API Secret" "password"
    ∷ form_field strategy_capital "Strategy Capital" "number"
    ∷ []

-- `{ ...p, [key]: value }`.
abbrev pub with_field : FormKey → String → AccountForm → AccountForm
with_field account_id v f = record f { account_id = v }
with_field client_id v f = record f { client_id = v }
with_field display_name v f = record f { display_name = v }
with_field api_key v f = record f { api_key = v }
with_field api_secret v f = record f { api_secret = v }
with_field strategy_capital v f = record f { strategy_capital = v }

-- `calls` has the forms that `onSave` was called with.
pub record ConfigureAccounts : Type 0 where
  pub form : AccountForm
  pub show_links : Bool
  pub calls : List AccountForm

unfoldable pub open_configure : ConfigureAccounts
open_configure = record { form = empty_form; show_links = false; calls = [] }

unfoldable pub type_field : FormKey → String → ConfigureAccounts → ConfigureAccounts
type_field key v s = record s { form = with_field key v s.form }

unfoldable pub save_form : ConfigureAccounts → ConfigureAccounts
save_form s = record s { calls = s.calls ++ (s.form ∷ []) }

-- The answer of `onSave`.
unfoldable pub form_saved : Bool → ConfigureAccounts → ConfigureAccounts
form_saved ok s = if ok then record s { form = empty_form } else s

-- After `onGenerateLinks`.
unfoldable pub links_generated : ConfigureAccounts → ConfigureAccounts
links_generated s = record s { show_links = true }

-- The two files of the import.
pub data ImportKind : Type 0 where
  tradebook pnl : ImportKind

pub record ImportCall (File : Type 0) : Type 0 where
  pub kind : ImportKind
  pub account : String
  pub file : File

pub record HistoryImport (File : Type 0) : Type 0 where
  pub account_id : String
  pub tradebook : Option File
  pub pnl : Option File
  pub calls : List (ImportCall File)

module _ (N : Numbers) where
  unfoldable pub links_shown : ZerodhaAccountStatus N → ConfigureAccounts → Bool
  links_shown account s = s.show_links || needs_login N (some account)

  -- `accounts[0]?.account_id || ''`.
  abbrev pub first_account_id : List (ZerodhaAccountStatus N) → String
  first_account_id [] = ""
  first_account_id (a ∷ rest) = a.account_id

module _ {File : Type 0} where
  unfoldable pub open_import : HistoryImport File
  open_import = record { account_id = ""; tradebook = none; pnl = none; calls = [] }

  unfoldable pub choose_account : String → HistoryImport File → HistoryImport File
  choose_account a s = record s { account_id = a }

  -- `setTradebook` and `setPnl`.
  abbrev pub set_file : ImportKind → Option File → HistoryImport File → HistoryImport File
  set_file tradebook f s = record s { tradebook = f }
  set_file pnl f s = record s { pnl = f }

  abbrev pub file_of : ImportKind → HistoryImport File → Option File
  file_of tradebook s = s.tradebook
  file_of pnl s = s.pnl

  abbrev pub import_with :
      ImportKind → String → Option File → HistoryImport File → HistoryImport File
  import_with kind active none s = s
  import_with kind active (some f) s =
      if active == ""
      then s
      else record s { calls = s.calls ++ (record { kind = kind; account = active; file = f } ∷ []) }

  -- `submitTradebook` and `submitPnl`, up to the call, for the first of the accounts.
  unfoldable pub submit_import : ImportKind → String → HistoryImport File → HistoryImport File
  submit_import kind first s = import_with kind (or_text s.account_id first) (file_of kind s) s

  -- The answer of the call.
  unfoldable pub import_settled : ImportKind → Bool → HistoryImport File → HistoryImport File
  import_settled kind ok s = if ok then set_file kind none s else s
