-- ===== src/Accounts/Hook.antt =====
-- CockpitUI/src/components/accounts/useAccountsData.ts. A request is its start and its answer, and
-- the reload after a success starts in the same step as its message.
pub mod Messages
use Prim.Native.String.{◌++◌ as ◌+++◌}
use trader_cockpit_app.Prelude.{
  String, ◌==◌, Bool, true, false, not, ◌&&◌, Option, none, some, get_or, List, [], ◌∷◌, map,
  if◌then◌else◌,
}
use trader_cockpit_app.Js.Numbers.{Numbers, zero_n}
use trader_cockpit_app.Js.Format.{Format}
use trader_cockpit_app.Accounts.{ZerodhaAccountStatus, Dashboard, TradeRow, AccountState}

-- `texts.join(', ')`.
unfoldable pub join_commas : List String → String
join_commas [] = ""
join_commas (t ∷ []) = t
join_commas (t ∷ u ∷ ts) = t +++ (", " +++ join_commas (u ∷ ts))

-- `a || b` of texts.
abbrev pub or_text : String → String → String
or_text a b = if a == "" then b else a

module _ (N : Numbers) where
  -- The answers to the three requests of `load`: their bodies, a list being none where the body has
  -- no array; an answer that is not ok; or an exception, with the message of an `Error`.
  pub data LoadReply : Type 0 where
    loaded :
        Option (List (ZerodhaAccountStatus N))
        → Option (Dashboard N)
        → Option (List (TradeRow N))
        → Option (List (TradeRow N))
        → LoadReply
    not_ok : LoadReply
    thrown : Option String → LoadReply

  pub record SyncResult : Type 0 where
    pub account_id : String
    pub status : String
    pub orders : Option (N.Number)
    pub trades : Option (N.Number)

  pub data AccountEvent : Type 0 where
    load_started : AccountEvent
    load_answered : LoadReply → AccountEvent
    -- The message of the login window: its source, the account and the text.
    window_message : String → String → String → AccountEvent
    saved : AccountEvent
    -- The text of `detail`, and of the status.
    save_refused : Option String → String → AccountEvent
    sync_started : AccountEvent
    -- `accounts` and `message` of the body, empty where there is none.
    sync_answered : List SyncResult → String → AccountEvent
    sync_thrown : AccountEvent
    -- The count of the body as a text, the label and the account.
    imported : String → String → String → AccountEvent
    import_refused : Option String → AccountEvent

  unfoldable pub initial_accounts : AccountState N
  initial_accounts = record {
    accounts = [];
    dashboard = none;
    trades = [];
    latest_day_trades = [];
    message = none;
    loading = false;
  }

  unfoldable pub load_start : AccountState N → AccountState N
  load_start s = record s { loading = true }

  unfoldable pub load_answer : LoadReply → AccountState N → AccountState N
  load_answer (loaded accounts dashboard trades latest) s = record {
    accounts = get_or accounts [];
    dashboard = dashboard;
    trades = get_or trades [];
    latest_day_trades = get_or latest [];
    message = none;
    loading = false;
  }
  load_answer not_ok s = record s { message = some "account dashboard API failed"; loading = false }
  load_answer (thrown m) s = record s {
    message = some (get_or m "failed to load accounts");
    loading = false;
  }

  -- `patch({ message }); await load()`.
  abbrev pub say_and_load : String → AccountState N → AccountState N
  say_and_load text s = load_start (record s { message = some text })

  unfoldable pub on_message : String → String → String → AccountState N → AccountState N
  on_message source account_id text s =
      if source == "zerodha-auth" then say_and_load (account_id +++ (": " +++ text)) s else s

  unfoldable pub save_refusal : Option String → String → AccountState N → AccountState N
  save_refusal detail status s = record s {
    message = some (get_or detail ("save failed HTTP " +++ status));
  }

  unfoldable pub import_refusal : Option String → AccountState N → AccountState N
  import_refusal detail s = record s { message = some (get_or detail "history import failed") }

module _ {N : Numbers} (F : Format N) where
  abbrev pub sync_line : SyncResult N → String
  sync_line a =
      a.account_id
      +++ (": "
          +++ (a.status
              +++ (" ("
                  +++ (F.shown (get_or a.orders (zero_n N))
                      +++ ("/" +++ (F.shown (get_or a.trades (zero_n N)) +++ ")"))))))

  unfoldable pub sync_message : List (SyncResult N) → String → String
  sync_message results text =
      or_text (join_commas (map sync_line results)) (or_text text "Sync complete")

  -- A rejected request of `syncNow` leaves the state as it was.
  unfoldable pub account_step : AccountEvent N → AccountState N → AccountState N
  account_step load_started s = load_start N s
  account_step (load_answered r) s = load_answer N r s
  account_step (window_message source account_id text) s = on_message N source account_id text s
  account_step saved s = say_and_load N "Account saved" s
  account_step (save_refused detail status) s = save_refusal N detail status s
  account_step sync_started s = load_start N s
  account_step (sync_answered results text) s = say_and_load N (sync_message results text) s
  account_step sync_thrown s = s
  account_step (imported count label account_id) s =
      say_and_load N (count +++ (" " +++ (label +++ (" for " +++ account_id)))) s
  account_step (import_refused detail) s = import_refusal N detail s

  abbrev pub account_steps : List (AccountEvent N) → AccountState N → AccountState N
  account_steps [] s = s
  account_steps (e ∷ es) s = account_steps es (account_step e s)
