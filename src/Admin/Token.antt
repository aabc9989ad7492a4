-- ===== src/Admin/Token.antt =====
-- CockpitUI/src/components/admin/TokenPane.tsx and ZerodhaPane.tsx. A request is its start and its
-- answer.
use Prim.Native.String.{◌++◌ as ◌+++◌}
use trader_cockpit_app.Prelude.{
  String, ◌==◌, Bool, not, ◌&&◌, Option, none, some, get_or, List, [], if◌then◌else◌,
}
use trader_cockpit_app.Js.Numbers.{Numbers}
use trader_cockpit_app.Js.Text.{trim}
use trader_cockpit_app.Pipeline.{StepStatus, idle, running, ok, error, is_idle, is_running}
use trader_cockpit_app.Accounts.{ZerodhaAccountStatus}

-- `detail` and `message` of a refusal's body, with its status as a text.
pub data TokenReply : Type 0 where
  accepted : Option String → TokenReply
  refused : Option String → Option String → String → TokenReply
  thrown : Option String → TokenReply

pub record TokenCard : Type 0 where
  pub token : String
  pub status : StepStatus
  pub msg : Option String

unfoldable pub new_card : TokenCard
new_card = record { token = ""; status = idle; msg = none }

unfoldable pub type_token : String → TokenCard → TokenCard
type_token t s = record s { token = t }

abbrev pub is_busy : TokenCard → Bool
is_busy s = is_running s.status

-- `submit` up to its request; it asks only where this is `true`.
abbrev pub submits : TokenCard → Bool
submits s = not (trim s.token == "") && not (is_busy s)

unfoldable pub submit_start : TokenCard → TokenCard
submit_start s = if submits s then record s { status = running; msg = none } else s

-- `detail ?? message ?? HTTP status`.
abbrev pub refusal_text : Option String → Option String → String → String
refusal_text (some d) m status = d
refusal_text none (some m) status = m
refusal_text none none status = "HTTP " +++ status

unfoldable pub submit_answer : TokenReply → TokenCard → TokenCard
submit_answer (accepted m) s = record {
  token = "";
  status = ok;
  msg = some (get_or m "Token updated");
}
submit_answer (refused d m status) s = record s {
  status = error;
  msg = some (refusal_text d m status);
}
submit_answer (thrown m) s = record s { status = error; msg = some (get_or m "Network error") }

-- The text shown under the field, and its colour.
abbrev pub shown_msg : TokenCard → Option String
shown_msg s = if is_idle s.status then none else s.msg

abbrev pub token_color : StepStatus → String
token_color ok = "rgb(var(--bull))"
token_color _ = "rgb(var(--bear))"

module _ (N : Numbers) where
  pub record ZerodhaPane : Type 0 where
    pub accounts : List (ZerodhaAccountStatus N)
    pub message : Option String

  -- The list of the body, none where it has no array; or the message of the exception.
  pub data ZerodhaReply : Type 0 where
    listed : Option (List (ZerodhaAccountStatus N)) → ZerodhaReply
    not_ok : String → ZerodhaReply
    rejected : Option String → ZerodhaReply

  unfoldable pub zerodha_answer : ZerodhaReply → ZerodhaPane → ZerodhaPane
  zerodha_answer (listed accounts) s = record { accounts = get_or accounts []; message = none }
  zerodha_answer (not_ok status) s = record s { message = some ("HTTP " +++ status) }
  zerodha_answer (rejected m) s = record s { message = some (get_or m "failed to load accounts") }
