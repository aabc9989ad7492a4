-- ===== src/Admin/Config.antt =====
-- CockpitUI/src/components/admin/ServiceConfigPane.tsx and ConfigField.tsx. The values of a config
-- are those of JSON, a parameter; a config is an object of them.
use Prim.Native.String.{◌++◌ as ◌+++◌}
use trader_cockpit_app.Prelude.{
  String, ◌==◌, ◌||◌, Option, none, some, get_or, List, [], ◌∷◌, ◌++◌, if◌then◌else◌,
}
use trader_cockpit_app.Js.Numbers.{Numbers}
use trader_cockpit_app.Js.Collections.{Object, put}
use trader_cockpit_app.Pipeline.{StepStatus, idle, running, ok, error, is_idle, is_running}
use trader_cockpit_app.Admin.{FieldDef, FieldType, int}

pub data Loaded {ℓ} (V : Type ℓ) : Type ℓ where
  loaded : Object V → Loaded V
  load_failed : Loaded V

-- The config that the server answers with, null where the body is no JSON; the text of `detail` or
-- `message` or else none, with the status; or the message of an exception.
pub data Saved {ℓ} (V : Type ℓ) : Type ℓ where
  saved : Option (Object V) → Saved V
  save_refused : Option String → String → Saved V
  save_thrown : Option String → Saved V

module _ {ℓ} (V : Type ℓ) where
  pub record ConfigPane : Type ℓ where
    pub load_status : StepStatus
    pub save_status : StepStatus
    pub save_msg : Option String
    pub config : Option (Object V)

  unfoldable pub open_pane : Option (Object V) → ConfigPane
  open_pane none = record { load_status = idle; save_status = idle; save_msg = none; config = none }
  open_pane (some c) = record {
    load_status = ok;
    save_status = idle;
    save_msg = none;
    config = some c;
  }

  unfoldable pub pane_load_start : ConfigPane → ConfigPane
  pane_load_start s = record s { load_status = running }

  unfoldable pub pane_load_answer : Loaded V → ConfigPane → ConfigPane
  pane_load_answer (loaded c) s = record s { config = some c; load_status = ok }
  pane_load_answer load_failed s = record s { load_status = error }

  abbrev pub put_in : String → V → Option (Object V) → Option (Object V)
  put_in key v none = none
  put_in key v (some c) = some (put key v c)

  unfoldable pub handle_change : String → V → ConfigPane → ConfigPane
  handle_change key v s = record s { config = put_in key v s.config }

  -- `save` up to its request, and what the request sends.
  abbrev pub start_save : Option (Object V) → ConfigPane → ConfigPane
  start_save none s = s
  start_save (some c) s =
      if is_running s.save_status then s else record s { save_status = running; save_msg = none }

  unfoldable pub save_start : ConfigPane → ConfigPane
  save_start s = start_save s.config s

  unfoldable pub save_answer : Saved V → ConfigPane → ConfigPane
  save_answer (saved c) s = record s {
    config = c;
    save_status = ok;
    save_msg = some "Saved and applied";
  }
  save_answer (save_refused detail status) s = record s {
    save_status = error;
    save_msg = some (get_or detail ("HTTP " +++ status));
  }
  save_answer (save_thrown m) s = record s {
    save_status = error;
    save_msg = some (get_or m "Network error");
  }

  -- The message beside the button, with whether it is of a success.
  abbrev pub shown_save : ConfigPane → Option String
  shown_save s = if is_idle s.save_status || is_running s.save_status then none else s.save_msg

module _ (N : Numbers) where
  open N use {Number, lit, is_nan}

  -- `(acc[g] ??= []).push(f)`.
  unfoldable pub push_field :
      String → FieldDef N → List (String × List (FieldDef N)) → List (String × List (FieldDef N))
  push_field g f [] = (g, f ∷ []) ∷ []
  push_field g f ((h, fs) ∷ rest) =
      let others = push_field g f rest in
      if h == g then (h, fs ++ (f ∷ [])) ∷ rest else (h, fs) ∷ others

  unfoldable pub group_fields :
      List (FieldDef N) → List (String × List (FieldDef N)) → List (String × List (FieldDef N))
  group_fields [] groups = groups
  group_fields (f ∷ fs) groups = group_fields fs (push_field (get_or f.group "") f groups)

  abbrev pub default_step : FieldType → Number
  default_step int = lit 1 1
  default_step _ = lit 1 100

  abbrev pub step_of_field : FieldDef N → Number
  step_of_field f = get_or f.step (default_step f.field_type)

  -- What `parseInt` or `parseFloat` makes of the text replaces the value, unless it is NaN.
  abbrev pub changed_number : Number → Number → Number
  changed_number value raw = if is_nan raw then value else raw
