-- ===== src/Cockpit/Tests.antt =====
-- A reload of the screen's state.
use trader_cockpit_app.Prelude.{true, false, some, ◌≡◌, refl}
use trader_cockpit_app.Js.Numbers.{Numbers}
use trader_cockpit_app.Js.Thousandths.{thousandths, pos}
use trader_cockpit_app.Signals.Types.{cam}
use trader_cockpit_app.Cockpit.{
  CockpitState, CockpitJson, stocks, heatmap, light, stored_fields, store, mount_cockpit,
}
use trader_cockpit_app.Cockpit.Storage.{Faithful, mount_cockpit-store}

abbrev N : Numbers
N = thousandths

abbrev on_stocks : CockpitState N
on_stocks = record {
  view = stocks;
  category = cam;
  min_adv_cr = pos 25000;
  view_mode = heatmap;
  show_help = true;
  theme = light;
  sub_type = some "CAM_H4_BREAKOUT";
  fno_only = true;
}

-- One text, which stands for one state.
abbrev one_text : CockpitJson N
one_text = record { parse = λ t. some (stored_fields N on_stocks); stringify = λ s. "{}" }

one_text-Faithful : Faithful N one_text on_stocks
one_text-Faithful = record { reads_back = refl; not_empty = refl }

mount_cockpit-store_example :
    mount_cockpit N one_text false (store N one_text on_stocks) ≡ on_stocks
mount_cockpit-store_example = mount_cockpit-store N one_text on_stocks false one_text-Faithful
