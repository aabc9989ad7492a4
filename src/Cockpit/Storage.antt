-- ===== src/Cockpit/Storage.antt =====
-- What CockpitUI/src/app/useCockpitState.ts stores and reads back.
use trader_cockpit_app.Prelude.{String, ◌==◌, Bool, false, Option, none, some, ◌≡◌, refl}
use trader_cockpit_app.Js.Numbers.{Numbers}
use trader_cockpit_app.Signals.Types.{SignalCategory, all_signals, break, cam}
use trader_cockpit_app.Cockpit.{
  AppView, stocks, accounts, live, admin, ThemeMode, dark, light, ViewMode, card, table, heatmap,
  theme_name, view_name, view_named, category_name, category_named, view_mode_name, view_mode_named,
  CockpitState, CockpitJson, first_state, null_or_text, stored_sub_type, stored_fields, init_theme,
  restore, store, take_stored, mount_cockpit,
}

module _ (N : Numbers) where
  -- JSON reads back the fields that it wrote of this state, and writes no empty text.
  pub record Faithful (json : CockpitJson N) (s : CockpitState N) : Type 0 where
    pub reads_back : json.parse (json.stringify (stored_fields N s)) ≡ some (stored_fields N s)
    pub not_empty : (json.stringify (stored_fields N s) == "") ≡ false

  theme-back :
      (prefers_light : Bool) (t : ThemeMode) → init_theme N prefers_light (some (theme_name t)) ≡ t
  unfolding init_theme
  theme-back prefers_light dark = refl
  theme-back prefers_light light = refl

  view-back : (v : AppView) → view_named (view_name v) ≡ some v
  unfolding view_named
  view-back stocks = refl
  view-back accounts = refl
  view-back live = refl
  view-back admin = refl

  category-back : (c : SignalCategory) → category_named (category_name c) ≡ some c
  unfolding category_named
  category-back all_signals = refl
  category-back break = refl
  category-back cam = refl

  view_mode-back : (m : ViewMode) → view_mode_named (view_mode_name m) ≡ some m
  unfolding view_mode_named
  view_mode-back card = refl
  view_mode-back table = refl
  view_mode-back heatmap = refl

  sub_type-back : (o sub : Option String) → stored_sub_type N (some (null_or_text N o)) sub ≡ o
  sub_type-back none sub = refl
  sub_type-back (some t) sub = refl

  -- Taking back the stored fields of a state gives that state, but for the theme, whatever the state
  -- before.
  take_stored-fields :
      (s t : CockpitState N) → take_stored N (stored_fields N s) t ≡ record s { theme = t.theme }
  unfolding take_stored stored_fields
  take_stored-fields s t =
      rw
        (
          view-back s.view,
          category-back s.category,
          view_mode-back s.view_mode,
          sub_type-back s.sub_type t.sub_type,
        )
        refl

  -- A state that was stored is the state after a reload, whatever theme the browser prefers, where
  -- JSON gives back the fields that were written of it.
  pub mount_cockpit-store :
      (json : CockpitJson N) (s : CockpitState N) (prefers_light : Bool)
      → Faithful json s
      → mount_cockpit N json prefers_light (store N json s) ≡ s
  unfolding mount_cockpit store restore
  mount_cockpit-store json s prefers_light f =
      rw
        (
          f.not_empty,
          f.reads_back,
          theme-back prefers_light s.theme,
          take_stored-fields s (first_state N),
        )
        refl
