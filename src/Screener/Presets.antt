-- ===== src/Screener/Presets.antt =====
-- SCREENER_PRESETS of CockpitUI/src/domain/screener.ts and the groups of buttons that
-- CockpitUI/src/components/screener/ScreenerPresetGroups.tsx makes of it.
use trader_cockpit_app.Prelude.{
  String, ◌==◌, Bool, true, false, Option, none, some, List, [], ◌∷◌, map, filter,
}
use trader_cockpit_app.Screener.Filters.{
  ScreenerPreset, near52h, near52l, nearpdh, nearpdl, cam_h4x, cam_s4x, cam_h3rej, cam_s3rej, vcp,
  rect_breakout, stage2, stage4, Presets,
}

pub record PresetEntry : Type 0 where
  pub key : ScreenerPreset
  pub label : String
  pub group : Option String

abbrev pub preset : ScreenerPreset → String → Option String → PresetEntry
preset key label group = record { key = key; label = label; group = group }

abbrev pub screener_presets : List PresetEntry
screener_presets =
    preset near52h "NEAR 52H" none
    ∷ preset near52l "NEAR 52L" none
    ∷ preset nearpdh "NEAR PDH" none
    ∷ preset nearpdl "NEAR PDL" none
    ∷ preset cam_h4x "CAM H4+" (some "cam")
    ∷ preset cam_s4x "CAM S4-" (some "cam")
    ∷ preset cam_h3rej "CAM H3 REJ" (some "cam")
    ∷ preset cam_s3rej "CAM S3 REJ" (some "cam")
    ∷ preset stage2 "STAGE 2" (some "stage")
    ∷ preset stage4 "STAGE 4" (some "stage")
    ∷ preset vcp "VCP" (some "pattern")
    ∷ preset rect_breakout "RECT BRK" (some "pattern")
    ∷ []

-- `p.group === group`, where undefined equals itself.
abbrev pub same_group : Option String → Option String → Bool
same_group none none = true
same_group (some a) (some b) = a == b
same_group _ _ = false

unfoldable pub by_group : Option String → List PresetEntry
by_group group = filter (λ p. same_group p.group group) screener_presets

-- A button: its preset, its text, the class it has when active, and whether it is.
pub record PresetBtn : Type 0 where
  pub preset : ScreenerPreset
  pub label : String
  pub active_class : String
  pub active : Bool

unfoldable pub preset_buttons : Presets → Option String → String → List PresetBtn
unfolding by_group
preset_buttons presets group active_class =
    map
      (λ p. record {
        preset = p.key;
        label = p.label;
        active_class = active_class;
        active = presets p.key;
      })
      (by_group group)

unfoldable pub preset_groups : Presets → List (List PresetBtn)
unfolding preset_buttons
preset_groups presets =
    preset_buttons presets none "text-accent"
    ∷ preset_buttons presets (some "cam") "text-violet"
    ∷ preset_buttons presets (some "stage") "text-bull"
    ∷ preset_buttons presets (some "pattern") "text-accent"
    ∷ []
