-- ===== src/Notes/Editors.antt =====
-- The fields in which notes are written: NoteModal.tsx and NoteBar.tsx of
-- CockpitUI/src/components/signals and StockListNoteSection.tsx of CockpitUI/src/components/stocklist.
-- `saved` has the texts that `onSave` or `onAdd` was called with.
use trader_cockpit_app.Prelude.{
  String, ◌==◌, Bool, true, false, not, ◌&&◌, ◌||◌, Option, some, get_or, List, [], ◌∷◌, ◌++◌,
  if◌then◌else◌,
}
use trader_cockpit_app.Js.Numbers.{Numbers}
use trader_cockpit_app.Js.Format.{Dates}
use trader_cockpit_app.Js.Text.{trim}
use trader_cockpit_app.Display.Fmt.{fmt_date_time}
use trader_cockpit_app.Notes.{NoteEntry}

-- A key that is pressed, with the modifiers that the code asks for.
pub record KeyDown : Type 0 where
  pub key : String
  pub shift_key : Bool
  pub ctrl_key : Bool
  pub meta_key : Bool

-- The window of a note.
pub record NoteModal : Type 0 where
  pub draft : String
  pub is_open : Bool
  pub saved : List String

unfoldable pub open_note_modal : Option String → NoteModal
open_note_modal note = record { draft = get_or note ""; is_open = true; saved = [] }

unfoldable pub commit_modal : NoteModal → NoteModal
commit_modal s = record s { saved = s.saved ++ (s.draft ∷ []); is_open = false }

abbrev pub is_enter : KeyDown → Bool
is_enter e = e.key == "Enter" && not e.shift_key

unfoldable pub modal_key : KeyDown → NoteModal → NoteModal
unfolding commit_modal
modal_key e s =
    if is_enter e
    then commit_modal s
    else if e.key == "Escape"
    then record s { is_open = false }
    else s

-- The note below a card, which becomes a field.
pub record NoteBar : Type 0 where
  pub editing : Bool
  pub draft : String
  pub saved : List String

unfoldable pub new_note_bar : NoteBar
new_note_bar = record { editing = false; draft = ""; saved = [] }

unfoldable pub start_edit : Option String → NoteBar → NoteBar
start_edit note s = record s { draft = get_or note ""; editing = true }

unfoldable pub commit_bar : NoteBar → NoteBar
commit_bar s = record s { saved = s.saved ++ (s.draft ∷ []); editing = false }

unfoldable pub bar_key : KeyDown → NoteBar → NoteBar
unfolding commit_bar
bar_key e s =
    if is_enter e
    then commit_bar s
    else if e.key == "Escape"
    then record s { editing = false }
    else s

-- The section of a symbol in the stock list.
pub record NoteSection : Type 0 where
  pub draft : String
  pub added : List String

unfoldable pub submit_note : NoteSection → NoteSection
submit_note s =
    if trim s.draft == "" then s else record s { added = s.added ++ (s.draft ∷ []); draft = "" }

unfoldable pub section_key : KeyDown → NoteSection → NoteSection
unfolding submit_note
section_key e s = if e.key == "Enter" && (e.ctrl_key || e.meta_key) then submit_note s else s

-- The time shown of an entry; one of the older format has none.
unfoldable pub note_time : {N : Numbers} → Dates N → NoteEntry → String
note_time D entry =
    if entry.created_at == "" then "Legacy" else fmt_date_time D (some entry.created_at)
