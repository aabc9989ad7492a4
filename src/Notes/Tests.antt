-- ===== src/Notes/Tests.antt =====
-- Runs of the notes on concrete texts, and the theorems at inputs that meet their conditions.
use trader_cockpit_app.Prelude.{none, some, [], ◌∷◌, ◌≡◌, refl}
use trader_cockpit_app.Js.Collections.{empty_object, put}
use trader_cockpit_app.Js.Text.{trim, trim_start, trim_end, is_space}
use trader_cockpit_app.Notes.{
  NoteEntry, Codec, Notes, legacy_key, legacy_entries, init_entries, add_note, act, add, save,
}
use trader_cockpit_app.Notes.Reload.{IsSaved, Survives, shown, act-IsSaved, older_note_returns}

abbrev note : NoteEntry
note = record { id = "17"; text = "watch H4"; created_at = "10:00" }

-- A codec for one list.
abbrev codec : Codec
codec = record { stringify = λ es. "one"; parse = λ t. some (note ∷ []) }

abbrev no_notes : Notes
no_notes = record { entries = empty_object; storage = empty_object }

no_notes-IsSaved : IsSaved codec no_notes
unfolding init_entries legacy_entries
no_notes-IsSaved symbol = refl

no_older_note : legacy_entries (no_notes.storage (legacy_key "TCS")) ≡ none
unfolding legacy_entries
no_older_note = refl

note-Survives :
    Survives codec (shown "TCS" (act codec "TCS" (add " watch H4 " "17" "10:00") no_notes))
unfolding act add_note trim trim_start trim_end is_space
note-Survives = refl

act-IsSaved_example : IsSaved codec (act codec "TCS" (add " watch H4 " "17" "10:00") no_notes)
act-IsSaved_example =
    act-IsSaved codec "TCS" (add " watch H4 " "17" "10:00") no_notes no_notes-IsSaved no_older_note
      note-Survives

abbrev older : NoteEntry
older = record { id = "0"; text = "old"; created_at = "" }

abbrev with_older : Notes
with_older = record {
  entries = put "TCS" (older ∷ []) empty_object;
  storage = put "cockpit:note:TCS" "old" empty_object;
}

older_entry : legacy_entries (with_older.storage (legacy_key "TCS")) ≡ some (older ∷ [])
unfolding legacy_entries trim trim_start trim_end is_space
older_entry = refl

blank_text : trim " " ≡ ""
unfolding trim trim_start trim_end is_space
blank_text = refl

older_note_returns_example :
    ((act codec "TCS" (save " " "10:00" "") with_older).entries "TCS" ≡ none)
    × (init_entries codec (act codec "TCS" (save " " "10:00" "") with_older).storage "TCS"
        ≡ some (older ∷ []))
older_note_returns_example =
    older_note_returns codec "TCS" " " "10:00" "" with_older (older ∷ []) blank_text older_entry
