-- ===== src/Notes.antt =====
-- The notes of CockpitUI/src/hooks/useNotes.ts, with the local storage as an object of texts.
-- `JSON.stringify` and `JSON.parse` on lists of entries are a parameter; identifiers and times are
-- arguments of the operations that make them.
pub mod Reload
pub mod Editors
mod Tests
use Prim.Native.String.{◌++◌ as ◌+++◌}
use trader_cockpit_app.Prelude.{
  String, ◌==◌, Bool, not, Option, none, some, get_or, List, [], ◌∷◌, filter, if◌then◌else◌,
}
use trader_cockpit_app.Js.Collections.{Object, put, delete}
use trader_cockpit_app.Js.Text.{trim}

pub record NoteEntry : Type 0 where
  pub id : String
  pub text : String
  pub created_at : String

-- `parse` is none where `JSON.parse` throws.
pub record Codec : Type 0 where
  pub stringify : List NoteEntry → String
  pub parse : String → Option (List NoteEntry)

-- The state of the hook, and the storage that its updaters write.
pub record Notes : Type 0 where
  pub entries : Object (List NoteEntry)
  pub storage : Object String

abbrev pub notes_key : String → String
notes_key symbol = "cockpit:notes:" +++ symbol

abbrev pub legacy_key : String → String
legacy_key symbol = "cockpit:note:" +++ symbol

unfoldable pub persist : Codec → String → List NoteEntry → Object String → Object String
persist c symbol [] storage = delete (notes_key symbol) storage
persist c symbol (e ∷ es) storage = put (notes_key symbol) (c.stringify (e ∷ es)) storage

-- What an entry of the older format becomes: blank ones are left out.
unfoldable pub legacy_entries : Option String → Option (List NoteEntry)
legacy_entries none = none
legacy_entries (some v) =
    if trim v == "" then none else some (record { id = "0"; text = trim v; created_at = "" } ∷ [])

-- A symbol with an entry of the newer format is `seen`, also where its text does not parse.
abbrev pub entries_from : Codec → Option String → Option String → Option (List NoteEntry)
entries_from c (some t) legacy = c.parse t
entries_from c none legacy = legacy_entries legacy

-- `initEntries`, read at a symbol.
unfoldable pub init_entries : Codec → Object String → Object (List NoteEntry)
init_entries c storage symbol =
    entries_from c (storage (notes_key symbol)) (storage (legacy_key symbol))

-- `next[symbol] = entries`, and the text that goes with it.
abbrev pub keep_entries : Codec → String → List NoteEntry → Notes → Notes
keep_entries c symbol es n = record {
  entries = put symbol es n.entries;
  storage = persist c symbol es n.storage;
}

-- `delete next[symbol]`.
abbrev pub drop_entries : Codec → String → Notes → Notes
drop_entries c symbol n = record {
  entries = delete symbol n.entries;
  storage = persist c symbol [] n.storage;
}

abbrev pub leave : Codec → String → List NoteEntry → Notes → Notes
leave c symbol [] n = drop_entries c symbol n
leave c symbol (e ∷ es) n = keep_entries c symbol (e ∷ es) n

unfoldable pub add_note : Codec → String → String → String → String → Notes → Notes
add_note c symbol text id now n =
    if trim text == ""
    then n
    else keep_entries c symbol
        (record { id = id; text = trim text; created_at = now } ∷ get_or (n.entries symbol) []) n

unfoldable pub delete_note : Codec → String → String → Notes → Notes
delete_note c symbol id n =
    leave c symbol (filter (λ e. not (e.id == id)) (get_or (n.entries symbol) [])) n

unfoldable pub save_note : Codec → String → String → String → Notes → Notes
save_note c symbol text now n =
    if trim text == ""
    then drop_entries c symbol n
    else keep_entries c symbol (record { id = "0"; text = trim text; created_at = now } ∷ []) n

-- `notes`: the text of the newest entry.
abbrev pub newest : Option (List NoteEntry) → Option String
newest none = none
newest (some []) = none
newest (some (e ∷ es)) = some e.text

unfoldable pub notes_of : Notes → Object String
notes_of n symbol = newest (n.entries symbol)

-- What the user does to the notes of a symbol.
pub data NoteAction : Type 0 where
  add delete_one save : String → String → String → NoteAction

unfoldable pub act : Codec → String → NoteAction → Notes → Notes
unfolding add_note delete_note save_note
act c symbol (add text id now) n = add_note c symbol text id now n
act c symbol (delete_one id _ _) n = delete_note c symbol id n
act c symbol (save text now _) n = save_note c symbol text now n
