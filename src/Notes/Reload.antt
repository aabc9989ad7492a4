-- ===== src/Notes/Reload.antt =====
-- The notes of CockpitUI/src/hooks/useNotes.ts after a reload of the page.
use Prim.Native.String.{◌++◌ as ◌+++◌}
use text.Mathlib.TextLemmas as TextLemmas
use trader_cockpit_app.Prelude.{
  String, ◌==◌, eq_iff, eq_refl, false, not, none, some, get_or, List, [], ◌∷◌, ◌≡◌, ◌≢◌, refl, sym,
  subst, ap, ◌∙◌, arith, Bool-cases, inl, inr, filter, if_elim,
}
use trader_cockpit_app.Js.PlainLocale.{first_code}
use trader_cockpit_app.Js.Text.{trim}
use trader_cockpit_app.Notes.{
  NoteEntry, Codec, Notes, notes_key, legacy_key, persist, legacy_entries, init_entries,
  keep_entries, drop_entries, leave, add_note, delete_note, save_note, NoteAction, add, delete_one,
  save, act,
}

notes_key_eq : (s t : String) → (notes_key s == notes_key t) ≡ (s == t)
notes_key_eq s t = elim (Bool-cases (s == t)) [
  | inl e ↦ (eq_iff (notes_key s) (notes_key t)).1 (ap notes_key ((eq_iff s t).0 e)) ∙ sym e
  | inr e ↦ elim (Bool-cases (notes_key s == notes_key t)) [
    | inl k ↦
        let same =
          TextLemmas.append_cancel_left "cockpit:notes:" s t
            ((eq_iff (notes_key s) (notes_key t)).0 k) in
        k ∙ sym ((eq_iff s t).1 same)
    | inr k ↦ k ∙ sym e
  ]
]

keys_differ : (s t : String) → legacy_key s ≢ notes_key t
keys_differ s t e =
    let cut = TextLemmas.append_cancel_left "cockpit:note" (":" +++ s) ("s:" +++ t) (
      sym (TextLemmas.append_assoc "cockpit:note" ":" s)
      ∙ e
      ∙ TextLemmas.append_assoc "cockpit:note" "s:" t) in
    let codes : 58 ≡ 115 =
      sym (ap first_code (TextLemmas.cons-append ":" "" s))
      ∙ ap first_code cut
      ∙ ap first_code (TextLemmas.cons-append "s" ":" t) in
    omega (arith, codes)

legacy_key-apart : (s t : String) → (legacy_key s == notes_key t) ≡ false
legacy_key-apart s t = elim (Bool-cases (legacy_key s == notes_key t)) [
  | inl k ↦ elim (keys_differ s t ((eq_iff (legacy_key s) (notes_key t)).0 k)) [ ]
  | inr k ↦ k
]

-- A reload would show what the page shows.
abbrev pub IsSaved : Codec → Notes → Type 0
IsSaved c n = (symbol : String) → init_entries c n.storage symbol ≡ n.entries symbol

keep_entries-IsSaved :
    (c : Codec) (symbol : String) (e : NoteEntry) (es : List NoteEntry) (n : Notes)
    → IsSaved c n
    → c.parse (c.stringify (e ∷ es)) ≡ some (e ∷ es)
    → IsSaved c (keep_entries c symbol (e ∷ es) n)
unfolding init_entries persist
keep_entries-IsSaved c symbol e es n saved read k =
    rw (notes_key_eq k symbol, legacy_key-apart k symbol)
      (elim (Bool-cases (k == symbol)) [ inl d ↦ rw d read | inr d ↦ rw d (saved k) ])

drop_entries-IsSaved :
    (c : Codec) (symbol : String) (n : Notes)
    → IsSaved c n
    → legacy_entries (n.storage (legacy_key symbol)) ≡ none
    → IsSaved c (drop_entries c symbol n)
unfolding init_entries persist
drop_entries-IsSaved c symbol n saved blank k =
    rw (notes_key_eq k symbol, legacy_key-apart k symbol)
      (elim (Bool-cases (k == symbol)) [
        | inl d ↦ rw (d, (eq_iff k symbol).0 d) blank
        | inr d ↦ rw d (saved k)
      ])

-- `JSON.parse` reads what `JSON.stringify` wrote of these entries.
abbrev pub Survives : Codec → List NoteEntry → Type 0
Survives c es = c.parse (c.stringify es) ≡ some es

-- The entries of a symbol.
abbrev pub shown : String → Notes → List NoteEntry
shown symbol n = get_or (n.entries symbol) []

shown-keep_entries :
    (c : Codec) (symbol : String) (es : List NoteEntry) (n : Notes)
    → shown symbol (keep_entries c symbol es n) ≡ es
shown-keep_entries c symbol es n = rw (eq_refl symbol) refl

leave-IsSaved :
    (c : Codec) (symbol : String) (es : List NoteEntry) (n : Notes)
    → IsSaved c n
    → legacy_entries (n.storage (legacy_key symbol)) ≡ none
    → Survives c (shown symbol (leave c symbol es n))
    → IsSaved c (leave c symbol es n)
leave-IsSaved c symbol [] n saved blank read = drop_entries-IsSaved c symbol n saved blank
leave-IsSaved c symbol (e ∷ es) n saved blank read =
    keep_entries-IsSaved c symbol e es n saved
      (subst (Survives c) (shown-keep_entries c symbol (e ∷ es) n) read)

-- After any action on a symbol a reload shows the notes that the page shows, provided that it would
-- have before, that the symbol's entries survive `JSON.stringify` and `JSON.parse`, and that the
-- symbol has no note of the older format.
pub act-IsSaved :
    (c : Codec) (symbol : String) (a : NoteAction) (n : Notes)
    → IsSaved c n
    → legacy_entries (n.storage (legacy_key symbol)) ≡ none
    → Survives c (shown symbol (act c symbol a n))
    → IsSaved c (act c symbol a n)
unfolding act add_note delete_note save_note
act-IsSaved c symbol (add text id now) n saved blank =
    if_elim (λ (m : Notes). Survives c (shown symbol m) → IsSaved c m) (trim text == "")
      (λ no_text read. saved)
      (λ has_text read.
        keep_entries-IsSaved c symbol _ _ n saved
          (subst (Survives c) (shown-keep_entries c symbol _ n) read))
act-IsSaved c symbol (delete_one id x y) n saved blank =
    leave-IsSaved c symbol (filter (λ e. not (e.id == id)) (shown symbol n)) n saved blank
act-IsSaved c symbol (save text now x) n saved blank =
    if_elim (λ (m : Notes). Survives c (shown symbol m) → IsSaved c m) (trim text == "")
      (λ no_text read. drop_entries-IsSaved c symbol n saved blank)
      (λ has_text read.
        keep_entries-IsSaved c symbol _ _ n saved
          (subst (Survives c) (shown-keep_entries c symbol _ n) read))

-- Saving a blank text takes a symbol's notes off the page, but where the symbol has a note of the
-- older format, which is left in the storage, a reload brings that note back.
pub older_note_returns :
    (c : Codec) (symbol blank now x : String) (n : Notes) (es : List NoteEntry)
    → trim blank ≡ ""
    → legacy_entries (n.storage (legacy_key symbol)) ≡ some es
    → ((act c symbol (save blank now x) n).entries symbol ≡ none)
      × (init_entries c (act c symbol (save blank now x) n).storage symbol ≡ some es)
unfolding act save_note init_entries persist
older_note_returns c symbol blank now x n es b old =
    rw (b, eq_refl symbol, eq_refl (notes_key symbol), legacy_key-apart symbol symbol) (refl, old)
