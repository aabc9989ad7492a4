-- ===== src/Pipeline/Stream/Chunks.antt =====
-- `readSSE` of CockpitUI/src/components/admin/sseUtils.ts does not depend on where the network cuts
-- the stream.
use Prim.Native.Char.{code, Char}
use Prim.Native.String.{◌++◌ as ◌+++◌}
use Prim.Native.String as Text
use text.Mathlib.TextLemmas as TextLemmas
use trader_cockpit_app.Prelude.{
  String, Bool, true, false, Option, none, some, List, [], ◌∷◌, ◌++◌, ◌≡◌, refl, sym, ap, ◌∙◌,
  nat_eq, Bool-cases, inl, inr, if_true, if_false,
}
use trader_cockpit_app.Pipeline.{Outcome}
use trader_cockpit_app.Pipeline.Stream.{
  Json, LineAnswer, skip, report, finish, streaming, onto_first, split_lines, answer_then,
  line_answer, read_lines, after_lines, closed_early, read_chunks, read_sse,
}

abbrev is_newline : Char → Bool
is_newline c = nat_eq (code c) 10

split_newline :
    (c : Char) (s : String)
    → is_newline c ≡ true
    → split_lines (Text.◌∷◌ c s) ≡ ("" ∷ (split_lines s).0, (split_lines s).1)
unfolding split_lines
split_newline c s e = if_true _ _ e

split_plain :
    (c : Char) (s : String)
    → is_newline c ≡ false
    → split_lines (Text.◌∷◌ c s) ≡ onto_first c (split_lines s)
unfolding split_lines
split_plain c s e = if_false _ _ e

split_empty_rest : split_lines "" ≡ ([], "")
unfolding split_lines
split_empty_rest = refl

split_empty_twice : split_lines (split_lines "").1 ≡ ([], (split_lines "").1)
unfolding split_lines
split_empty_twice = refl

split_nothing :
    (t : String)
    → split_lines ("" +++ t) ≡ (
      (split_lines "").0 ++ (split_lines ((split_lines "").1 +++ t)).0,
      (split_lines ((split_lines "").1 +++ t)).1,
    )
unfolding split_lines
split_nothing t = refl

onto_first_lem :
    (c : Char) (a : List String × String) (t : String)
    → is_newline c ≡ false
    → onto_first c (a.0 ++ (split_lines (a.1 +++ t)).0, (split_lines (a.1 +++ t)).1) ≡ (
      (onto_first c a).0 ++ (split_lines ((onto_first c a).1 +++ t)).0,
      (split_lines ((onto_first c a).1 +++ t)).1,
    )
onto_first_lem c ([], rest) t e =
    rw (TextLemmas.cons-append c rest t, split_plain c (rest +++ t) e) refl
onto_first_lem c (l ∷ ls, rest) t e = refl

split_lines-append :
    (s t : String)
    → split_lines (s +++ t) ≡ (
      (split_lines s).0 ++ (split_lines ((split_lines s).1 +++ t)).0,
      (split_lines ((split_lines s).1 +++ t)).1,
    )
split_lines-append Text.[] t = split_nothing t
split_lines-append (Text.◌∷◌ c s) t =
    rw (TextLemmas.cons-append c s t) (elim (Bool-cases (is_newline c)) [
      | inl e ↦ rw (split_newline c (s +++ t) e, split_newline c s e, split_lines-append s t) refl
      | inr e ↦
          rw (split_plain c (s +++ t) e, split_plain c s e, split_lines-append s t)
            (onto_first_lem c (split_lines s) t e)
    ])

onto_first_rest :
    (c : Char) (a : List String × String)
    → is_newline c ≡ false
    → split_lines a.1 ≡ ([], a.1)
    → split_lines (onto_first c a).1 ≡ ([], (onto_first c a).1)
onto_first_rest c ([], rest) e h = split_plain c rest e ∙ ap (onto_first c) h
onto_first_rest c (l ∷ ls, rest) e h = h

-- The rest holds no complete line.
split_lines_rest : (s : String) → split_lines (split_lines s).1 ≡ ([], (split_lines s).1)
split_lines_rest Text.[] = split_empty_twice
split_lines_rest (Text.◌∷◌ c s) = elim (Bool-cases (is_newline c)) [
  | inl e ↦ rw (split_newline c s e) (split_lines_rest s)
  | inr e ↦ rw (split_plain c s e) (onto_first_rest c (split_lines s) e (split_lines_rest s))
]

-- Two stretches of lines, one after the other.
abbrev then_lines :
    List String × Option Outcome → List String × Option Outcome → List String × Option Outcome
then_lines (reports, some o) r = (reports, some o)
then_lines (reports, none) r = (reports ++ r.0, r.1)

answer_then-then_lines :
    (a : LineAnswer) (p q : List String × Option Outcome)
    → answer_then a (then_lines p q) ≡ then_lines (answer_then a p) q
answer_then-then_lines skip p q = refl
answer_then-then_lines (report m) (reports, some o) q = refl
answer_then-then_lines (report m) (reports, none) q = refl
answer_then-then_lines (finish o) p q = refl

read_lines-append :
    (j : Json) (ls ms : List String)
    → read_lines j (ls ++ ms) ≡ then_lines (read_lines j ls) (read_lines j ms)
unfolding read_lines
read_lines-append j [] ms = refl
read_lines-append j (l ∷ ls) ms =
    ap (answer_then (line_answer j l)) (read_lines-append j ls ms)
    ∙ answer_then-then_lines (line_answer j l) (read_lines j ls) (read_lines j ms)

append_assoc_list : (a b c : List String) → (a ++ b) ++ c ≡ a ++ (b ++ c)
append_assoc_list [] b c = refl
append_assoc_list (x ∷ a) b c = ap (◌∷◌ x) (append_assoc_list a b c)

after_lines-then_lines :
    (p q : List String × Option Outcome) (r : List String × Outcome)
    → after_lines (then_lines p q) r ≡ after_lines p (after_lines q r)
after_lines-then_lines (reports, some o) q r = refl
after_lines-then_lines (reports, none) (more, some o) r = refl
after_lines-then_lines (reports, none) (more, none) r =
    ap (λ l. (l, r.1)) (append_assoc_list reports more r.0)

abbrev pub concat : List String → String
concat [] = ""
concat (c ∷ cs) = c +++ concat cs

read_chunks_joined :
    (j : Json) (buf : String) (cs : List String)
    → split_lines buf ≡ ([], buf)
    → read_chunks j buf cs ≡ read_chunks j buf (concat cs ∷ [])
unfolding read_chunks read_lines
read_chunks_joined j buf [] h = rw (TextLemmas.append-nil buf, h) refl
read_chunks_joined j buf (c ∷ cs) h =
    let a = split_lines (buf +++ c) in
    let b = split_lines (a.1 +++ concat cs) in
    ap (after_lines (read_lines j a.0)) (read_chunks_joined j a.1 cs (split_lines_rest (buf +++ c)))
    ∙ sym (after_lines-then_lines (read_lines j a.0) (read_lines j b.0) closed_early)
    ∙ ap (λ r. after_lines r closed_early) (sym (read_lines-append j a.0 b.0))
    ∙ ap (λ r. after_lines (read_lines j r.0) closed_early)
        (sym (split_lines-append (buf +++ c) (concat cs)))
    ∙ ap (λ t. after_lines (read_lines j (split_lines t).0) closed_early)
        (TextLemmas.append_assoc buf c (concat cs))

-- Wherever the network cuts the stream into chunks, inside a line or between two, the same messages
-- are reported in the same order and the promise ends the same way as for the text in one piece.
pub read_sse_chunks :
    (j : Json) (chunks : List String)
    → read_sse j (streaming chunks) ≡ read_sse j (streaming (concat chunks ∷ []))
unfolding read_sse
read_sse_chunks j chunks = read_chunks_joined j "" chunks split_empty_rest
