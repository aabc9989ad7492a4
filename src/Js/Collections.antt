-- ===== src/Js/Collections.antt =====
-- JavaScript's plain objects and sets, keyed by strings. An object is the function that reads it;
-- a set is the list of its members, oldest first, as the language iterates over them.
use trader_cockpit_app.Prelude.{
  String, ◌==◌, Bool, false, Option, none, some, List, [], ◌∷◌, ◌++◌, ◌≡◌, arith, if◌then◌else◌,
  any, All,
}

-- `Record<string, V>`.
abbrev pub Object {ℓ} : Type ℓ → Type ℓ
Object V = String → Option V

module _ {ℓ} {V : Type ℓ} where
  abbrev pub empty_object : Object V
  empty_object k = none

  -- `{ ...o, [k]: v }`, or `o[k] = v`.
  abbrev pub put : String → V → Object V → Object V
  put k v o j = if j == k then some v else o j

  -- `delete o[k]`.
  abbrev pub delete : String → Object V → Object V
  delete k o j = if j == k then none else o j

  -- What the entries of an object say of a key; keys do not repeat.
  abbrev pub entry : List (String × V) → Object V
  entry [] j = none
  entry ((k, v) ∷ rest) j = if j == k then some v else entry rest j

  -- `{ ...o, ...entries }`.
  abbrev pub spread : Object V → List (String × V) → Object V
  spread o entries j = elim (entry entries j) [ none ↦ o j | some v ↦ some v ]

-- `set.has(k)` and `set.add(k)`.
abbrev pub has : List String → String → Bool
has set k = any (λ j. j == k) set

abbrev pub add : List String → String → List String
add set k = if has set k then set else set ++ (k ∷ [])

-- No member twice.
abbrev pub Distinct : List String → Type 0
Distinct [] = Unit
Distinct (x ∷ xs) = All (λ y. (x == y) ≡ false) xs × Distinct xs

pub Distinct-snoc :
    (xs : List String) (k : String) → has xs k ≡ false → Distinct xs → Distinct (xs ++ (k ∷ []))
Distinct-snoc [] k h d = (tt, tt)
Distinct-snoc (x ∷ xs) k h d = (apart xs (ground arith) d.0, Distinct-snoc xs k (ground arith) d.1)
  where
    apart :
        (ys : List String)
        → (x == k) ≡ false
        → All (λ y. (x == y) ≡ false) ys
        → All (λ y. (x == y) ≡ false) (ys ++ (k ∷ []))
    apart [] e a = (e, tt)
    apart (y ∷ ys) e a = (a.0, apart ys e a.1)
