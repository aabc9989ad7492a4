-- ===== src/Prelude/Lists.antt =====
-- Lists measured by native numbers and selected by Boolean tests, under the library's names.
use Prim.Native.Nat.{ℕ, zero, suc, ◌+◌, ◌≤◌, min}
use mathlib.Core.Path.{◌≡◌, refl, ap}
use mathlib.Core.Bool.{Bool, true, false, ◌&&◌, ◌||◌}
use mathlib.Core.Option.{Option, none, some}
use mathlib.Core.List.{List, [], ◌∷◌, ◌++◌}
use native.Mathlib.Omega.{arith}
use trader_cockpit_app.Prelude.Tests.{if◌then◌else◌, if_elim}

-- The index in a list of what is found in its tail.
abbrev pub one_later : Option ℕ → Option ℕ
one_later none = none
one_later (some i) = some (suc i)

module _ {ℓ} {A : Type ℓ} where
  abbrev pub length : List A → ℕ
  length [] = 0
  length (x ∷ xs) = suc (length xs)

  abbrev pub get_elem? : List A → ℕ → Option A
  get_elem? [] i = none
  get_elem? (x ∷ xs) zero = some x
  get_elem? (x ∷ xs) (suc i) = get_elem? xs i

  abbrev pub take : ℕ → List A → List A
  take zero xs = []
  take (suc n) [] = []
  take (suc n) (x ∷ xs) = x ∷ take n xs

  abbrev pub drop : ℕ → List A → List A
  drop zero xs = xs
  drop (suc n) [] = []
  drop (suc n) (x ∷ xs) = drop n xs

  -- `Array.prototype.filter`, `some`, `every`.
  abbrev pub filter : (A → Bool) → List A → List A
  filter p [] = []
  filter p (x ∷ xs) = let rest = filter p xs in if p x then x ∷ rest else rest

  abbrev pub any : (A → Bool) → List A → Bool
  any p [] = false
  any p (x ∷ xs) = p x || any p xs

  abbrev pub all : (A → Bool) → List A → Bool
  all p [] = true
  all p (x ∷ xs) = p x && all p xs

  -- `Array.prototype.findIndex`, with `none` for -1.
  abbrev pub find_index : (A → Bool) → List A → Option ℕ
  find_index p [] = none
  find_index p (x ∷ xs) = let rest = one_later (find_index p xs) in if p x then some 0 else rest

  -- `xs.filter((_, j) => j !== i)`.
  abbrev pub remove_at : ℕ → List A → List A
  remove_at i [] = []
  remove_at zero (x ∷ xs) = xs
  remove_at (suc i) (x ∷ xs) = x ∷ remove_at i xs

  -- `Array.prototype.pop` on a list whose head is index 0.
  abbrev pub drop_last : List A → List A
  drop_last [] = []
  drop_last (x ∷ []) = []
  drop_last (x ∷ y ∷ ys) = x ∷ drop_last (y ∷ ys)

  pub length-append : (xs ys : List A) → length (xs ++ ys) ≡ length xs + length ys
  length-append [] ys = omega arith
  length-append (x ∷ xs) ys = omega (arith, length-append xs ys)

  pub length-take : (n : ℕ) (xs : List A) → length (take n xs) ≡ min n (length xs)
  length-take zero xs = omega arith
  length-take (suc n) [] = omega arith
  length-take (suc n) (x ∷ xs) = omega (arith, length-take n xs)

  pub length-drop_last : (x : A) (xs : List A) → length (drop_last (x ∷ xs)) ≡ length xs
  length-drop_last x [] = refl
  length-drop_last x (y ∷ ys) = ap suc (length-drop_last y ys)

  -- Two tests that agree keep the same elements.
  pub filter_by : (p q : A → Bool) (xs : List A) → ((x : A) → p x ≡ q x) → filter p xs ≡ filter q xs
  filter_by p q [] h = refl
  filter_by p q (x ∷ xs) h = rw (h x, filter_by p q xs h) refl

  pub length-filter-le : (p : A → Bool) (xs : List A) → length (filter p xs) ≤ length xs
  length-filter-le p [] = omega arith
  length-filter-le p (x ∷ xs) = ground (arith, length-filter-le p xs)

  pub take-of_length-le : (n : ℕ) (xs : List A) → length xs ≤ n → take n xs ≡ xs
  take-of_length-le zero [] h = refl
  take-of_length-le zero (x ∷ xs) h = absurd (omega arith)
  take-of_length-le (suc n) [] h = refl
  take-of_length-le (suc n) (x ∷ xs) h = ap (◌∷◌ x) (take-of_length-le n xs (omega arith))

-- A predicate on every element.
abbrev pub All {ℓ κ} : {A : Type ℓ} → (A → Type κ) → List A → Type κ
All P [] = Unit
All P (x ∷ xs) = P x × All P xs

-- `xs` is what is left of `ys` when some elements are left out: order and repetitions kept.
pub data IsSublist {ℓ} {A : Type ℓ} : List A → List A → Type ℓ where
  nil : IsSublist [] []
  skip : {y : A} {xs ys : List A} → IsSublist xs ys → IsSublist xs (y ∷ ys)
  keep : {y : A} {xs ys : List A} → IsSublist xs ys → IsSublist (y ∷ xs) (y ∷ ys)

module _ {ℓ} {A : Type ℓ} where
  pub IsSublist-refl : (xs : List A) → IsSublist xs xs
  IsSublist-refl [] = nil
  IsSublist-refl (x ∷ xs) = keep (IsSublist-refl xs)

  pub IsSublist-remove_at : (i : ℕ) (xs : List A) → IsSublist (remove_at i xs) xs
  IsSublist-remove_at i [] = nil
  IsSublist-remove_at zero (x ∷ xs) = skip (IsSublist-refl xs)
  IsSublist-remove_at (suc i) (x ∷ xs) = keep (IsSublist-remove_at i xs)

  pub IsSublist-drop_last : (xs : List A) → IsSublist (drop_last xs) xs
  IsSublist-drop_last [] = nil
  IsSublist-drop_last (x ∷ []) = skip nil
  IsSublist-drop_last (x ∷ y ∷ ys) = keep (IsSublist-drop_last (y ∷ ys))

  pub length-IsSublist : {xs ys : List A} → IsSublist xs ys → length xs ≤ length ys
  length-IsSublist nil = omega arith
  length-IsSublist (skip s) = omega (arith, length-IsSublist s)
  length-IsSublist (keep s) = omega (arith, length-IsSublist s)

module _ {ℓ κ} {A : Type ℓ} (P : A → Type κ) where
  pub All-sublist : {xs ys : List A} → IsSublist xs ys → All P ys → All P xs
  All-sublist nil h = tt
  All-sublist (skip s) h = All-sublist s h.1
  All-sublist (keep s) h = (h.0, All-sublist s h.1)

  pub All-append : (xs ys : List A) → All P xs → All P ys → All P (xs ++ ys)
  All-append [] ys hx hy = hy
  All-append (x ∷ xs) ys hx hy = (hx.0, All-append xs ys hx.1 hy)

module _ {ℓ} {A : Type ℓ} where
  pub IsSublist-filter : (p : A → Bool) (xs : List A) → IsSublist (filter p xs) xs
  IsSublist-filter p [] = nil
  IsSublist-filter p (x ∷ xs) =
      if_elim (λ l. IsSublist l (x ∷ xs)) (p x) (λ e. keep (IsSublist-filter p xs))
        (λ e. skip (IsSublist-filter p xs))

  -- A stronger test leaves a part of what a weaker one leaves.
  pub IsSublist-filter_of_imp :
      (p q : A → Bool) (xs : List A)
      → ((x : A) → q x ≡ true → p x ≡ true)
      → IsSublist (filter q xs) (filter p xs)
  IsSublist-filter_of_imp p q [] h = nil
  IsSublist-filter_of_imp p q (x ∷ xs) h =
      if_elim (λ l. IsSublist l (filter p (x ∷ xs))) (q x)
        (λ e. rw (h x e) (keep (IsSublist-filter_of_imp p q xs h)))
        (λ e.
          if_elim (λ l. IsSublist (filter q xs) l) (p x)
            (λ d. skip (IsSublist-filter_of_imp p q xs h)) (λ d. IsSublist-filter_of_imp p q xs h))

  -- A test that every element passes leaves the list whole.
  pub filter_all : (p : A → Bool) (xs : List A) → All (λ x. p x ≡ true) xs → filter p xs ≡ xs
  filter_all p [] h = refl
  filter_all p (x ∷ xs) h = rw h.0 (ap (◌∷◌ x) (filter_all p xs h.1))

module _ {ℓ κ} {A : Type ℓ} (P : A → Type κ) where
  pub All-drop : (n : ℕ) (xs : List A) → All P xs → All P (drop n xs)
  All-drop zero xs h = h
  All-drop (suc n) [] h = tt
  All-drop (suc n) (x ∷ xs) h = All-drop n xs h.1

  pub All-take : (n : ℕ) (xs : List A) → All P xs → All P (take n xs)
  All-take zero xs h = tt
  All-take (suc n) [] h = tt
  All-take (suc n) (x ∷ xs) h = (h.0, All-take n xs h.1)

  -- What a test shows of the elements that pass it holds of all that are left.
  pub All-filter : (p : A → Bool) (xs : List A) → ((x : A) → p x ≡ true → P x) → All P (filter p xs)
  All-filter p [] h = tt
  All-filter p (x ∷ xs) h =
      if_elim (All P) (p x) (λ e. (h x e, All-filter p xs h)) (λ e. All-filter p xs h)

pub All-map_with {ℓ κ μ ν} :
    {A : Type ℓ} {P : A → Type κ} {Q : A → Type μ} {R : A → Type ν}
    → ((x : A) → P x → Q x → R x)
    → (xs : List A) → All P xs
    → All Q xs
    → All R xs
All-map_with h [] p q = tt
All-map_with h (x ∷ xs) p q = (h x p.0 q.0, All-map_with h xs p.1 q.1)
