-- ===== src/Prelude/Search.antt =====
-- What `find_index` returns, and what taking an element out of a list keeps.
use Prim.Native.Nat.{ℕ, zero, suc}
use mathlib.Core.Path.{◌≡◌, refl, ap}
use mathlib.Core.Bool.{Bool, true, false}
use mathlib.Core.Logic.{inl, inr}
use mathlib.Core.Option.{none, some}
use mathlib.Core.List.{List, [], ◌∷◌}
use native.Mathlib.Omega.{arith}
use trader_cockpit_app.Prelude.Tests.{Bool-cases}
use trader_cockpit_app.Prelude.Lists.{length, get_elem?, find_index, remove_at, any, All}

module _ {ℓ} {A : Type ℓ} (p : A → Bool) where
  -- The index found is that of a row that passes.
  pub find_index-some :
      (xs : List A) (i : ℕ)
      → find_index p xs ≡ some i
      → (x : A) × (get_elem? xs i ≡ some x) × (p x ≡ true)
  find_index-some [] i e = cc
  find_index-some (x ∷ xs) zero e = elim (Bool-cases (p x)) [
    | inl hit ↦ (x, refl, hit)
    | inr miss ↦ absurd (ground arith)
  ]
  find_index-some (x ∷ xs) (suc i) e = find_index-some xs i (ground arith)

  pub find_index-none : (xs : List A) → find_index p xs ≡ none → All (λ x. p x ≡ false) xs
  find_index-none [] e = tt
  find_index-none (x ∷ xs) e = ground (arith, find_index-none xs)

  pub find_index-head : (x : A) (xs : List A) → p x ≡ true → find_index p (x ∷ xs) ≡ some 0
  find_index-head x xs h = rw h

  pub any-eq-false : (xs : List A) → any p xs ≡ false → All (λ x. p x ≡ false) xs
  any-eq-false [] e = tt
  any-eq-false (x ∷ xs) e = ground (arith, any-eq-false xs)

module _ {ℓ κ} {A : Type ℓ} (P : A → Type κ) where
  pub All-get_elem? : (xs : List A) (i : ℕ) {x : A} → get_elem? xs i ≡ some x → All P xs → P x
  All-get_elem? [] i e h = cc
  All-get_elem? (y ∷ xs) zero e h = ground (arith, h.0)
  All-get_elem? (y ∷ xs) (suc i) e h = All-get_elem? xs i e h.1

module _ {ℓ} {A : Type ℓ} where
  pub length-remove_at :
      (xs : List A) (i : ℕ) {x : A}
      → get_elem? xs i ≡ some x
      → length xs ≡ suc (length (remove_at i xs))
  length-remove_at [] i e = cc
  length-remove_at (y ∷ xs) zero e = refl
  length-remove_at (y ∷ xs) (suc i) e = ap suc (length-remove_at xs i e)
