-- ===== src/Js/Sort.antt =====
-- `Array.prototype.sort`: stable, by a comparator of which only the sign of its answer counts. The
-- language fixes the result wherever the comparator is a consistent order, and there it is that of
-- this insertion sort.
use mathlib.Core.List.{Perm}
use mathlib.Core.List.Perm
use trader_cockpit_app.Prelude.{
  ℕ, zero, suc, length, take, drop, All-drop, ap, Bool, true, false, not, ◌&&◌, List, [], ◌∷◌, ◌≡◌,
  refl, ◌∙◌, arith, filter, All, if_elim, if◌then◌else◌,
}

module _ {ℓ} {A : Type ℓ} where
  -- `before a b` says that the comparator answers a negative number at (a, b).
  pub insert : (A → A → Bool) → A → List A → List A
  insert before x [] = x ∷ []
  insert before x (y ∷ ys) =
      let rest = insert before x ys in if before y x then y ∷ rest else x ∷ y ∷ ys

  unfoldable pub sort : (A → A → Bool) → List A → List A
  unfolding insert
  sort before [] = []
  sort before (x ∷ xs) = insert before x (sort before xs)

  -- No element comes before one that stands earlier.
  abbrev pub IsSorted : (A → A → Bool) → List A → Type 0
  IsSorted before [] = Unit
  IsSorted before (x ∷ xs) = All (λ y. before y x ≡ false) xs × IsSorted before xs

  -- The comparator ranks `a` and `b` alike.
  abbrev pub alike : (A → A → Bool) → A → A → Bool
  alike before a b = not (before a b) && not (before b a)

  insert-perm : (before : A → A → Bool) (x : A) (ys : List A) → Perm (insert before x ys) (x ∷ ys)
  unfolding insert
  insert-perm before x [] = Perm.refl (x ∷ [])
  insert-perm before x (y ∷ ys) =
      if_elim (λ l. Perm l (x ∷ y ∷ ys)) (before y x)
        (λ later. Perm.trans (Perm.cons y (insert-perm before x ys)) (Perm.swap x y ys))
        (λ here. Perm.refl (x ∷ y ∷ ys))

  -- Sorting loses and invents nothing.
  pub sort-perm : (before : A → A → Bool) (xs : List A) → Perm (sort before xs) xs
  unfolding sort
  sort-perm before [] = Perm.refl []
  sort-perm before (x ∷ xs) =
      Perm.trans (insert-perm before x (sort before xs)) (Perm.cons x (sort-perm before xs))

  insert-never : (x : A) (ys : List A) → insert (λ a b. false) x ys ≡ x ∷ ys
  unfolding insert
  insert-never x [] = refl
  insert-never x (y ∷ ys) = refl

  -- A comparator that never answers "before" leaves the list as it is.
  pub sort-never : (xs : List A) → sort (λ a b. false) xs ≡ xs
  unfolding sort
  sort-never [] = refl
  sort-never (x ∷ xs) = rw (sort-never xs) (insert-never x xs)

  pub All-insert {κ} :
      (P : A → Type κ) (before : A → A → Bool) (x : A) (ys : List A)
      → P x
      → All P ys
      → All P (insert before x ys)
  unfolding insert
  All-insert P before x [] p h = (p, tt)
  All-insert P before x (y ∷ ys) p h =
      if_elim (All P) (before y x) (λ later. (h.0, All-insert P before x ys p h.1)) (λ here. (p, h))

  pub All-sort {κ} :
      (P : A → Type κ) (before : A → A → Bool) (xs : List A) → All P xs → All P (sort before xs)
  unfolding sort
  All-sort P before [] h = tt
  All-sort P before (x ∷ xs) h = All-insert P before x _ h.0 (All-sort P before xs h.1)

  length-insert :
      (before : A → A → Bool) (x : A) (ys : List A) → length (insert before x ys) ≡ suc (length ys)
  unfolding insert
  length-insert before x [] = refl
  length-insert before x (y ∷ ys) =
      if_elim (λ (l : List A). length l ≡ suc (suc (length ys))) (before y x)
        (λ later. ap suc (length-insert before x ys)) (λ here. refl)

  pub length-sort : (before : A → A → Bool) (xs : List A) → length (sort before xs) ≡ length xs
  unfolding sort
  length-sort before [] = refl
  length-sort before (x ∷ xs) =
      length-insert before x (sort before xs) ∙ ap suc (length-sort before xs)

  -- In a sorted list nothing behind a cut comes before what stands ahead of it.
  pub IsSorted-take :
      (before : A → A → Bool) (n : ℕ) (xs : List A)
      → IsSorted before xs
      → All (λ k. All (λ d. before d k ≡ false) (drop n xs)) (take n xs)
  IsSorted-take before zero xs s = tt
  IsSorted-take before (suc n) [] s = tt
  IsSorted-take before (suc n) (x ∷ xs) s =
      (All-drop (λ d. before d x ≡ false) n xs s.0, IsSorted-take before n xs s.1)

-- A comparator that is a consistent order on the elements with `P`.
pub record IsWeakOrder {ℓ κ} {A : Type ℓ} (P : A → Type κ) (before : A → A → Bool)
    : Type (ℓ ⊔ κ) where
  pub asym : (a b : A) → P a → P b → before a b ≡ true → before b a ≡ false
  pub trans :
      (a b c : A) → P a → P b → P c → before b a ≡ false → before c b ≡ false → before c a ≡ false

module _ {ℓ κ} {A : Type ℓ} {P : A → Type κ} {before : A → A → Bool}
    (w : IsWeakOrder P before) where
  later_all :
      (x y : A) (ys : List A)
      → P x
      → P y
      → All P ys
      → before y x ≡ false
      → All (λ z. before z y ≡ false) ys
      → All (λ z. before z x ≡ false) ys
  later_all x y [] px py ps h a = tt
  later_all x y (z ∷ zs) px py ps h a =
      (w.trans x y z px py ps.0 h a.0, later_all x y zs px py ps.1 h a.1)

  insert-IsSorted :
      (x : A) (ys : List A)
      → P x
      → All P ys
      → IsSorted before ys
      → IsSorted before (insert before x ys)
  unfolding insert
  insert-IsSorted x [] px ps s = (tt, tt)
  insert-IsSorted x (y ∷ ys) px ps s =
      if_elim (IsSorted before) (before y x)
        (λ later. (
          All-insert (λ z. before z y ≡ false) before x ys (w.asym y x ps.0 px later) s.0,
          insert-IsSorted x ys px ps.1 s.1,
        ))
        (λ here. ((here, later_all x y ys px ps.0 ps.1 here s.0), s))

  pub sort-IsSorted : (xs : List A) → All P xs → IsSorted before (sort before xs)
  unfolding sort
  sort-IsSorted [] ps = tt
  sort-IsSorted (x ∷ xs) ps =
      insert-IsSorted x _ ps.0 (All-sort P before xs ps.1) (sort-IsSorted xs ps.1)

  filter-insert :
      (a x : A) (ys : List A)
      → P a
      → P x
      → All P ys
      → filter (alike before a) (insert before x ys) ≡ filter (alike before a) (x ∷ ys)
  unfolding insert
  filter-insert a x [] pa px ps = refl
  filter-insert a x (y ∷ ys) pa px ps =
      if_elim (λ l. filter (alike before a) l ≡ filter (alike before a) (x ∷ y ∷ ys)) (before y x)
        (λ later. ground (arith, filter-insert a x ys pa px ps.1, w.trans x a y px pa ps.0))
        (λ here. refl)

  -- Elements that the comparator ranks alike keep their order.
  pub sort-stable :
      (a : A) (xs : List A)
      → P a
      → All P xs
      → filter (alike before a) (sort before xs) ≡ filter (alike before a) xs
  unfolding sort
  sort-stable a [] pa ps = refl
  sort-stable a (x ∷ xs) pa ps =
      filter-insert a x _ pa ps.0 (All-sort P before xs ps.1)
      ∙ ground (arith, sort-stable a xs pa ps.1)
