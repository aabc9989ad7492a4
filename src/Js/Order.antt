-- ===== src/Js/Order.antt =====
-- Comparators of optional values that put the missing ones last in both directions, as the sorts of
-- the application do, and the order of the numbers.
use mathlib.Core.List.{Perm}
use trader_cockpit_app.Prelude.{
  Bool, true, false, not, ◌&&◌, arith, filter, Option, none, some, List, [], ◌∷◌, ◌≡◌, refl, sym,
  ◌∙◌, All, Bool-cases, inl, inr, if◌then◌else◌,
}
use trader_cockpit_app.Js.Numbers.{Numbers}
use trader_cockpit_app.Js.Sort.{
  sort, sort-perm, sort-IsSorted, sort-stable, All-sort, alike, IsSorted, IsWeakOrder,
}

module _ {ℓ} {A : Type ℓ} where
  -- A negative answer of the comparator: both missing rank alike, a missing one goes last, and two
  -- values are compared in the direction asked for.
  abbrev pub before_opt : (A → A → Bool) → Bool → Option A → Option A → Bool
  before_opt lt asc none b = false
  before_opt lt asc (some a) none = true
  before_opt lt asc (some a) (some b) = if asc then lt a b else lt b a

  -- A value, where there is one, has `P`.
  abbrev pub Each {κ} : (A → Type κ) → Option A → Type κ
  Each P none = Unit
  Each P (some a) = P a

module _ {ℓ κ} {A : Type ℓ} {P : A → Type κ} {lt : A → A → Bool} (w : IsWeakOrder P lt) where
  before_opt-asym :
      (asc : Bool) (a b : Option A)
      → Each P a
      → Each P b
      → before_opt lt asc a b ≡ true
      → before_opt lt asc b a ≡ false
  before_opt-asym asc none b p q e = cc
  before_opt-asym asc (some a) none p q e = refl
  before_opt-asym true (some a) (some b) p q e = w.asym a b p q e
  before_opt-asym false (some a) (some b) p q e = w.asym b a q p e

  before_opt_trans :
      (asc : Bool) (a b c : Option A)
      → Each P a
      → Each P b
      → Each P c
      → before_opt lt asc b a ≡ false
      → before_opt lt asc c b ≡ false
      → before_opt lt asc c a ≡ false
  before_opt_trans asc a b none p q r e f = refl
  before_opt_trans asc a none (some c) p q r e f = cc
  before_opt_trans asc none (some b) (some c) p q r e f = cc
  before_opt_trans true (some a) (some b) (some c) p q r e f = w.trans a b c p q r e f
  before_opt_trans false (some a) (some b) (some c) p q r e f = w.trans c b a r q p f e

  -- Rows compared by an optional value.
  pub before_opt-IsWeakOrder {μ} :
      {R : Type μ} (value : R → Option A) (asc : Bool)
      → IsWeakOrder (λ r. Each P (value r)) (λ r s. before_opt lt asc (value r) (value s))
  before_opt-IsWeakOrder value asc = record {
    asym = λ r s p q e. before_opt-asym asc (value r) (value s) p q e;
    trans = λ r s t p q u e f. before_opt_trans asc (value r) (value s) (value t) p q u e f;
  }

-- A value may stand above another: one that is there above a missing one, and of two that are there
-- the lower one where the order is ascending, the higher one where it is descending; equal values
-- either way.
abbrev pub MayPrecede {ℓ} : {A : Type ℓ} → (A → A → Bool) → Bool → Option A → Option A → Type 0
MayPrecede lt asc a none = Unit
MayPrecede lt asc none (some b) = ⊥
MayPrecede lt true (some a) (some b) = lt b a ≡ false
MayPrecede lt false (some a) (some b) = lt a b ≡ false

-- Each row may stand above all that follow it.
abbrev pub InOrder {ℓ μ} :
    {A : Type ℓ} {R : Type μ} → (A → A → Bool) → Bool → (R → Option A) → List R → Type 0
InOrder lt asc value [] = Unit
InOrder lt asc value (r ∷ rs) =
    All (λ s. MayPrecede lt asc (value r) (value s)) rs × InOrder lt asc value rs

module _ {ℓ μ κ} {A : Type ℓ} {R : Type μ} {P : A → Type κ} (lt before : A → A → Bool) (asc : Bool)
    (value : R → Option A) (agree : (a b : A) → P a → P b → before a b ≡ lt a b) where
  may_precede :
      (d : Bool) (a b : Option A)
      → Each P a
      → Each P b
      → before_opt before d b a ≡ false
      → MayPrecede lt d a b
  may_precede d a none p q e = tt
  may_precede d none (some b) p q e = cc
  may_precede true (some a) (some b) p q e = sym (agree b a q p) ∙ e
  may_precede false (some a) (some b) p q e = sym (agree a b p q) ∙ e

  all_may_follow :
      (r : R) (rs : List R)
      → Each P (value r)
      → All (λ s. Each P (value s)) rs
      → All (λ s. before_opt before asc (value s) (value r) ≡ false) rs
      → All (λ s. MayPrecede lt asc (value r) (value s)) rs
  all_may_follow r [] p q h = tt
  all_may_follow r (s ∷ rs) p q h =
      (may_precede asc (value r) (value s) p q.0 h.0, all_may_follow r rs p q.1 h.1)

  -- Rows sorted by a comparator that agrees with an order are in that order.
  pub IsSorted-InOrder :
      (rs : List R)
      → All (λ s. Each P (value s)) rs
      → IsSorted (λ r s. before_opt before asc (value r) (value s)) rs
      → InOrder lt asc value rs
  IsSorted-InOrder [] p s = tt
  IsSorted-InOrder (r ∷ rs) p s = (all_may_follow r rs p.0 p.1 s.0, IsSorted-InOrder rs p.1 s.1)

-- Two values are level: both are missing, or neither is below the other.
abbrev pub level {ℓ} : {A : Type ℓ} → (A → A → Bool) → Option A → Option A → Bool
level lt none none = true
level lt (some a) (some b) = not (lt a b) && not (lt b a)
level lt _ _ = false

-- `shown` has the rows of `base`, each once, in the order of their values, those without a value
-- last, and rows of level values in the order of `base`.
pub record IsSortOf {ℓ μ κ} {A : Type ℓ} {R : Type μ} (P : A → Type κ) (lt : A → A → Bool)
    (asc : Bool) (value : R → Option A) (base shown : List R) : Type (ℓ ⊔ μ ⊔ κ) where
  pub same_rows : Perm shown base
  pub ordered : InOrder lt asc value shown
  pub ties :
      (s : R)
      → Each P (value s)
      → filter (λ r. level lt (value s) (value r)) shown
        ≡ filter (λ r. level lt (value s) (value r)) base

filter_congr {ℓ} :
    {A : Type ℓ} (p q : A → Bool) (xs : List A)
    → All (λ x. p x ≡ q x) xs
    → filter p xs ≡ filter q xs
filter_congr p q [] h = refl
filter_congr p q (x ∷ xs) h = rw (h.0, filter_congr p q xs h.1) refl

module _ {ℓ μ κ} {A : Type ℓ} {R : Type μ} {P : A → Type κ} (lt before : A → A → Bool) (asc : Bool)
    (value : R → Option A) (agree : (a b : A) → P a → P b → before a b ≡ lt a b) where
  alike-level :
      (d : Bool) (a b : Option A)
      → Each P a
      → Each P b
      → (not (before_opt before d a b) && not (before_opt before d b a)) ≡ level lt a b
  alike-level d none none p q = refl
  alike-level d none (some b) p q = refl
  alike-level d (some a) none p q = refl
  alike-level true (some a) (some b) p q = rw (agree a b p q, agree b a q p) refl
  alike-level false (some a) (some b) p q = ground (arith, agree a b p q, agree b a q p)

  all_alike :
      (s : R) (rs : List R)
      → Each P (value s)
      → All (λ r. Each P (value r)) rs
      → All
          (λ r.
            alike (λ x y. before_opt before asc (value x) (value y)) s r
            ≡ level lt (value s) (value r))
          rs
  all_alike s [] p h = tt
  all_alike s (r ∷ rs) p h = (alike-level asc (value s) (value r) p h.0, all_alike s rs p h.1)

  -- The sort by a comparator that agrees with an order on the values that are there.
  pub sort-IsSortOf :
      IsWeakOrder P before
      → (rs : List R) → All (λ r. Each P (value r)) rs
      → IsSortOf P lt asc value rs (sort (λ r s. before_opt before asc (value r) (value s)) rs)
  sort-IsSortOf w rs h =
      let by_value = λ (r s : R). before_opt before asc (value r) (value s) in
      let v = before_opt-IsWeakOrder w value asc in
      let every = All-sort (λ r. Each P (value r)) by_value rs h in
      record {
        same_rows = sort-perm by_value rs;
        ordered =
            IsSorted-InOrder lt before asc value agree (sort by_value rs) every
              (sort-IsSorted v rs h);
        ties = λ s p.
            sym (filter_congr _ _ (sort by_value rs) (all_alike s (sort by_value rs) p every))
            ∙ sort-stable v s rs p h
            ∙ filter_congr _ _ rs (all_alike s rs p h);
      }

module _ (N : Numbers) where
  abbrev pub IsNumber : N.Number → Type 0
  IsNumber a = N.is_nan a ≡ false

  lt-asym : (a b : N.Number) → N.lt a b ≡ true → N.lt b a ≡ false
  lt-asym a b h = elim (Bool-cases (N.lt b a)) [
    | inl back ↦ back ∙ (sym (N.lt_trans a b a h back) ∙ N.lt_irrefl a)
    | inr fine ↦ fine
  ]

  not-lt_of_le : (a b : N.Number) → N.le a b ≡ true → N.lt b a ≡ false
  not-lt_of_le a b h = elim (Bool-cases (N.lt b a)) [
    | inl back ↦ back ∙ (sym (N.le_lt_trans a b a h back) ∙ N.lt_irrefl a)
    | inr fine ↦ fine
  ]

  -- Numbers other than NaN are in order.
  pub lt-IsWeakOrder : IsWeakOrder IsNumber N.lt
  lt-IsWeakOrder = record {
    asym = λ a b p q h. lt-asym a b h;
    trans = λ a b c p q r h k.
        not-lt_of_le a c (N.le_trans a b c (N.le_of_not_lt b a q p h) (N.le_of_not_lt c b r q k));
  }

  abbrev pub IsFinite : N.Number → Type 0
  IsFinite a =
      (N.is_nan a ≡ false) × (N.eq a N.infinity ≡ false) × (N.eq a (N.neg N.infinity) ≡ false)

  -- The order of a comparator that subtracts.
  abbrev pub sub_lt : N.Number → N.Number → Bool
  sub_lt a b = N.lt (N.sub a b) (N.lit 0 1)

  pub sub_lt-lt : (a b : N.Number) → IsFinite a → IsFinite b → sub_lt a b ≡ N.lt a b
  sub_lt-lt a b p q = N.lt_sub a b p q

  pub sub_lt-IsWeakOrder : IsWeakOrder IsFinite sub_lt
  sub_lt-IsWeakOrder = record {
    asym = λ a b p q h. N.lt_sub b a q p ∙ lt-asym a b (sym (N.lt_sub a b p q) ∙ h);
    trans = λ a b c p q r h k.
        N.lt_sub c a r p
        ∙ lt-IsWeakOrder.trans a b c p.0 q.0 r.0 (sym (N.lt_sub b a q p) ∙ h)
            (sym (N.lt_sub c b r q) ∙ k);
  }
