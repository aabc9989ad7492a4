-- ===== src/Js/Numbers.antt =====
-- The numbers of the browser. The code computes with IEEE doubles; the development takes the type,
-- its operations and its tests as a parameter, with the order facts that hold of every double.
use trader_cockpit_app.Prelude.{
  ℕ, ◌≡◌, Bool, true, false, not, ◌&&◌, if◌then◌else◌, Option, none, some,
}

pub record Numbers : Type 1 where
  pub Number : Type 0
  -- `lit n d` is the literal whose value is n / d: `lit 5 1000` is 0.005.
  pub lit : ℕ → ℕ → Number
  pub neg : Number → Number
  pub add : Number → Number → Number
  pub sub : Number → Number → Number
  pub mul : Number → Number → Number
  pub div : Number → Number → Number
  pub infinity : Number
  pub is_nan : Number → Bool
  -- `a < b`, `a <= b` and `a === b`. The code's `a > b` is `lt b a`, and `a >= b` is `le b a`.
  pub lt : Number → Number → Bool
  pub le : Number → Number → Bool
  pub eq : Number → Number → Bool
  -- These hold of all doubles, also of NaN and the infinities.
  pub lt_irrefl : (a : Number) → lt a a ≡ false
  pub lt_trans : (a b c : Number) → lt a b ≡ true → lt b c ≡ true → lt a c ≡ true
  pub lt_le_trans : (a b c : Number) → lt a b ≡ true → le b c ≡ true → lt a c ≡ true
  pub le_lt_trans : (a b c : Number) → le a b ≡ true → lt b c ≡ true → lt a c ≡ true
  pub le_trans : (a b c : Number) → le a b ≡ true → le b c ≡ true → le a c ≡ true
  pub le_of_lt : (a b : Number) → lt a b ≡ true → le a b ≡ true
  -- Only NaN is unordered.
  pub le_of_not_lt :
      (a b : Number) → is_nan a ≡ false → is_nan b ≡ false → lt a b ≡ false → le b a ≡ true
  pub lt_of_not_nan : (a b : Number) → lt a b ≡ true → is_nan a ≡ false
  pub eq_self : (a : Number) → is_nan a ≡ false → eq a a ≡ true
  pub infinity_not_nan : is_nan infinity ≡ false
  pub neg_infinity_not_nan : is_nan (neg infinity) ≡ false
  pub neg_infinity_not_positive : lt (lit 0 1) (neg infinity) ≡ false
  pub zero_not_nan : is_nan (lit 0 1) ≡ false
  -- The difference of two finite numbers has the sign of their order.
  pub lt_sub :
      (a b : Number)
      → (is_nan a ≡ false) × (eq a infinity ≡ false) × (eq a (neg infinity) ≡ false)
      → (is_nan b ≡ false) × (eq b infinity ≡ false) × (eq b (neg infinity) ≡ false)
      → lt (sub a b) (lit 0 1) ≡ lt a b
  pub gt_of_not_nan : (a b : Number) → lt a b ≡ true → is_nan b ≡ false

module _ (N : Numbers) where
  open N use {Number, lit, neg, sub, lt}

  abbrev pub zero_n : Number
  zero_n = lit 0 1

  abbrev pub neg_infinity : Number
  neg_infinity = neg N.infinity

  -- `Math.abs`.
  unfoldable pub abs : Number → Number
  abs a = if lt a zero_n then neg a else a

  -- `x` in a condition: false at 0 and at NaN.
  unfoldable pub nonzero : Number → Bool
  nonzero a = not (N.eq a zero_n) && not (N.is_nan a)

  -- `a !== b`.
  abbrev pub differs : Number → Number → Bool
  differs a b = not (N.eq a b)

  -- An optional number in a condition.
  unfoldable pub truthy_number : Option Number → Bool
  unfolding nonzero
  truthy_number none = false
  truthy_number (some a) = nonzero a

  -- `Number.isFinite`.
  unfoldable pub is_finite : Number → Bool
  is_finite a = not (N.is_nan a) && not (N.eq a N.infinity) && not (N.eq a neg_infinity)
