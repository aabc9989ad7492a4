-- ===== src/Js/Thousandths.antt =====
-- A concrete type of numbers for the runs and examples: signed thousandths, rounded toward 0. It
-- meets the order laws of `Numbers`; no code of the program is modelled here.
use trader_cockpit_app.Prelude.{◌+◌, ◌*◌, ◌/◌, ◌≡◌, Bool, true, false, not, ◌&&◌, arith, ltb, leb}
use trader_cockpit_app.Js.Numbers.{Numbers}
use trader_cockpit_app.Prelude.Int.{pos_part, neg_part, sub_ℕ}
pub use trader_cockpit_app.Prelude.Int.{ℤ, pos, negsuc}

abbrev lt_ℤ : ℤ → ℤ → Bool
lt_ℤ a b = ltb (pos_part a + neg_part b) (pos_part b + neg_part a)

abbrev le_ℤ : ℤ → ℤ → Bool
le_ℤ a b = leb (pos_part a + neg_part b) (pos_part b + neg_part a)

pub lt_ℤ_irrefl : (a : ℤ) → lt_ℤ a a ≡ false
lt_ℤ_irrefl a = ground arith

pub lt_ℤ_trans : (a b c : ℤ) → lt_ℤ a b ≡ true → lt_ℤ b c ≡ true → lt_ℤ a c ≡ true
lt_ℤ_trans a b c h k = ground arith

pub lt_le_ℤ_trans : (a b c : ℤ) → lt_ℤ a b ≡ true → le_ℤ b c ≡ true → lt_ℤ a c ≡ true
lt_le_ℤ_trans a b c h k = ground arith

pub le_lt_ℤ_trans : (a b c : ℤ) → le_ℤ a b ≡ true → lt_ℤ b c ≡ true → lt_ℤ a c ≡ true
le_lt_ℤ_trans a b c h k = ground arith

pub le_ℤ_trans : (a b c : ℤ) → le_ℤ a b ≡ true → le_ℤ b c ≡ true → le_ℤ a c ≡ true
le_ℤ_trans a b c h k = ground arith

pub le_ℤ_of_lt : (a b : ℤ) → lt_ℤ a b ≡ true → le_ℤ a b ≡ true
le_ℤ_of_lt a b h = ground arith

pub le_ℤ_of_not_lt : (a b : ℤ) → lt_ℤ a b ≡ false → le_ℤ b a ≡ true
le_ℤ_of_not_lt a b h = ground arith

abbrev no_nan : ℤ → Bool
no_nan a = false

pub lt_sub_ℤ :
    (a b : ℤ) → lt_ℤ (sub_ℕ (pos_part a + neg_part b) (neg_part a + pos_part b)) (pos 0) ≡ lt_ℤ a b
lt_sub_ℤ a b = ground arith

pub eq_ℤ_self : (a : ℤ) → (not (lt_ℤ a a) && not (lt_ℤ a a)) ≡ true
eq_ℤ_self a = ground arith

pub no_nan_lem : (a : ℤ) → no_nan a ≡ false
no_nan_lem a = ground arith

abbrev pub thousandths : Numbers
thousandths = record {
  Number = ℤ;
  lit = λ n d. pos (n * 1000 / d);
  neg = λ a. sub_ℕ (neg_part a) (pos_part a);
  add = λ a b. sub_ℕ (pos_part a + pos_part b) (neg_part a + neg_part b);
  sub = λ a b. sub_ℕ (pos_part a + neg_part b) (neg_part a + pos_part b);
  mul = λ a b.
      sub_ℕ ((pos_part a * pos_part b + neg_part a * neg_part b) / 1000)
        ((pos_part a * neg_part b + neg_part a * pos_part b) / 1000);
  div = λ a b.
      sub_ℕ (pos_part a * 1000 / pos_part b + neg_part a * 1000 / neg_part b)
        (pos_part a * 1000 / neg_part b + neg_part a * 1000 / pos_part b);
  infinity = pos 1_000_000_000_000_000;
  is_nan = no_nan;
  lt = lt_ℤ;
  le = le_ℤ;
  eq = λ a b. not (lt_ℤ a b) && not (lt_ℤ b a);
  lt_irrefl = lt_ℤ_irrefl;
  lt_trans = lt_ℤ_trans;
  lt_le_trans = lt_le_ℤ_trans;
  le_lt_trans = le_lt_ℤ_trans;
  le_trans = le_ℤ_trans;
  le_of_lt = le_ℤ_of_lt;
  le_of_not_lt = λ a b n m. le_ℤ_of_not_lt a b;
  lt_of_not_nan = λ a b h. no_nan_lem a;
  eq_self = λ a n. eq_ℤ_self a;
  infinity_not_nan = no_nan_lem (pos 1_000_000_000_000_000);
  neg_infinity_not_positive = λ i. false;
  neg_infinity_not_nan = no_nan_lem (negsuc 999_999_999_999_999);
  zero_not_nan = no_nan_lem (pos 0);
  lt_sub = λ a b p q. lt_sub_ℤ a b;
  gt_of_not_nan = λ a b h. no_nan_lem b;
}
