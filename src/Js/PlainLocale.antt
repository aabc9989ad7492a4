-- ===== src/Js/PlainLocale.antt =====
-- A locale that leaves letters as they are and ranks texts by their first character, for runs on
-- concrete inputs.
use Prim.Native.Char.{code}
use Prim.Native.String.{[], ◌∷◌}
use trader_cockpit_app.Prelude.{ℕ, String, Bool, true, false, ◌≡◌, refl, ltb, arith}
use trader_cockpit_app.Js.Text.{Locale}

abbrev pub first_code : String → ℕ
first_code [] = 0
first_code (c ∷ s) = code c

abbrev pub ranks_before : ℕ → ℕ → Bool
ranks_before m n = ltb m n

pub ranks_before_asym : (m n : ℕ) → ranks_before m n ≡ true → ranks_before n m ≡ false
ranks_before_asym m n e = ground arith

pub ranks_before_trans :
    (m n k : ℕ) → ranks_before n m ≡ false → ranks_before k n ≡ false → ranks_before k m ≡ false
ranks_before_trans m n k e f = ground arith

abbrev pub plain_locale : Locale
plain_locale = record {
  to_upper = λ s. s;
  to_upper_empty = refl;
  before = λ s t. ranks_before (first_code s) (first_code t);
  before_asym = λ s t e. ranks_before_asym (first_code s) (first_code t) e;
  before_trans = λ s t u e f. ranks_before_trans (first_code s) (first_code t) (first_code u) e f;
}
