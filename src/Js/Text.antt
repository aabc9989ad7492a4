-- ===== src/Js/Text.antt =====
-- Texts as the code handles them. What depends on Unicode's and the locale's tables, `toUpperCase`
-- and `localeCompare`, is a parameter.
use Prim.Native.Char.{code}
use Prim.Native.String.{[], ◌∷◌, slice, len, ◌++◌ as ◌+++◌}
use text.Mathlib.Text.{find?}
use trader_cockpit_app.Prelude.{
  ℕ, ◌+◌, none, some, String, ◌==◌, Bool, true, false, ◌&&◌, ◌||◌, ◌≡◌, leb, nat_eq, is_some,
  if◌then◌else◌,
}

-- `s.includes(t)`.
unfoldable pub includes : String → String → Bool
includes s t = is_some (find? s t)

-- White space and line ends, as `trim` knows them.
unfoldable pub is_space : ℕ → Bool
is_space c =
    (leb 9 c && leb c 13)
    || nat_eq c 32
    || nat_eq c 160
    || nat_eq c 5760
    || (leb 8192 c && leb c 8202)
    || nat_eq c 8232
    || nat_eq c 8233
    || nat_eq c 8239
    || nat_eq c 8287
    || nat_eq c 12288
    || nat_eq c 65279

unfoldable pub trim_start : String → String
unfolding is_space
trim_start [] = []
trim_start (c ∷ s) = let rest = trim_start s in if is_space (code c) then rest else c ∷ s

unfoldable pub trim_end : String → String
unfolding is_space
trim_end [] = []
trim_end (c ∷ s) = let rest = trim_end s in if is_space (code c) && rest == "" then [] else c ∷ rest

unfoldable pub trim : String → String
unfolding trim_start trim_end
trim s = trim_end (trim_start s)

-- `localeCompare` answers a negative number when `before s t`; equal ranks keep no order.
pub record Locale : Type 0 where
  pub to_upper : String → String
  pub to_upper_empty : to_upper [] ≡ []
  pub before : String → String → Bool
  pub before_asym : (s t : String) → before s t ≡ true → before t s ≡ false
  pub before_trans : (s t u : String) → before t s ≡ false → before u t ≡ false → before u s ≡ false

-- `s.replace(old, new)` with a text: the first place where it stands.
unfoldable pub replace : String → String → String → String
replace s old new = elim (find? s old) [
  | none ↦ s
  | some i ↦ slice s 0 i +++ (new +++ slice s (i + len old) (len s))
]
