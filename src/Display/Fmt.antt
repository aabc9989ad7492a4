-- ===== src/Display/Fmt.antt =====
-- CockpitUI/src/lib/fmt.ts. Of the dates only what `Date` is asked for is a parameter.
use Prim.Native.Char.{code}
use Prim.Native.String.{◌++◌ as ◌+++◌}
use Prim.Native.String as Text
use trader_cockpit_app.Prelude.{
  ℕ, suc, String, ◌==◌, Bool, false, ◌&&◌, ◌||◌, Option, none, some, List, [], ◌∷◌, leb, nat_eq,
  if◌then◌else◌,
}
use trader_cockpit_app.Prelude.Int.{pos, negsuc}
use trader_cockpit_app.Js.Numbers.{Numbers, zero_n, nonzero}
use trader_cockpit_app.Js.Format.{Format, Dates}

abbrev pub codes : String → List ℕ
codes Text.[] = []
codes (Text.◌∷◌ c s) = code c ∷ codes s

abbrev pub is_digit : ℕ → Bool
is_digit c = leb b'0' c && leb c b'9'

-- `Z$`, at a place in the text.
abbrev pub is_zulu : List ℕ → Bool
is_zulu (c ∷ []) = nat_eq c b'Z'
is_zulu _ = false

-- `[+-]\d{2}:\d{2}$`, at a place in the text.
abbrev pub is_offset : List ℕ → Bool
is_offset (s ∷ a ∷ b ∷ c ∷ d ∷ e ∷ []) =
    (nat_eq s b'+' || nat_eq s b'-')
    && is_digit a
    && is_digit b
    && nat_eq c b':'
    && is_digit d
    && is_digit e
is_offset _ = false

-- `/Z$|[+-]\d{2}:\d{2}$/.test(iso)`.
unfoldable pub has_zone : List ℕ → Bool
has_zone [] = false
has_zone (c ∷ cs) = let later = has_zone cs in is_zulu (c ∷ cs) || is_offset (c ∷ cs) || later

abbrev pub aware : String → String
aware iso = if has_zone (codes iso) then iso else iso +++ "Z"

module _ {N : Numbers} (F : Format N) where
  open N use {Number, lit, sub, mul, div, le}

  unfoldable pub fmt2 : Option Number → String
  fmt2 none = "-"
  fmt2 (some v) = F.fixed 2 v

  -- `Math.round` answers NaN and the infinities with themselves.
  abbrev pub rounded : Number → Number
  rounded v = elim (F.round v) [
    | none ↦ v
    | some (pos n) ↦ lit n 1
    | some (negsuc n) ↦ N.neg (lit (suc n) 1)
  ]

  unfoldable pub fmt_adv : Option Number → String
  fmt_adv none = "-"
  fmt_adv (some cr) =
      if le (lit 100 1) cr then F.shown (rounded cr) +++ "Cr" else F.fixed 1 cr +++ "Cr"

  -- `p >= 0 ? '+' : ''`.
  abbrev pub plus_sign : Number → String
  plus_sign p = if le (zero_n N) p then "+" else ""

  unfoldable pub spct : Option Number → Option Number → String
  spct none reference = ""
  spct (some value) none = ""
  spct (some value) (some reference) =
      let p = mul (div (sub value reference) reference) (lit 100 1) in
      if nonzero N reference then plus_sign p +++ (F.fixed 1 p +++ "%") else ""

module _ {N : Numbers} (D : Dates N) where
  open N use {Number}

  abbrev pub shown_time : (Number → String) → String → Option Number → String
  shown_time print bad none = bad
  shown_time print bad (some t) = print t

  unfoldable pub time_str : Option String → String
  time_str none = ""
  time_str (some iso) =
      if iso == "" then "" else shown_time D.ist_time "??:??" (D.time_of (aware iso))

  unfoldable pub fmt_date_time : Option String → String
  fmt_date_time none = ""
  fmt_date_time (some iso) =
      if iso == "" then "" else shown_time D.ist_date_time "—" (D.time_of (aware iso))
