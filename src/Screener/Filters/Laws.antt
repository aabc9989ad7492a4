-- ===== src/Screener/Filters/Laws.antt =====
-- What the filters of CockpitUI/src/domain/screener.ts let through.
use Prim.Native.String.{[] as empty}
use trader_cockpit_app.Prelude.{
  String, Bool, true, false, ◌&&◌, ◌||◌, Option, none, some, get_or, List, [], ◌∷◌, ◌≡◌, refl, sym,
  ◌∙◌, arith, All, IsSublist, IsSublist-filter_of_imp, filter_all, if_elim, if◌then◌else◌,
}
use trader_cockpit_app.Js.Numbers.{Numbers, zero_n, neg_infinity, differs}
use trader_cockpit_app.Js.Collections.{Object}
use trader_cockpit_app.Js.Text.{Locale, trim}
use trader_cockpit_app.Screener.Rows.{ScreenerRow}
use trader_cockpit_app.Screener.Filters.{
  ScreenerPreset, Presets, near52h, near52l, nearpdh, nearpdl, cam_h4x, cam_s4x, cam_h3rej,
  cam_s3rej, vcp, rect_breakout, stage2, stage4, ScreenerRangeFilter, default_range, misses_query,
  outside, outside_known, out_of_range, fails_near, fails_cam, fails_cam_at, cam_verdict,
  has_cam_preset, prev_day, fails_flags, keeps, apply_filters, is_range_active,
}

-- Every preset of the first set is in the second.
abbrev pub Within : Presets → Presets → Type 0
Within P Q = (p : ScreenerPreset) → P p ≡ true → Q p ≡ true

-- Four tests of the form `has(p) && failing`, in a row.
ladder_mono :
    (a b c d a' b' c' d' x y z w : Bool)
    → (a ≡ true → a' ≡ true)
    → (b ≡ true → b' ≡ true)
    → (c ≡ true → c' ≡ true)
    → (d ≡ true → d' ≡ true)
    → (if a && x then true else if b && y then true else if c && z then true else d && w) ≡ true
    → (if a' && x then true else if b' && y then true else if c' && z then true else d' && w) ≡ true
ladder_mono a b c d a' b' c' d' x y z w f g h k e = ground arith

or_mono :
    (a b c d a' b' c' d' : Bool)
    → (a ≡ true → a' ≡ true)
    → (b ≡ true → b' ≡ true)
    → (c ≡ true → c' ≡ true)
    → (d ≡ true → d' ≡ true)
    → (a || b || c || d) ≡ true
    → (a' || b' || c' || d') ≡ true
or_mono a b c d a' b' c' d' f g h k e = ground arith

module _ (N : Numbers) where
  open N use {Number, lt, le}

  module _ {P Q : Presets} (sub : Within P Q) where
    fails_near_mono :
        (close : Number) (r : ScreenerRow N)
        → fails_near N P close r ≡ true
        → fails_near N Q close r ≡ true
    unfolding fails_near
    fails_near_mono close r =
        ladder_mono _ _ _ _ _ _ _ _ _ _ _ _ (sub near52h) (sub near52l) (sub nearpdh) (sub nearpdl)

    fails_cam_at_mono :
        (price pdh pdl pdc : Number)
        → fails_cam_at N P price pdh pdl pdc ≡ true
        → fails_cam_at N Q price pdh pdl pdc ≡ true
    unfolding fails_cam_at
    fails_cam_at_mono price pdh pdl pdc =
        ladder_mono _ _ _ _ _ _ _ _ _ _ _ _ (sub cam_h4x) (sub cam_s4x) (sub cam_h3rej)
          (sub cam_s3rej)

    cam_verdict_mono :
        (price : Number) (o : Option (Number × Number × Number))
        → cam_verdict N P price o ≡ true
        → cam_verdict N Q price o ≡ true
    unfolding cam_verdict
    cam_verdict_mono price none e = refl
    cam_verdict_mono price (some (pdh, pdl, pdc)) e = fails_cam_at_mono price pdh pdl pdc e

    has_cam_preset_mono : has_cam_preset N P ≡ true → has_cam_preset N Q ≡ true
    has_cam_preset_mono =
        or_mono _ _ _ _ _ _ _ _ (sub cam_h4x) (sub cam_s4x) (sub cam_h3rej) (sub cam_s3rej)

    fails_cam_mono :
        (close : Number) (r : ScreenerRow N)
        → fails_cam N P close r ≡ true
        → fails_cam N Q close r ≡ true
    unfolding fails_cam
    fails_cam_mono close r e =
        ground (arith, has_cam_preset_mono, cam_verdict_mono close (prev_day N r))

    fails_flags_mono : (r : ScreenerRow N) → fails_flags N P r ≡ true → fails_flags N Q r ≡ true
    unfolding fails_flags
    fails_flags_mono r =
        ladder_mono _ _ _ _ _ _ _ _ _ _ _ _ (sub stage2) (sub stage4) (sub vcp) (sub rect_breakout)

    keeps_mono :
        (locale : Locale) (q : String) (range : ScreenerRangeFilter N) (fno_only : Bool)
        (notes : Object String) (r : ScreenerRow N)
        → keeps N locale q range Q fno_only notes r ≡ true
        → keeps N locale q range P fno_only notes r ≡ true
    unfolding keeps
    keeps_mono locale q range fno_only notes r e =
        let close = get_or r.display_price (zero_n N) in
        ground (arith, fails_near_mono close r, fails_cam_mono close r, fails_flags_mono r)

    -- Presets combine by "and": with more of them the screener shows a part of the rows that it
    -- showed with fewer, in the same order.
    pub more_presets_fewer_rows :
        (locale : Locale) (rows : List (ScreenerRow N)) (query : String)
        (range : ScreenerRangeFilter N) (fno_only : Bool) (notes : Object String)
        → IsSublist
            (apply_filters N locale rows query range Q fno_only notes)
            (apply_filters N locale rows query range P fno_only notes)
    unfolding apply_filters
    more_presets_fewer_rows locale rows query range fno_only notes =
        IsSublist-filter_of_imp _ _ rows
          (keeps_mono locale (locale.to_upper (trim query)) range fno_only notes)

  -- Turnover, range and price of the row are not negative, where missing ones count as 0.
  pub record IsPlain (r : ScreenerRow N) : Type 0 where
    pub adv : le (zero_n N) (get_or r.adv_20_cr (zero_n N)) ≡ true
    pub atr : le (zero_n N) (get_or r.atr_14 (zero_n N)) ≡ true
    pub price : le (zero_n N) (get_or r.display_price (zero_n N)) ≡ true

  inside_open :
      (lo hi v : Number)
      → lt (zero_n N) lo ≡ false
      → differs N hi N.infinity ≡ false
      → le (zero_n N) v ≡ true
      → outside N lo hi v ≡ false
  unfolding outside
  inside_open lo hi v l h p =
      if_elim (λ b. b ≡ false) (lt v lo) (λ below. sym (N.le_lt_trans (zero_n N) v lo p below) ∙ l)
        (λ above. rw h)

  inside_open_known :
      (lo hi : Number) (v : Option Number)
      → differs N lo (neg_infinity N) ≡ false
      → differs N hi N.infinity ≡ false
      → outside_known N lo hi v ≡ false
  unfolding outside_known
  inside_open_known lo hi none l h = refl
  inside_open_known lo hi (some v) l h = rw (l, h)

  inactive_keeps :
      (range : ScreenerRangeFilter N) (r : ScreenerRow N)
      → is_range_active N range false ≡ false
      → IsPlain r
      → out_of_range N range r ≡ false
  unfolding out_of_range is_range_active
  inactive_keeps range r inactive plain = ground (
    arith,
    inside_open range.adv_min range.adv_max (get_or r.adv_20_cr (zero_n N)),
    inside_open range.atr_min range.atr_max (get_or r.atr_14 (zero_n N)),
    inside_open range.close_min range.close_max (get_or r.display_price (zero_n N)),
    inside_open_known range.f52h_min range.f52h_max r.f52h,
    inside_open_known range.f52l_min range.f52l_max r.f52l,
  )

  -- No preset is on.
  abbrev pub IsEmpty : Presets → Type 0
  IsEmpty P = (p : ScreenerPreset) → P p ≡ false

  idle_keeps :
      (locale : Locale) (range : ScreenerRangeFilter N) (P : Presets) (notes : Object String)
      (r : ScreenerRow N)
      → is_range_active N range false ≡ false
      → IsEmpty P
      → IsPlain r
      → keeps N locale empty range P false notes r ≡ true
  unfolding keeps misses_query fails_near fails_cam fails_flags
  idle_keeps locale range P notes r inactive none_on plain = ground (
    arith,
    inactive_keeps range r,
    none_on near52h,
    none_on near52l,
    none_on nearpdh,
    none_on nearpdl,
    none_on cam_h4x,
    none_on cam_s4x,
    none_on cam_h3rej,
    none_on cam_s3rej,
    none_on vcp,
    none_on rect_breakout,
    none_on stage2,
    none_on stage4,
  )

  idle_keeps_all :
      (locale : Locale) (range : ScreenerRangeFilter N) (P : Presets) (notes : Object String)
      (rows : List (ScreenerRow N))
      → is_range_active N range false ≡ false
      → IsEmpty P
      → All IsPlain rows
      → All (λ r. keeps N locale empty range P false notes r ≡ true) rows
  idle_keeps_all locale range P notes [] inactive none_on plain = tt
  idle_keeps_all locale range P notes (r ∷ rows) inactive none_on plain = (
    idle_keeps locale range P notes r inactive none_on plain.0,
    idle_keeps_all locale range P notes rows inactive none_on plain.1,
  )

  -- While `isRangeActive` says that no range is set, an empty query, no preset and no F&O switch
  -- show every row whose turnover, range and price are not negative.
  pub inactive_filters_show_all :
      (locale : Locale) (rows : List (ScreenerRow N)) (range : ScreenerRangeFilter N) (P : Presets)
      (notes : Object String)
      → is_range_active N range false ≡ false
      → IsEmpty P
      → All IsPlain rows
      → apply_filters N locale rows empty range P false notes ≡ rows
  unfolding apply_filters trim
  inactive_filters_show_all locale rows range P notes inactive none_on plain =
      rw locale.to_upper_empty
        (filter_all _ rows (idle_keeps_all locale range P notes rows inactive none_on plain))

  -- The range that the filters are reset to counts as no range.
  pub default_range_inactive : is_range_active N (default_range N) false ≡ false
  unfolding is_range_active
  default_range_inactive = rw (
    N.lt_irrefl (zero_n N),
    N.eq_self N.infinity N.infinity_not_nan,
    N.eq_self (neg_infinity N) N.neg_infinity_not_nan,
  )
