-- ===== src/Prices/Flash/Timer.antt =====
-- When the flash of CockpitUI/src/components/ui/LivePrice.tsx goes out.
use trader_cockpit_app.Prelude.{
  ℕ, false, Option, none, some, List, [], ◌∷◌, ◌≡◌, refl, ◌∙◌, arith, ◌⊎◌, inl, inr,
}
use trader_cockpit_app.Js.Numbers.{Numbers}
use trader_cockpit_app.Prices.Flash.{
  TickFlash, no_flash, FlashPrice, mount_flash, tick, price_changed, end_flash, timer_due,
}

pub data FlashEvent {ℓ} (A : Type ℓ) : Type ℓ where
  price : A → FlashEvent A
  due : FlashEvent A

abbrev IsTimed : TickFlash → Option ℕ → ℕ → Type 0
IsTimed d timer seq = (d ≡ no_flash) ⊎ (timer ≡ some seq)

module _ (N : Numbers) where
  open N use {Number, eq}

  abbrev pub flash_step : FlashEvent Number → FlashPrice N → FlashPrice N
  flash_step (price p) s = price_changed N (some p) s
  flash_step due s = timer_due N s

  abbrev pub flash_steps : List (FlashEvent Number) → FlashPrice N → FlashPrice N
  flash_steps [] s = s
  flash_steps (e ∷ es) s = flash_steps es (flash_step e s)

  abbrev pub DiffersFrom : Option Number → Number → Type 0
  DiffersFrom none p = Unit
  DiffersFrom (some last) p = eq last p ≡ false

  -- Each price differs from the one before, so that the effect runs for it.
  abbrev pub Changes : Option Number → List (FlashEvent Number) → Type 0
  Changes last [] = Unit
  Changes last (price p ∷ es) = DiffersFrom last p × Changes (some p) es
  Changes last (due ∷ es) = Changes last es

  -- A flash that is on has the timer that ends it, and before the first price it is off.
  record Timed (last : Option Number) (s : FlashPrice N) : Type 0 where
    last_is : s.last_price ≡ last
    first_off : last ≡ none → s.dir ≡ no_flash
    timed : IsTimed s.dir s.timer s.seq

module _ {N : Numbers} where
  open N use {Number, eq, lt}

  tick-Timed :
      (last : Option Number) (p : Number) (s : FlashPrice N)
      → DiffersFrom N last p
      → (last ≡ none → s.dir ≡ no_flash)
      → s.last_price ≡ some p
      → Timed N (some p) (tick N last p s)
  tick-Timed none p s d off l = record {
    last_is = l;
    first_off = λ n. off refl;
    timed = inl (off refl);
  }
  tick-Timed (some previous) p s d off l =
      rw d (record { last_is = l; first_off = λ n. cc; timed = inr refl })

  end_flash-eq-no_flash :
      (timer : Option ℕ) (s : FlashPrice N)
      → IsTimed s.dir s.timer s.seq
      → s.timer ≡ timer
      → (end_flash N timer s).dir ≡ no_flash
  end_flash-eq-no_flash none s t e = elim t [ inl off ↦ off | inr on ↦ cc ]
  end_flash-eq-no_flash (some n) s t e = elim t [
    | inl off ↦ ground (arith, off)
    | inr on ↦ ground (arith, on, e)
  ]

  end_flash-last_price :
      (timer : Option ℕ) (s : FlashPrice N) → (end_flash N timer s).last_price ≡ s.last_price
  end_flash-last_price none s = refl
  end_flash-last_price (some n) s = refl

  timer_due-Timed :
      (last : Option Number) (s : FlashPrice N) → Timed N last s → Timed N last (timer_due N s)
  unfolding timer_due
  timer_due-Timed last s t =
      let off = end_flash-eq-no_flash s.timer s t.timed refl in
      record {
        last_is = end_flash-last_price s.timer s ∙ t.last_is;
        first_off = λ n. off;
        timed = inl off;
      }

  price_changed-Timed :
      (last : Option Number) (p : Number) (s : FlashPrice N)
      → Timed N last s
      → DiffersFrom N last p
      → Timed N (some p) (price_changed N (some p) s)
  unfolding price_changed
  price_changed-Timed last p s t d =
      rw t.last_is
        (tick-Timed last p (record s { last_price = some p; timer = none }) d t.first_off refl)

  flash_steps-off :
      (es : List (FlashEvent Number)) (last : Option Number) (s : FlashPrice N)
      → Timed N last s
      → Changes N last es
      → (timer_due N (flash_steps N es s)).dir ≡ no_flash
  unfolding timer_due
  flash_steps-off [] last s t c = end_flash-eq-no_flash s.timer s t.timed refl
  flash_steps-off (price p ∷ es) last s t c =
      flash_steps-off es (some p) (price_changed N (some p) s) (price_changed-Timed last p s t c.0)
        c.1
  flash_steps-off (due ∷ es) last s t c =
      flash_steps-off es last (timer_due N s) (timer_due-Timed last s t) c

module _ (N : Numbers) where
  open N use {Number}

  -- After a price at the start and then prices that each differ from the one before, the timers
  -- that come due between them in any number: the next timer leaves no flash on. When a missing
  -- price comes before that timer, the flash stays as it is at whatever price comes then, with no
  -- timer to end it.
  pub flash_goes_out :
      (first : Option Number) (es : List (FlashEvent Number)) (p : Number)
      → Changes N first es
      → let s : FlashPrice N = flash_steps N es (mount_flash N first) in
        let t : FlashPrice N = price_changed N (some p) (price_changed N none s) in
        ((timer_due N s).dir ≡ no_flash) × (t.dir ≡ s.dir) × (t.timer ≡ none)
  unfolding mount_flash price_changed
  flash_goes_out first es p c = (
    flash_steps-off es first (mount_flash N first)
        (record { last_is = refl; first_off = λ n. refl; timed = inl refl }) c,
    refl,
    refl,
  )
