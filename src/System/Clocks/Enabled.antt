-- ===== src/System/Clocks/Enabled.antt =====
-- What stays clocked: system/samclk.c over any sequence of calls.
use samlibs.Base.{ℕ, Bool, true, ◌&&◌, ltb, List, [], ◌∷◌, ◌≡◌, refl, arith, ◌∙◌}
use samlibs.Gpio.Pinmux.{Family, Module, same54, same53, samd51, samc20}
use samlibs.System.Clocks.{
  is_known, Pack, Bus, Clocks, connect, or_mask, enable_peripheral_clock, enable_gclk_channel,
  enable_glck_slow_channel, get_peripheral_bus, get_peripheral_mask, get_peripheral_clockid,
  get_peripheral_slowclockid,
}

-- A call of the interface.
pub data Request : Type 0 where
  peripheral : Module → Request
  gclk slow : Module → ℕ → Request

pub serve : Pack → Family → Request → Clocks → Clocks
unfolding enable_peripheral_clock enable_gclk_channel enable_glck_slow_channel
serve p f (peripheral m) c = enable_peripheral_clock p f m c
serve p f (gclk m source) c = enable_gclk_channel p f m source c
serve p f (slow m source) c = enable_glck_slow_channel p f m source c

pub serve_all : Pack → Family → List Request → Clocks → Clocks
unfolding serve
serve_all p f [] c = c
serve_all p f (r ∷ rs) c = serve_all p f rs (serve p f r c)

-- The bit `j` of a bus is set, and the channel `i` is enabled.
abbrev pub IsClocked : Bus → ℕ → ℕ → Clocks → Type 0
IsClocked b j i c = (c.bus_mask b j ≡ true) × ((c.pchctrl i).is_enabled ≡ true)

peripheral-IsClocked :
    (p : Pack) (f : Family) (m : Module) (b : Bus) (j i : ℕ) (c : Clocks)
    → IsClocked b j i c
    → IsClocked b j i (enable_peripheral_clock p f m c)
unfolding enable_peripheral_clock
peripheral-IsClocked p f m b j i c h = (rw (h.0), h.1)

connect-IsClocked :
    (f : Family) (channel source : ℕ) (b : Bus) (j i : ℕ) (c : Clocks)
    → IsClocked b j i c
    → IsClocked b j i (connect f channel source c)
connect-IsClocked samc20 channel source b j i c h = ground arith
connect-IsClocked same54 channel source b j i c h = ground arith
connect-IsClocked same53 channel source b j i c h = ground arith
connect-IsClocked samd51 channel source b j i c h = ground arith

serve-IsClocked :
    (p : Pack) (f : Family) (r : Request) (b : Bus) (j i : ℕ) (c : Clocks)
    → IsClocked b j i c
    → IsClocked b j i (serve p f r c)
unfolding serve enable_gclk_channel enable_glck_slow_channel
serve-IsClocked p f (peripheral m) b j i c h = peripheral-IsClocked p f m b j i c h
serve-IsClocked p f (gclk m source) b j i c h =
    connect-IsClocked f (get_peripheral_clockid p f m) source b j i c h
serve-IsClocked p f (slow m source) b j i c h =
    connect-IsClocked f (get_peripheral_slowclockid p f m) source b j i c h

-- A bus clock and a clock channel that are on stay on, whichever modules are given clocks
-- afterwards.
pub serve_all-IsClocked :
    (p : Pack) (f : Family) (rs : List Request) (b : Bus) (j i : ℕ) (c : Clocks)
    → IsClocked b j i c
    → IsClocked b j i (serve_all p f rs c)
unfolding serve_all
serve_all-IsClocked p f [] b j i c h = h
serve_all-IsClocked p f (r ∷ rs) b j i c h =
    serve_all-IsClocked p f rs b j i (serve p f r c) (serve-IsClocked p f r b j i c h)

-- The test of the SAMC20, and none elsewhere.
abbrev pub reaches : Family → ℕ → ℕ → Bool
reaches samc20 channel source = ltb source 9 && ltb channel 41
reaches family channel source = true

connected :
    (f : Family) (channel source : ℕ) (c : Clocks)
    → reaches f channel source ≡ true
    → ((connect f channel source c).pchctrl channel).is_enabled ≡ true
connected samc20 channel source c h = ground arith
connected same54 channel source c h = ground arith
connected same53 channel source c h = ground arith
connected samd51 channel source c h = ground arith

masked :
    (bus : Bus) (mask : ℕ → Bool) (j : ℕ) (c : Clocks)
    → is_known bus ≡ true
    → mask j ≡ true
    → (or_mask bus mask c).bus_mask bus j ≡ true
masked Bus.unknown mask j c known h = ground arith
masked Bus.ahb mask j c known h = ground arith
masked Bus.apb_a mask j c known h = ground arith
masked Bus.apb_b mask j c known h = ground arith
masked Bus.apb_c mask j c known h = ground arith
masked Bus.apb_d mask j c known h = ground arith

mask_known :
    (p : Pack) (f : Family) (m : Module)
    → is_known (get_peripheral_bus p f m) ≡ true
    → get_peripheral_mask p f m ≡ p.mask m
unfolding get_peripheral_mask
mask_known p f m known = rw (known)

peripheral_masked :
    (p : Pack) (f : Family) (m : Module) (j : ℕ) (c : Clocks)
    → is_known (get_peripheral_bus p f m) ≡ true
    → p.mask m j ≡ true
    → (enable_peripheral_clock p f m c).bus_mask (get_peripheral_bus p f m) j ≡ true
unfolding enable_peripheral_clock
peripheral_masked p f m j c known h =
    masked (get_peripheral_bus p f m) (get_peripheral_mask p f m) j c known
      (rw (mask_known p f m known) h)

gclk_keeps_mask :
    (f : Family) (channel source : ℕ) (b : Bus) (j : ℕ) (c : Clocks)
    → (connect f channel source c).bus_mask b j ≡ c.bus_mask b j
gclk_keeps_mask samc20 channel source b j c = ground arith
gclk_keeps_mask same54 channel source b j c = refl
gclk_keeps_mask same53 channel source b j c = refl
gclk_keeps_mask samd51 channel source b j c = refl

pub module-IsClocked :
    (p : Pack) (f : Family) (m : Module) (source j : ℕ) (c : Clocks) (later : List Request)
    → is_known (get_peripheral_bus p f m) ≡ true
    → p.mask m j ≡ true
    → reaches f (get_peripheral_clockid p f m) source ≡ true
    → IsClocked
        (get_peripheral_bus p f m)
        j
        (get_peripheral_clockid p f m)
        (serve_all p f (peripheral m ∷ gclk m source ∷ later) c)
unfolding serve serve_all enable_gclk_channel
module-IsClocked p f m source j c later known h r =
    serve_all-IsClocked p f later (get_peripheral_bus p f m) j (get_peripheral_clockid p f m)
      (enable_gclk_channel p f m source (enable_peripheral_clock p f m c))
      (
        gclk_keeps_mask f (get_peripheral_clockid p f m) source (get_peripheral_bus p f m) j
              (enable_peripheral_clock p f m c)
            ∙ peripheral_masked p f m j c known h,
        connected f (get_peripheral_clockid p f m) source (enable_peripheral_clock p f m c) r,
      )
