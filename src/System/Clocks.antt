-- ===== src/System/Clocks.antt =====
-- system/samclk.c: the clocks of the modules.
--
-- The branches of the SAMx5x and of the SAMC20; that of the SAMD20 does not compile. The numbers and
-- masks that the device pack defines are the record `Pack`, a mask as a function of the bit.
pub mod Enabled
mod Tests
use samlibs.Base.{
  ℕ, ◌/◌, ◌%◌, Bool, true, false, ◌&&◌, ◌||◌, if◌then◌else◌, ltb, ◌==◌, List, [], ◌∷◌,
}
use samlibs.Gpio.Pinmux.{
  Family, Module, same54, same53, samd51, samc20, eic, dac, ac, ccl, gmac, ptc, evsys, adc, tc, tcc,
  sercom, other,
}

-- `ClockBus_t`.
pub data Bus : Type 0 where
  unknown ahb apb_a apb_b apb_c apb_d : Bus

-- MCLK_APBxMASK_m, m_GCLK_ID (of the core), m_GCLK_ID_SLOW, and which of the modules exist.
pub record Pack : Type 0 where
  pub mask : Module → ℕ → Bool
  pub core_id : Module → ℕ
  pub slow_id : Module → ℕ
  pub num_sercoms : ℕ
  pub num_timers : ℕ
  pub has_gmac : Bool

abbrev bus_if : Bool → Bus → Bus
bus_if present bus = if present then bus else unknown

abbrev sercom_bus : ℕ → Bus
sercom_bus n = if ltb n 2 then apb_a else (if ltb n 4 then apb_b else apb_d)

abbrev tc_bus : ℕ → Bus
tc_bus n =
    if ltb n 2 then apb_a else (if ltb n 4 then apb_b else (if ltb n 6 then apb_c else apb_d))

abbrev tcc_bus : ℕ → Bus
tcc_bus n =
    if ltb n 2 then apb_b else (if ltb n 4 then apb_c else (if n == 4 then apb_d else unknown))

abbrev pub bus_x5x : Pack → Module → Bus
bus_x5x p (sercom n) = bus_if (ltb n p.num_sercoms && ltb n 8) (sercom_bus n)
bus_x5x p gmac = bus_if p.has_gmac apb_c
bus_x5x p (tc n) = bus_if (ltb n p.num_timers && ltb n 8) (tc_bus n)
bus_x5x p (tcc n) = tcc_bus n
bus_x5x p eic = apb_a
bus_x5x p dac = apb_d
bus_x5x p evsys = apb_b
bus_x5x p ac = unknown
bus_x5x p ccl = unknown
bus_x5x p ptc = unknown
bus_x5x p (adc n) = unknown
bus_x5x p other = unknown

abbrev pub bus_c20 : Module → Bus
bus_c20 (sercom n) = bus_if (ltb n 4) apb_c
bus_c20 (tc n) = bus_if (ltb n 5) apb_c
bus_c20 eic = apb_a
bus_c20 ccl = apb_c
bus_c20 gmac = unknown
bus_c20 (tcc n) = unknown
bus_c20 dac = unknown
bus_c20 evsys = unknown
bus_c20 ac = unknown
bus_c20 ptc = unknown
bus_c20 (adc n) = unknown
bus_c20 other = unknown

pub get_peripheral_bus : Pack → Family → Module → Bus
get_peripheral_bus p samc20 m = bus_c20 m
get_peripheral_bus p family m = bus_x5x p m

abbrev pub is_known : Bus → Bool
is_known unknown = false
is_known _ = true

-- The switch statements of the mask and of the clock's number have the labels of that of the bus.
pub get_peripheral_mask : Pack → Family → Module → ℕ → Bool
unfolding get_peripheral_bus
get_peripheral_mask p f m = if is_known (get_peripheral_bus p f m) then p.mask m else (λ j. false)

pub get_peripheral_clockid : Pack → Family → Module → ℕ
unfolding get_peripheral_bus
get_peripheral_clockid p f m = if is_known (get_peripheral_bus p f m) then p.core_id m else 0

-- `sercoms` is the number of the labels SERCOMn.
abbrev pub slow_id_of : Pack → ℕ → Bool → Module → ℕ
slow_id_of p sercoms mac (sercom n) = if ltb n sercoms then p.slow_id (sercom n) else 0
slow_id_of p sercoms mac gmac = if mac then p.core_id gmac else 0
slow_id_of p sercoms mac m = 0

pub get_peripheral_slowclockid : Pack → Family → Module → ℕ
get_peripheral_slowclockid p same54 m = slow_id_of p 8 true m
get_peripheral_slowclockid p same53 m = slow_id_of p 6 true m
get_peripheral_slowclockid p samd51 m = slow_id_of p 6 false m
get_peripheral_slowclockid p samc20 m = slow_id_of p 4 false m

-- A register PCHCTRL.
pub record Channel : Type 0 where
  pub gen : ℕ
  pub is_enabled : Bool
  pub is_locked : Bool

-- MCLK and GCLK.
pub record Clocks : Type 0 where
  pub bus_mask : Bus → ℕ → Bool
  pub generator : ℕ → Bool
  pub pchctrl : ℕ → Channel

abbrev same_bus : Bus → Bus → Bool
same_bus ahb ahb = true
same_bus apb_a apb_a = true
same_bus apb_b apb_b = true
same_bus apb_c apb_c = true
same_bus apb_d apb_d = true
same_bus _ _ = false

-- `MCLK->xMASK.reg |= mask`, which an unknown bus does not get to.
abbrev pub or_mask : Bus → (ℕ → Bool) → Clocks → Clocks
or_mask bus mask c = record c { bus_mask = λ b j. c.bus_mask b j || same_bus bus b && mask j }

pub enable_peripheral_clock : Pack → Family → Module → Clocks → Clocks
unfolding get_peripheral_mask get_peripheral_bus
enable_peripheral_clock p f m c = or_mask (get_peripheral_bus p f m) (get_peripheral_mask p f m) c

abbrev at {ℓ} : {A : Type ℓ} → (ℕ → A) → ℕ → A → ℕ → A
at f i v j = if j == i then v else f j

-- GEN, CHEN and WRTLOCK of `source | GCLK_PCHCTRL_CHEN`.
abbrev pub whole_register : ℕ → Channel
whole_register source = record {
  gen = source % 16;
  is_enabled = true;
  is_locked = source / 128 % 2 == 1;
}

abbrev pub connect_c20 : ℕ → ℕ → Clocks → Clocks
connect_c20 channel source c =
    if ltb source 9
    then (if ltb channel 41
        then record c {
          generator = at c.generator source true;
          pchctrl =
              at c.pchctrl channel (record (c.pchctrl channel) { gen = source; is_enabled = true });
        }
        else record c { generator = at c.generator source true })
    else c

abbrev pub connect : Family → ℕ → ℕ → Clocks → Clocks
connect samc20 channel source c = connect_c20 channel source c
connect family channel source c = record c {
  pchctrl = at c.pchctrl channel (whole_register source);
}

pub enable_gclk_channel : Pack → Family → Module → ℕ → Clocks → Clocks
unfolding get_peripheral_clockid
enable_gclk_channel p f m source c = connect f (get_peripheral_clockid p f m) source c

pub enable_glck_slow_channel : Pack → Family → Module → ℕ → Clocks → Clocks
unfolding get_peripheral_slowclockid
enable_glck_slow_channel p f m source c = connect f (get_peripheral_slowclockid p f m) source c
