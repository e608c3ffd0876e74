-- ===== src/System/Clocks/Tests.antt =====
-- Tests of the clocks.
use samlibs.Base.{ℕ, ◌+◌, true, false, ◌∷◌, [], ◌≡◌, refl, ◌==◌}
use samlibs.Gpio.Pinmux.{Family, Module}
use samlibs.System.Clocks.{
  Pack, Bus, Clocks, get_peripheral_bus, get_peripheral_clockid, get_peripheral_slowclockid,
  enable_gclk_channel,
}
use samlibs.System.Clocks.Enabled.{Request, IsClocked, serve_all, module-IsClocked}

-- The numbers of a device with eight SERCOMs and timers.
abbrev ids : Module → ℕ
ids (Module.sercom n) = 10 + n
ids (Module.tc n) = 20 + n
ids m = 30

abbrev pack : Pack
pack = record {
  mask = λ m j. j == 4;
  core_id = ids;
  slow_id = λ m. 3;
  num_sercoms = 8;
  num_timers = 8;
  has_gmac = true;
}

abbrev off : Clocks
off = record {
  bus_mask = λ b j. false;
  generator = λ n. false;
  pchctrl = λ i. record { gen = 0; is_enabled = false; is_locked = false };
}

module-IsClocked_example : IsClocked Bus.apb_b 4 13 (
    serve_all pack Family.same54
      (Request.peripheral (Module.sercom 3)
        ∷ Request.gclk (Module.sercom 3) 2
        ∷ Request.peripheral (Module.tc 5)
        ∷ Request.gclk (Module.tc 5) 0
        ∷ [])
      off)
unfolding get_peripheral_bus get_peripheral_clockid
module-IsClocked_example =
    module-IsClocked pack Family.same54 (Module.sercom 3) 2 4 off
      (Request.peripheral (Module.tc 5) ∷ Request.gclk (Module.tc 5) 0 ∷ []) refl refl refl

-- The CCL is in no table of the SAMx5x: its generator is connected to channel 0.
unknown_module : ((enable_gclk_channel pack Family.same54 Module.ccl 5 off).pchctrl 0).gen ≡ 5
unfolding enable_gclk_channel get_peripheral_clockid get_peripheral_bus
unknown_module = refl

slow_channel : get_peripheral_slowclockid pack Family.samd51 (Module.sercom 6) ≡ 0
unfolding get_peripheral_slowclockid
slow_channel = refl
