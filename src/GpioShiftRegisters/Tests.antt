-- ===== src/GpioShiftRegisters/Tests.antt =====
-- A test of the shift registers on pins.
use samlibs.Base.{
  ℕ, ◌+◌, ◌*◌, ◌==◌, ◌||◌, ◌≡◌, refl, [], ◌∷◌, ◌++◌, reverse, drop, Bool, true, some, ok, arith,
}
use samlibs.GpioShiftRegisters.{GpioShiftRegistersConfig, Action, push}
use samlibs.GpioShiftRegisters.Exchange.{arrived, bytes_clocked, push_lem}

abbrev config : GpioShiftRegistersConfig
config = record { gpio_clk = 1; gpio_mosi = 2; gpio_miso = 3; gpio_cs = 4; is_init = true }

-- The input is high at its second and ninth look: the bytes 64 and 128 arrive.
abbrev miso : ℕ → Bool
miso k = k == 1 || k == 8

two_arrived : arrived miso 0 2 ≡ 64 ∷ 128 ∷ []
two_arrived = refl

push_lem_example :
    push
      (some config)
      miso
      (some (5 ∷ 6 ∷ []))
      (some (0 ∷ 0 ∷ 9 ∷ []))
      2
      (record { looks = 0; log = [] })
    ≡ ok (
      true,
      some (reverse (arrived miso 0 2) ++ drop 2 (0 ∷ 0 ∷ 9 ∷ [])),
      record {
        looks = 0 + 8 * 2;
        log =
            []
            ++ (Action.clear_pin 4 ∷ Action.set_pin 4 ∷ bytes_clocked config (5 ∷ 6 ∷ []) 2
                ++ (Action.set_pin 4 ∷ Action.clear_pin 4 ∷ []));
      },
    )
push_lem_example =
    push_lem config miso (5 ∷ 6 ∷ []) (0 ∷ 0 ∷ 9 ∷ []) 2 0 [] refl (omega arith) (omega arith)
