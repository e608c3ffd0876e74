-- ===== src/At24mac/Tests.antt =====
-- Tests of the EEPROM.
use samlibs.Base.{ℕ, ◌+◌, List, [], ◌∷◌, false}
use samlibs.I2c.Polled.{Answer, Wire, I2cConfig}

abbrev wire : Wire
wire = record { answer_at = λ k. Answer.ready false; data_at = λ r. 100 + r }

abbrev config : I2cConfig
config = record { baudrate = 100000; pin_sda = 8; pin_scl = 9; pinmux = 2 }

abbrev mac : List ℕ
mac = 0 ∷ 0 ∷ 0 ∷ 0 ∷ 0 ∷ 0 ∷ []
