-- ===== src/Logic.antt =====
-- logic/ccl.c: the lookup tables of the configurable logic.
mod Steps
mod Tests
use samlibs.Base.{ℕ, ◌%◌, Bool, true, false, ◌==◌, ltb, if◌then◌else◌, Result, ok, ◌>>=◌}
use samlibs.Gpio.{Ports, gpio_none, set_pin_function}
use samlibs.Gpio.Pinmux.{Module}
use samlibs.System.Clocks.{Clocks}
use samlibs.Counters.{Device, clock_module}

-- `CCLConfig_t`. The numbers of the inputs and filters are those of the register's fields.
pub record CclConfig : Type 0 where
  pub in0pin : ℕ
  pub in1pin : ℕ
  pub in2pin : ℕ
  pub outpin : ℕ
  pub lut : ℕ
  pub truthtable : ℕ
  pub in0sel : ℕ
  pub in1sel : ℕ
  pub in2sel : ℕ
  pub filtersel : ℕ
  pub edgedetect : Bool

-- A register LUTCTRL.
pub record Lut : Type 0 where
  pub is_enabled : Bool
  pub truth : ℕ
  pub insel0 : ℕ
  pub insel1 : ℕ
  pub insel2 : ℕ
  pub filter : ℕ
  pub edge : Bool

pub record Ccl : Type 0 where
  pub is_enabled : Bool
  pub luts : ℕ → Lut
  pub clocks : Clocks
  pub ports : Ports

-- CCL_PINMUX of the SAMC20.
abbrev pub ccl_pinmux : ℕ
ccl_pinmux = 8

abbrev pub setup_pin : Device → ℕ → Ports → Result Ports
setup_pin d gpio p = if gpio == gpio_none then ok p else set_pin_function d.pins gpio ccl_pinmux p

pub setup_pins : Device → CclConfig → Ports → Result Ports
setup_pins d c p = do
  p0 ← setup_pin d c.in0pin p
  p1 ← setup_pin d c.in1pin p0
  p2 ← setup_pin d c.in2pin p1
  setup_pin d c.outpin p2

-- The writes to LUTCTRL, each cut to its field.
abbrev pub lut_of : CclConfig → Lut
lut_of c = record {
  is_enabled = true;
  truth = c.truthtable % 256;
  insel0 = c.in0sel % 16;
  insel1 = c.in1sel % 16;
  insel2 = c.in2sel % 16;
  filter = c.filtersel % 4;
  edge = c.edgedetect;
}

abbrev pub started : Device → CclConfig → Ccl → Ports → Ccl
started d c s ports = record {
  is_enabled = true;
  luts = λ n. if n == c.lut then lut_of c else s.luts n;
  clocks = clock_module d Module.ccl 0 s.clocks;
  ports = ports;
}

pub init : Device → CclConfig → Ccl → Result Ccl
unfolding setup_pins
init d c s =
    if ltb 3 c.lut then ok s else (do ports ← setup_pins d c s.ports; ok (started d c s ports))
