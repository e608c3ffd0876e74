-- ===== src/Logic/Tests.antt =====
-- Tests of the configurable logic.
use samlibs.Base.{ℕ, ◌/◌, ◌%◌, false, true, ◌≡◌, refl, ◌∷◌, [], ◌==◌, List}
use samlibs.Gpio.{gpio_none}
use samlibs.Gpio.Pinmux.{Family}
use samlibs.Counters.{Device}
use samlibs.Logic.{CclConfig, Ccl, Lut, init, setup_pins, started}
use samlibs.Logic.Steps.{init_all, last_of, init_all_lem}

abbrev device : Device
device = record {
  pack = record {
    mask = λ m j. j == 2;
    core_id = λ m. 38;
    slow_id = λ m. 18;
    num_sercoms = 4;
    num_timers = 5;
    has_gmac = false;
  };
  pins = record { port = λ g. g / 32; pin = λ g. g % 32; function_off = 255; groups = 2 };
  family = Family.samc20;
  timers = 5;
}

abbrev empty : Lut
empty = record {
  is_enabled = false;
  truth = 0;
  insel0 = 0;
  insel1 = 0;
  insel2 = 0;
  filter = 0;
  edge = false;
}

abbrev off : Ccl
off = record {
  is_enabled = false;
  luts = λ n. empty;
  clocks = record {
    bus_mask = λ b j. false;
    generator = λ n. false;
    pchctrl = λ i. record { gen = 0; is_enabled = false; is_locked = false };
  };
  ports = record {
    dir = λ g n. false;
    out = λ g n. false;
    level = λ g n. false;
    inen = λ g n. false;
    pullen = λ g n. false;
    pmuxen = λ g n. false;
    pmuxe = λ g n. 0;
    pmuxo = λ g n. 0;
  };
}

-- Without pins.
abbrev config : ℕ → ℕ → CclConfig
config lut truthtable = record {
  in0pin = gpio_none;
  in1pin = gpio_none;
  in2pin = gpio_none;
  outpin = gpio_none;
  lut = lut;
  truthtable = truthtable;
  in0sel = 4;
  in1sel = 4;
  in2sel = 0;
  filtersel = 0;
  edgedetect = true;
}

-- Table 2 is given two configurations, a table 7 does not exist.
abbrev configs : List CclConfig
configs = config 2 0x88 ∷ config 7 0xFF ∷ config 2 0x66 ∷ []

abbrev after : Ccl
after = started device (config 2 0x66) (started device (config 2 0x88) off off.ports) off.ports

init_all_lem_example : after.luts 2 ≡ last_of 2 configs empty
unfolding init init_all setup_pins
init_all_lem_example = init_all_lem device configs off after 2 refl
