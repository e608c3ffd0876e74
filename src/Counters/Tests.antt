-- ===== src/Counters/Tests.antt =====
-- Tests of the timers.
use samlibs.Base.{◌+◌, ◌/◌, ◌%◌, ◌<◌, true, false, refl, ◌↔◌, ◌==◌}
use samlibs.Gpio.{Ports, PullMode}
use samlibs.Gpio.Pinmux.{Family, Module}
use samlibs.System.Eic.{Eic, get_gpio_eic_channel}
use samlibs.System.Events.{Evsys, EventConfig}
use samlibs.Counters.{Device, Board, Timer, CounterWidth, EventAction}
use samlibs.Counters.Capture.{CaptureConfig}
use samlibs.Counters.Capture.Pins.{Success, init_ppw_iff}

-- 32 pins in each of two groups.
abbrev device : Device
device = record {
  pack = record {
    mask = λ m j. j == 4;
    core_id = λ m. 30;
    slow_id = λ m. 3;
    num_sercoms = 8;
    num_timers = 8;
    has_gmac = true;
  };
  pins = record { port = λ g. g / 32; pin = λ g. g % 32; function_off = 255; groups = 2 };
  family = Family.same54;
  timers = 8;
}

abbrev timer : Timer
timer = record {
  is_enabled = false;
  mode = 0;
  normal_pwm = false;
  capten0 = false;
  capten1 = false;
  copen0 = false;
  copen1 = false;
  div256 = false;
  evact = EventAction.pwp;
  tcinv = false;
  tcei = false;
  cc = λ w n. 100 + n;
}

abbrev ports : Ports
ports = record {
  dir = λ g n. false;
  out = λ g n. false;
  level = λ g n. false;
  inen = λ g n. false;
  pullen = λ g n. false;
  pmuxen = λ g n. false;
  pmuxe = λ g n. 0;
  pmuxo = λ g n. 0;
}

abbrev eic : Eic
eic = record {
  enabled = false;
  is_single = false;
  slow_clock = false;
  pending = λ c. false;
  intenset = λ c. false;
  nvic = λ c. false;
  debouncen = λ c. false;
  event_output = λ c. false;
  config = λ c. 0;
  callback = λ c. false;
}

abbrev board : Board
board = record {
  clocks = record {
    bus_mask = λ b j. false;
    generator = λ n. false;
    pchctrl = λ i. record { gen = 0; is_enabled = false; is_locked = false };
  };
  ports = ports;
  eic = eic;
  evsys = record { evgen = λ n. 0; user_channel = λ n. 0 };
  timer = timer;
}

-- Timer 2 on pin PB05.
abbrev config : CaptureConfig
config = record {
  timer_module = Module.tc 2;
  gpio = 37;
  pull = PullMode.pull_up;
  clksource = 0;
  invert = false;
  counter_width = CounterWidth.count16;
  event_config = record {
    user = samlibs.System.Events.Module.tc 2;
    user_offset = 0;
    generator = samlibs.System.Events.Module.eic;
    generator_offset = 5;
    channel = 1;
  };
}

init_ppw_iff_example :
    Success device 8 config board ↔ (get_gpio_eic_channel device.pins 8 config.gpio < 8)
init_ppw_iff_example = init_ppw_iff device 8 config board refl refl refl
