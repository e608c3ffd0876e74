-- ===== src/Gpio/Refinement.antt =====
-- The operations on a pin, against a pin that stands alone.
use samlibs.Base.{
  ℕ, ◌/◌, ◌%◌, ◌≡◌, ◌≢◌, refl, Bool, true, false, ◌&&◌, if◌then◌else◌, ◌==◌, ==-ne, Result, ok,
  arith,
}
use samlibs.Gpio.{
  Decoding, Direction, PullMode, Ports, gpio_none, group_of, pin_of, is_there, set_pin_function,
  set_pin_direction, set_pin_level, set_pin_level_fast, set_pin_fast, clear_pin_fast,
  toggle_pin_level_fast, set_pin_pull_mode, write, select_function, direct, drive, pull, access,
  guarded,
}

-- What a pin is by itself.
pub record Pin : Type 0 where
  pub is_output : Bool
  pub driven : Bool
  pub buffered : Bool
  pub pulled : Bool
  pub muxed : Bool
  pub function : ℕ

abbrev pub pin : Decoding → ℕ → Ports → Pin
pin d gpio p =
    let g : ℕ = group_of d gpio in
    let n : ℕ = pin_of d gpio in
    record {
      is_output = p.dir g n;
      driven = p.out g n;
      buffered = p.inen g n;
      pulled = p.pullen g n;
      muxed = p.pmuxen g n;
      function = if n % 2 == 1 then p.pmuxo g (n / 2) else p.pmuxe g (n / 2);
    }

-- The functions that change a pin, with their arguments.
pub data Request : Type 0 where
  function : ℕ → Request
  direction : Direction → Request
  level level_fast : Bool → Request
  set_fast clear_fast toggle_fast : Request
  pull_mode : PullMode → Request

abbrev pub perform : Decoding → ℕ → Request → Ports → Result Ports
perform d gpio (function f) p = set_pin_function d gpio f p
perform d gpio (direction r) p = set_pin_direction d gpio r p
perform d gpio (level b) p = set_pin_level d gpio b p
perform d gpio (level_fast b) p = set_pin_level_fast d gpio b p
perform d gpio set_fast p = set_pin_fast d gpio p
perform d gpio clear_fast p = clear_pin_fast d gpio p
perform d gpio toggle_fast p = toggle_pin_level_fast d gpio p
perform d gpio (pull_mode m) p = set_pin_pull_mode d gpio m p

-- What each of them promises.
abbrev pub promised : Decoding → Request → Pin → Pin
promised d (function f) s =
    if f == d.function_off
    then record s { muxed = false }
    else record s { muxed = true; function = f % 16 }
promised d (direction Direction.off) s = record s {
  is_output = false;
  buffered = false;
  pulled = false;
}
promised d (direction Direction.input) s = record s { is_output = false; buffered = true }
promised d (direction Direction.output) s = record s { is_output = true; buffered = false }
promised d (direction Direction.unsupported) s = s
promised d (level b) s = record s { driven = b }
promised d (level_fast b) s = record s { driven = b }
promised d set_fast s = record s { driven = true }
promised d clear_fast s = record s { driven = false }
promised d toggle_fast s = record s { driven = if s.driven then false else true }
promised d (pull_mode PullMode.pull_off) s = record s { pulled = false }
promised d (pull_mode PullMode.pull_up) s = record s { pulled = true; driven = true }
promised d (pull_mode PullMode.pull_down) s = record s { pulled = true; driven = false }
promised d (pull_mode PullMode.pull_unsupported) s = s

abbrev pub same_pin : Decoding → ℕ → ℕ → Bool
same_pin d a b = group_of d a == group_of d b && pin_of d a == pin_of d b

-- The pin is as promised, and every other is as before.
pub record Refines (d : Decoding) (gpio : ℕ) (r : Request) (p p' : Ports) : Type 0 where
  pub kept : pin d gpio p' ≡ promised d r (pin d gpio p)
  pub others : (other : ℕ) → same_pin d other gpio ≡ false → pin d other p' ≡ pin d other p
  pub inputs : p'.level ≡ p.level

abbrev after : Decoding → ℕ → Request → Ports → Ports
after d gpio (function f) p =
    if f == d.function_off
    then record p { pmuxen = write p.pmuxen (group_of d gpio) (pin_of d gpio) false }
    else select_function (group_of d gpio) (pin_of d gpio) f p
after d gpio (direction r) p = direct (group_of d gpio) (pin_of d gpio) r p
after d gpio (level b) p = drive d gpio b p
after d gpio (level_fast b) p = drive d gpio b p
after d gpio set_fast p = drive d gpio true p
after d gpio clear_fast p = drive d gpio false p
after d gpio toggle_fast p =
    drive d gpio (if p.out (group_of d gpio) (pin_of d gpio) then false else true) p
after d gpio (pull_mode m) p = pull (group_of d gpio) (pin_of d gpio) m p

access_lem : (d : Decoding) (gpio : ℕ) (p : Ports) → is_there d gpio ≡ true → access d gpio p ≡ ok p
access_lem d gpio p t = rw t refl

guarded_lem :
    (d : Decoding) (gpio : ℕ) (p p' : Ports)
    → gpio ≢ gpio_none
    → is_there d gpio ≡ true
    → guarded d gpio p p' ≡ ok p'
guarded_lem d gpio p p' h t = rw (==-ne gpio gpio_none h, t) refl

perform-after :
    (d : Decoding) (gpio : ℕ) (r : Request) (p : Ports)
    → gpio ≢ gpio_none
    → is_there d gpio ≡ true
    → perform d gpio r p ≡ ok (after d gpio r p)
unfolding set_pin_function set_pin_direction set_pin_level set_pin_level_fast set_pin_fast
    clear_pin_fast toggle_pin_level_fast set_pin_pull_mode
perform-after d gpio (function f) p h t = guarded_lem d gpio p _ h t
perform-after d gpio (direction r) p h t = guarded_lem d gpio p _ h t
perform-after d gpio (level b) p h t = guarded_lem d gpio p _ h t
perform-after d gpio (level_fast b) p h t = access_lem d gpio _ t
perform-after d gpio set_fast p h t = access_lem d gpio _ t
perform-after d gpio clear_fast p h t = access_lem d gpio _ t
perform-after d gpio toggle_fast p h t = access_lem d gpio _ t
perform-after d gpio (pull_mode m) p h t = guarded_lem d gpio p _ h t

after_kept :
    (d : Decoding) (gpio : ℕ) (r : Request) (p : Ports)
    → pin d gpio (after d gpio r p) ≡ promised d r (pin d gpio p)
after_kept d gpio (level b) p = ground arith
after_kept d gpio (direction Direction.off) p = ground arith
after_kept d gpio (direction r) p = ground arith
after_kept d gpio (pull_mode PullMode.pull_off) p = ground arith
after_kept d gpio (pull_mode m) p = ground arith
after_kept d gpio r p = ground arith

after_others :
    (d : Decoding) (gpio : ℕ) (r : Request) (p : Ports) (other : ℕ)
    → same_pin d other gpio ≡ false
    → pin d other (after d gpio r p) ≡ pin d other p
after_others d gpio (level b) p other h = ground arith
after_others d gpio (direction Direction.off) p other h = ground arith
after_others d gpio (direction r) p other h = ground arith
after_others d gpio (pull_mode PullMode.pull_off) p other h = ground arith
after_others d gpio (pull_mode m) p other h = ground arith
after_others d gpio r p other h = ground arith

after_inputs :
    (d : Decoding) (gpio : ℕ) (r : Request) (p : Ports) → (after d gpio r p).level ≡ p.level
after_inputs d gpio (level b) p = refl
after_inputs d gpio (direction Direction.off) p = refl
after_inputs d gpio (direction r) p = refl
after_inputs d gpio (pull_mode PullMode.pull_off) p = refl
after_inputs d gpio (pull_mode m) p = refl
after_inputs d gpio r p = ground arith

-- Every operation on a pin that the device has succeeds, changes that pin as it promises, and
-- leaves every other pin and the input levels as they were.
pub perform-Refines :
    (d : Decoding) (gpio : ℕ) (r : Request) (p : Ports)
    → gpio ≢ gpio_none
    → is_there d gpio ≡ true
    → (p' : Ports) × (perform d gpio r p ≡ ok p') × Refines d gpio r p p'
perform-Refines d gpio r p h t = (
  after d gpio r p,
  perform-after d gpio r p h t,
  record {
    kept = after_kept d gpio r p;
    others = after_others d gpio r p;
    inputs = after_inputs d gpio r p;
  },
)
