-- ===== src/Counters/Pwm/Once.antt =====
-- A timer is initialised once.
use samlibs.Base.{
  Bool, true, false, Result, ok, ◌>>=◌, ◌≡◌, Bool-cases, inl, inr, >>=-inverse, ok-injective, ap,
  sym,
}
use samlibs.Gpio.{Ports}
use samlibs.Counters.{Device, Board, output_pin}
use samlibs.Counters.Pwm.{PwmConfig, init_tc, start_tc}

enabled :
    (d : Device) (c : PwmConfig) (b b' : Board) (passed : Bool)
    → init_tc d c b ≡ ok (passed, b')
    → b'.timer.is_enabled ≡ true
unfolding init_tc
enabled d c b b' passed h = elim (Bool-cases b.timer.is_enabled) [
  | inl on ↦ ap (λ r. r.1.timer.is_enabled) (sym (ok-injective (rw (on) at h)))
  | inr off ↦ started (rw (off) at h)
]
  where
    p0 : Result Ports
    p0 = output_pin d c.timer_module c.gpio_wo0 b.ports

    rest : Ports → Result (Bool × Board)
    rest p = output_pin d c.timer_module c.gpio_wo1 p >>= (λ p1. ok (start_tc d c b p1))

    started : (p0 >>= rest) ≡ ok (passed, b') → b'.timer.is_enabled ≡ true
    started e =
        let (q0, e0, e1) = >>=-inverse p0 rest (passed, b') e in
        let (q1, e2, e3) =
          >>=-inverse (output_pin d c.timer_module c.gpio_wo1 q0) (λ p1. ok (start_tc d c b p1))
            (passed, b') e1 in
        ap (λ r. r.1.timer.is_enabled) (sym (ok-injective e3))

-- Once `xPwmInitTc` has returned, with pdPASS or without, the timer is enabled and a second call, of
-- any configuration, fails and changes nothing.
pub init_tc-again :
    (d : Device) (c c' : PwmConfig) (b b' : Board) (passed : Bool)
    → init_tc d c b ≡ ok (passed, b')
    → init_tc d c' b' ≡ ok (false, b')
unfolding init_tc
init_tc-again d c c' b b' passed h = rw (enabled d c b b' passed h)
