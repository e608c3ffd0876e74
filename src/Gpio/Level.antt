-- ===== src/Gpio/Level.antt =====
-- Levels that are written and read.
use samlibs.Base.{
  ℕ, ◌≡◌, ◌≢◌, refl, ap, ◌∙◌, Bool, true, false, List, [], ◌∷◌, if◌then◌else◌, ==-ne, Result, ok,
  ◌>>=◌, >>=-ok, All,
}
use samlibs.Gpio.{
  Decoding, Direction, Ports, gpio_none, group_of, pin_of, is_there, set_pin_direction,
  set_pin_level, get_pin_level, get_pin_level_fast,
}
use samlibs.Gpio.Refinement.{Pin, pin, Request, perform, promised, same_pin, perform-Refines}

-- Requests that are made one after another, each with the number of its pin.
pub perform_all : Decoding → List (ℕ × Request) → Ports → Result Ports
perform_all d [] p = ok p
perform_all d ((gpio, r) ∷ rs) p = do p1 ← perform d gpio r p; perform_all d rs p1

-- A request for a pin that the device has, other than `gpio`.
abbrev pub IsElsewhere : Decoding → ℕ → ℕ × Request → Type 0
IsElsewhere d gpio r = (r.0 ≢ gpio_none) × (is_there d r.0 ≡ true) × (same_pin d gpio r.0 ≡ false)

-- What `samgpio_getPinLevel` reads off the pin.
get_pin_level-eq :
    (d : Decoding) (gpio : ℕ) (p : Ports)
    → gpio ≢ gpio_none
    → is_there d gpio ≡ true
    → get_pin_level d gpio p
      ≡ ok (
          if (pin d gpio p).buffered
          then p.level (group_of d gpio) (pin_of d gpio)
          else (pin d gpio p).driven)
unfolding get_pin_level get_pin_level_fast
get_pin_level-eq d gpio p h t = rw (==-ne gpio gpio_none h, t) refl

perform_all_elsewhere :
    (d : Decoding) (gpio : ℕ) (rs : List (ℕ × Request)) (p : Ports)
    → All (IsElsewhere d gpio) rs
    → (p' : Ports) × (perform_all d rs p ≡ ok p') × (pin d gpio p' ≡ pin d gpio p)
unfolding perform_all
perform_all_elsewhere d gpio [] p h = (p, refl, refl)
perform_all_elsewhere d gpio ((other, r) ∷ rs) p ((n, t, s), h) =
    let (p1, e1, f1) = perform-Refines d other r p n t in
    let (p2, e2, f2) = perform_all_elsewhere d gpio rs p1 h in
    (p2, >>=-ok _ e1 ∙ e2, f2 ∙ f1.others gpio s)

-- A pin that was made an output and was written reads as it was written, whatever is done to other
-- pins in between.
pub get_pin_level-set_pin_level :
    (d : Decoding) (gpio : ℕ) (b : Bool) (rs : List (ℕ × Request)) (p : Ports)
    → gpio ≢ gpio_none
    → is_there d gpio ≡ true
    → All (IsElsewhere d gpio) rs
    → (do
      p1 ← set_pin_direction d gpio Direction.output p
      p2 ← set_pin_level d gpio b p1
      p3 ← perform_all d rs p2
      get_pin_level d gpio p3)
      ≡ ok b
get_pin_level-set_pin_level d gpio b rs p n t h =
    let (p1, e1, f1) = perform-Refines d gpio (Request.direction Direction.output) p n t in
    let (p2, e2, f2) = perform-Refines d gpio (Request.level b) p1 n t in
    let (p3, e3, f3) = perform_all_elsewhere d gpio rs p2 h in
    let same : pin d gpio p3
        ≡ promised d (Request.level b)
            (promised d (Request.direction Direction.output) (pin d gpio p)) =
      f3 ∙ f2.kept ∙ ap (promised d (Request.level b)) f1.kept in
    >>=-ok _ e1
    ∙ >>=-ok _ e2
    ∙ >>=-ok _ e3
    ∙ get_pin_level-eq d gpio p3 n t
    ∙ ap
        (λ (s : Pin).
          ok (if s.buffered then p3.level (group_of d gpio) (pin_of d gpio) else s.driven))
        same
