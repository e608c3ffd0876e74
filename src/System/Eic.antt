-- ===== src/System/Eic.antt =====
-- system/sameic.c: the external interrupts.
--
-- A register with a bit for each channel is a function of the channel, CONFIG one to the four bits of
-- a channel. The flags of INTFLAG are cleared by writing ones.
pub mod Handler
pub mod Config
use samlibs.Base.{
  ℕ, zero, suc, ◌+◌, ◌*◌, ◌%◌, Bool, true, false, not, ◌&&◌, ◌||◌, List, [], ◌∷◌, ◌++◌, Option,
  none, some, if◌then◌else◌, ltb, ◌==◌,
}
use samlibs.Gpio.{Decoding, pin_of}

abbrev pub eic_nmi : ℕ
eic_nmi = 16

-- `is_single` stands for EIC_SINGLECHANNELINTERRUPT, `callback c` for a callback of channel `c` that is not NULL.
pub record Eic : Type 0 where
  pub enabled : Bool
  pub is_single : Bool
  pub slow_clock : Bool
  pub pending : ℕ → Bool
  pub intenset : ℕ → Bool
  pub nvic : ℕ → Bool
  pub debouncen : ℕ → Bool
  pub event_output : ℕ → Bool
  pub config : ℕ → ℕ
  pub callback : ℕ → Bool

abbrev pub replace {ℓ} : {A : Type ℓ} → (ℕ → A) → ℕ → A → ℕ → A
replace f c v j = if j == c then v else f j

-- `eic_irq` and `eic_0_irq` are the numbers of the device's interrupt lines.
pub get_irqn : ℕ → ℕ → ℕ → Eic → ℕ
get_irqn eic_irq eic_0_irq channel e = if e.is_single then eic_irq else channel + eic_0_irq

-- A write to INTENSET or INTENCLR acts on the bits that are one.
pub enable_ext_irq : ℕ → ℕ → ℕ → Eic → Eic
unfolding get_irqn
enable_ext_irq eic_irq eic_0_irq channel e = record e {
  intenset = replace e.intenset channel true;
  nvic = replace e.nvic (get_irqn eic_irq eic_0_irq channel e) true;
}

pub disable_ext_irq : ℕ → ℕ → ℕ → Eic → Eic
unfolding get_irqn
disable_ext_irq eic_irq eic_0_irq channel e = record e {
  intenset = replace e.intenset channel false;
  nvic = replace e.nvic (get_irqn eic_irq eic_0_irq channel e) false;
}

-- A write to INTFLAG.
abbrev pub write_flags : (ℕ → Bool) → (ℕ → Bool) → ℕ → Bool
write_flags written pending j = pending j && not (written j)

-- `INTFLAG.reg |= 1 << channel` reads the flags and writes them back with the bit.
pub clear_irq : ℕ → (ℕ → Bool) → ℕ → Bool
clear_irq channel pending = write_flags (λ j. pending j || j == channel) pending

-- The four bits of a channel.
abbrev pub sense_bits : Bool → ℕ → ℕ
sense_bits filter sense = (if filter then 8 else 0) + sense % 8

-- CTRLA.ENABLE is taken back around the change. For the channels from 8 on the mask of the code is
-- shifted by 32 bits or more: `none`.
pub config_ext : ℕ → Bool → Bool → ℕ → Eic → Option Eic
config_ext channel debounce filter sense e =
    let e1 : Eic =
      if e.is_single
      then record e { slow_clock = e.slow_clock || debounce }
      else record e { debouncen = replace e.debouncen channel (e.debouncen channel || debounce) } in
    if ltb channel 8
    then some (record e1 { config = replace e1.config channel (sense_bits filter sense) })
    else none

-- `pa08` is the number of pin PA08, which is the non-maskable interrupt.
pub get_gpio_eic_channel : Decoding → ℕ → ℕ → ℕ
get_gpio_eic_channel d pa08 gpio = if gpio == pa08 then eic_nmi else pin_of d gpio % 16

-- EXTINTEO is assigned as a whole.
pub enable_event : ℕ → Eic → Eic
enable_event channel e = record e { event_output = λ j. j == channel }

pub disable_event : ℕ → Eic → Eic
disable_event channel e = record e { event_output = λ j. ltb j 16 && not (j == channel) }

pub set_callback : ℕ → Bool → Eic → Eic
set_callback channel cb e = record e { callback = replace e.callback channel cb }

-- The channels whose callback is called, and the flags.
abbrev pub Served : Type 0
Served = List ℕ × (ℕ → Bool)

abbrev pub serve_channel : (ℕ → Bool) → ℕ → Served → Served
serve_channel callback channel (called, pending) =
    if pending channel
    then ((if callback channel then called ++ channel ∷ [] else called), clear_irq channel pending)
    else (called, pending)

-- The loop of `EIC_Handler`, with `n` channels left.
pub handler_loop : (ℕ → Bool) → ℕ → ℕ → Served → Served
unfolding clear_irq
handler_loop callback zero channel s = s
handler_loop callback (suc n) channel s =
    handler_loop callback n (suc channel) (serve_channel callback channel s)

pub eic_handler : Eic → List ℕ × Eic
unfolding handler_loop
eic_handler e =
    let s : Served = handler_loop e.callback eic_nmi 0 ([], e.pending) in
    (s.0, record e { pending = s.1 })
