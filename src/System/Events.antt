-- ===== src/System/Events.antt =====
-- system/samevent.c: the event system of the SAME5x.
use samlibs.Base.{ℕ, ◌+◌, ◌*◌, ◌%◌, ◌^◌, Bool, true, false, ◌&&◌, if◌then◌else◌, ltb, ◌==◌}

-- The modules of the two tables; a timer has its number.
pub data Module : Type 0 where
  eic dmac pac pdec ac dac gmac trng ccl rtc port : Module
  tcc tc adc : ℕ → Module
  other : Module

abbrev pub channel_max : ℕ
channel_max = 32

abbrev pub users_max : ℕ
users_max = 67

abbrev pub or_default : Bool → ℕ → ℕ → ℕ
or_default present default value = if present then value else default

abbrev pub tcc_generator : ℕ → ℕ
tcc_generator n =
    if n == 0
    then 0x29
    else (if n == 1 then 0x32 else (if n == 2 then 0x39 else (if n == 3 then 0x3F else 0x44)))

abbrev pub tcc_user : ℕ → ℕ
tcc_user n =
    if n == 0
    then 17
    else (if n == 1 then 25 else (if n == 2 then 31 else (if n == 3 then 36 else 40)))

-- `timers` is the number of TC modules of the device.
pub get_generator_from_module : ℕ → Module → ℕ
get_generator_from_module timers eic = 0x12
get_generator_from_module timers dmac = 0x22
get_generator_from_module timers pac = 0x26
get_generator_from_module timers (tcc n) = or_default (ltb n 5) 0 (tcc_generator n)
get_generator_from_module timers (tc n) = or_default (ltb n timers) 0 (0x49 + 3 * n)
get_generator_from_module timers pdec = 0x61
get_generator_from_module timers (adc n) = or_default (ltb n 2) 0 (0x67 + 2 * n)
get_generator_from_module timers ac = 0x6B
get_generator_from_module timers dac = 0x6E
get_generator_from_module timers gmac = 0x72
get_generator_from_module timers trng = 0x73
get_generator_from_module timers ccl = 0x74
get_generator_from_module timers rtc = 0
get_generator_from_module timers port = 0
get_generator_from_module timers other = 0

-- The literals of the source with a leading zero are octal.
pub get_user_from_module : ℕ → Module → ℕ
get_user_from_module timers rtc = 0
get_user_from_module timers port = 1
get_user_from_module timers dmac = 5
get_user_from_module timers (tcc n) = or_default (ltb n 5) users_max (tcc_user n)
get_user_from_module timers (tc n) = or_default (ltb n timers) users_max (44 + n)
get_user_from_module timers pdec = 52
get_user_from_module timers (adc n) = or_default (ltb n 2) users_max (55 + 2 * n)
get_user_from_module timers ac = 59
get_user_from_module timers dac = 61
get_user_from_module timers ccl = 63
get_user_from_module timers eic = users_max
get_user_from_module timers pac = users_max
get_user_from_module timers gmac = users_max
get_user_from_module timers trng = users_max
get_user_from_module timers other = users_max

-- `EventConfig_t`
pub record EventConfig : Type 0 where
  pub user : Module
  pub user_offset : ℕ
  pub generator : Module
  pub generator_offset : ℕ
  pub channel : ℕ

-- EVGEN of a channel and CHANNEL of a user.
pub record Evsys : Type 0 where
  pub evgen : ℕ → ℕ
  pub user_channel : ℕ → ℕ

abbrev pub assign : (ℕ → ℕ) → ℕ → ℕ → ℕ → ℕ
assign f i v j = if j == i then v else f j

-- EVGEN has seven bits.
pub event_init : ℕ → EventConfig → Evsys → Bool × Evsys
unfolding get_user_from_module get_generator_from_module
event_init timers c e =
    let user : ℕ = (get_user_from_module timers c.user + c.user_offset) % 2 ^ 8 in
    if ltb c.channel channel_max && ltb user users_max
    then (
      true,
      record {
        evgen =
            assign e.evgen c.channel
              ((get_generator_from_module timers c.generator + c.generator_offset) % 2 ^ 7);
        user_channel = assign e.user_channel user (c.channel + 1);
      },
    )
    else (false, e)
