-- ===== src/Utilities/Reset.antt =====
-- The causes of a reset in utilities.c.
use samlibs.Base.{Bool, ◌||◌, Option, none, some, if◌then◌else◌, ◌≡◌, arith, is_some}

-- `utils_rcause`.
pub record ResetCause : Type 0 where
  pub syst : Bool
  pub wdt : Bool
  pub por : Bool
  pub ext : Bool
  pub bod12 : Bool
  pub bod33 : Bool

-- The names that `utils_DebugPrintResetCause` prints.
pub data CauseName : Type 0 where
  sys_rst wdt_rst por_rst ext_rst bo1v2 bo3v3 : CauseName

-- `str_cause`, which is NULL when no cause is set.
pub cause_name : ResetCause → Option CauseName
cause_name c =
    if c.syst
    then some sys_rst
    else (if c.wdt
        then some wdt_rst
        else (if c.por
            then some por_rst
            else (if c.ext
                then some ext_rst
                else (if c.bod12 then some bo1v2 else (if c.bod33 then some bo3v3 else none)))))

pub is_system_reset : ResetCause → Bool
is_system_reset c = c.syst

pub is_external_reset_type : ResetCause → Bool
is_external_reset_type c = c.bod12 || (c.bod33 || (c.ext || c.por))

pub is_watch_dog_timer_reset : ResetCause → Bool
is_watch_dog_timer_reset c = c.wdt

-- A name is printed exactly when one of the three tests on the cause holds.
cause_name_lem :
    (c : ResetCause)
    → is_some (cause_name c)
      ≡ (is_system_reset c || (is_watch_dog_timer_reset c || is_external_reset_type c))
unfolding cause_name is_system_reset is_external_reset_type is_watch_dog_timer_reset
cause_name_lem c = ground arith
