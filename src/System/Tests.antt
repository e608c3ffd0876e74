-- ===== src/System/Tests.antt =====
-- Tests of the modules of system.
use samlibs.Base.{ℕ, ◌<◌, ◌≡◌, refl, true, false, ◌||◌, [], ◌∷◌, if◌then◌else◌, ◌==◌, arith}
use samlibs.System.Eic.{Eic, eic_handler}
use samlibs.System.Eic.Handler.{eic_handler_lem}

-- The channels 3 and 5 wait; both have callbacks.
abbrev eic : Eic
eic = record {
  enabled = true;
  is_single = true;
  slow_clock = false;
  pending = λ c. c == 3 || c == 5;
  intenset = λ c. true;
  nvic = λ c. true;
  debouncen = λ c. false;
  event_output = λ c. false;
  config = λ c. 0;
  callback = λ c. true;
}

earlier : (j : ℕ) → j < 3 → eic.pending j ≡ false
earlier j h = ground arith

eic_handler_lem_example :
    ((eic_handler eic).0 ≡ (if true then 3 ∷ [] else []))
    × ((j : ℕ) → (eic_handler eic).1.pending j ≡ false)
eic_handler_lem_example = eic_handler_lem eic 3 (omega arith) refl earlier
