-- ===== src/DebugInterface/Tests.antt =====
-- Tests of the debug interface.
use samlibs.Base.{ℕ, List, [], ◌∷◌, ◌++◌, ok, ◌≡◌, arith}
use samlibs.DebugInterface.{debug_putstring}
use samlibs.DebugInterface.Lines.{more, done, plain, sent_text}

-- "A\nB", and what is left in `buf` of a string that was longer.
sent_text_example :
    (out : List ℕ) × (debug_putstring ((65 ∷ 10 ∷ 66 ∷ []) ++ (0 ∷ 67 ∷ [])) [] ≡ ok out)
    × (plain out ≡ 65 ∷ 10 ∷ 66 ∷ [])
sent_text_example =
    sent_text (65 ∷ 10 ∷ 66 ∷ []) (67 ∷ [])
      (more (omega arith) (more (omega arith) (more (omega arith) done)))
