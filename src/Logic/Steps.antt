-- ===== src/Logic/Steps.antt =====
-- Every table keeps the configuration that it was given last.
use samlibs.Base.{
  ℕ, ◌==◌, ltb, if◌then◌else◌, Result, ok, ◌>>=◌, ◌≡◌, List, [], ◌∷◌, ap, sym, >>=-inverse,
  ok-injective, Bool-cases, inl, inr,
}
use samlibs.Counters.{Device}
use samlibs.Logic.{CclConfig, Ccl, Lut, init, setup_pins, lut_of, started}

-- The calls of `vCCLInit` in their order.
unfoldable pub init_all : Device → List CclConfig → Ccl → Result Ccl
unfolding init setup_pins
init_all d [] s = ok s
init_all d (c ∷ cs) s = do s1 ← init d c s; init_all d cs s1

-- What table `n` holds by the configurations alone.
pub last_of : ℕ → List CclConfig → Lut → Lut
last_of n [] l = l
last_of n (c ∷ cs) l =
    last_of n cs (if ltb 3 c.lut then l else (if n == c.lut then lut_of c else l))

init_table :
    (d : Device) (c : CclConfig) (s s' : Ccl) (n : ℕ)
    → init d c s ≡ ok s'
    → s'.luts n ≡ (if ltb 3 c.lut then s.luts n else (if n == c.lut then lut_of c else s.luts n))
unfolding init
init_table d c s s' n h = elim (Bool-cases (ltb 3 c.lut)) [
  | inl above ↦ rw (above) (ap (λ x. x.luts n) (sym (ok-injective (rw (above) at h))))
  | inr table ↦ rw (table) (written (rw (table) at h))
]
  where
    written :
        (setup_pins d c s.ports >>= (λ p. ok (started d c s p))) ≡ ok s'
        → s'.luts n ≡ (if n == c.lut then lut_of c else s.luts n)
    written e =
        let (p, e0, e1) = >>=-inverse (setup_pins d c s.ports) (λ p. ok (started d c s p)) s' e in
        ap (λ x. x.luts n) (sym (ok-injective e1))

pub init_all_lem :
    (d : Device) (cs : List CclConfig) (s s' : Ccl) (n : ℕ)
    → init_all d cs s ≡ ok s'
    → s'.luts n ≡ last_of n cs (s.luts n)
unfolding init_all last_of
init_all_lem d [] s s' n h = ap (λ x. x.luts n) (sym (ok-injective h))
init_all_lem d (c ∷ cs) s s' n h =
    let (s1, e0, e1) = >>=-inverse (init d c s) (λ x. init_all d cs x) s' h in
    rw (sym (init_table d c s s1 n e0)) (init_all_lem d cs s1 s' n e1)
