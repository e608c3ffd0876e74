-- ===== src/Ethernet/Mac/Station.antt =====
-- samx5xmac.c: the address of the station.
use samlibs.Base.{
  ℕ, ◌*◌, ◌+◌, ◌^◌, ◌≤◌, ◌≡◌, ◌↔◌, ap, List, [], ◌∷◌, if◌then◌else◌, ◌==◌, Result, ok, ok-injective,
  ◌>>=◌, load, arith,
}

-- C's `||`: 1 or 0.
abbrev pub or_c : ℕ → ℕ → ℕ
or_c a b = if a == 0 then (if b == 0 then 0 else 1) else 1

-- SAB and SAT of the first specific address.
pub set_mac_address : List ℕ → Result (ℕ × ℕ)
set_mac_address mac = do
  a0 ← load mac 0
  a1 ← load mac 1
  a2 ← load mac 2
  a3 ← load mac 3
  a4 ← load mac 4
  a5 ← load mac 5
  ok (or_c (or_c (or_c a0 (a1 * 2 ^ 8)) (a2 * 2 ^ 16)) (a3 * 2 ^ 24), or_c a4 (a5 * 2 ^ 8))

-- What the two registers hold for an address, least significant byte first.
abbrev pub bottom_and_top : ℕ → ℕ → ℕ → ℕ → ℕ → ℕ → ℕ × ℕ
bottom_and_top a0 a1 a2 a3 a4 a5 = (a0 + a1 * 2 ^ 8 + a2 * 2 ^ 16 + a3 * 2 ^ 24, a4 + a5 * 2 ^ 8)

or_c_le : (a b : ℕ) → or_c a b ≤ 1
or_c_le a b = ground arith

or_c_eq : (a b : ℕ) → a + b ≤ 1 → or_c a b ≡ a + b
or_c_eq a b h = ground arith

-- The registers hold the address exactly when all its bytes but the first and the fifth are zero
-- and those two are at most one.
pub set_mac_address_iff :
    (a0 a1 a2 a3 a4 a5 : ℕ)
    → (set_mac_address (a0 ∷ a1 ∷ a2 ∷ a3 ∷ a4 ∷ a5 ∷ []) ≡ ok (bottom_and_top a0 a1 a2 a3 a4 a5))
      ↔ ((a0 ≤ 1) × (a1 ≡ 0) × (a2 ≡ 0) × (a3 ≡ 0) × (a4 ≤ 1) × (a5 ≡ 0))
unfolding set_mac_address
set_mac_address_iff a0 a1 a2 a3 a4 a5 = (forth, back)
  where
    bottom : ℕ
    bottom = or_c (or_c (or_c a0 (a1 * 2 ^ 8)) (a2 * 2 ^ 16)) (a3 * 2 ^ 24)

    top : ℕ
    top = or_c a4 (a5 * 2 ^ 8)

    forth :
        ok (bottom, top) ≡ ok (bottom_and_top a0 a1 a2 a3 a4 a5)
        → (a0 ≤ 1) × (a1 ≡ 0) × (a2 ≡ 0) × (a3 ≡ 0) × (a4 ≤ 1) × (a5 ≡ 0)
    forth e =
        let e1 : bottom ≡ (bottom_and_top a0 a1 a2 a3 a4 a5).0 =
          ap (λ (p : ℕ × ℕ). p.0) (ok-injective e) in
        let e2 : top ≡ (bottom_and_top a0 a1 a2 a3 a4 a5).1 =
          ap (λ (p : ℕ × ℕ). p.1) (ok-injective e) in
        let l1 : bottom ≤ 1 = or_c_le (or_c (or_c a0 (a1 * 2 ^ 8)) (a2 * 2 ^ 16)) (a3 * 2 ^ 24) in
        let l2 : top ≤ 1 = or_c_le a4 (a5 * 2 ^ 8) in omega arith

    back :
        (a0 ≤ 1) × (a1 ≡ 0) × (a2 ≡ 0) × (a3 ≡ 0) × (a4 ≤ 1) × (a5 ≡ 0)
        → ok (bottom, top) ≡ ok (bottom_and_top a0 a1 a2 a3 a4 a5)
    back h = ground arith
