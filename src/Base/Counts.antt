-- ===== src/Base/Counts.antt =====
-- How often numbers stand in a list.
use Prim.Native.Nat.{ℕ, zero, suc, ◌+◌, ◌≤◌, ◌<◌}
use mathlib.Core.Path.{◌≡◌, refl, sym, ap, ◌∙◌}
use mathlib.Core.Bool.{Bool, true, false}
use mathlib.Core.List.{List, [], ◌∷◌, ◌++◌}
use native.Mathlib.Decide.{dec_lt}
use native.Mathlib.Omega.{arith}
use samlibs.Base.Lists.{length, All}
use samlibs.Base.Tests.{ltb, ◌==◌}

abbrev pub one_if : Bool → ℕ
one_if true = 1
one_if false = 0

-- How often a number stands in a list.
abbrev pub count : ℕ → List ℕ → ℕ
count a [] = 0
count a (b ∷ bs) = one_if (a == b) + count a bs

pub count-snoc : (l : List ℕ) (x a : ℕ) → count a (l ++ x ∷ []) ≡ one_if (a == x) + count a l
count-snoc [] x a = refl
count-snoc (b ∷ l) x a = omega (arith, count-snoc l x a)

-- The sum of `f` below `n`.
abbrev pub total : ℕ → (ℕ → ℕ) → ℕ
total zero f = 0
total (suc n) f = f n + total n f

total-zero : (n : ℕ) → total n (λ a. 0) ≡ 0
total-zero zero = refl
total-zero (suc n) = omega (arith, total-zero n)

total-one_if :
    (n x : ℕ) (f : ℕ → ℕ) → total n (λ a. one_if (a == x) + f a) ≡ total n f + one_if (ltb x n)
total-one_if zero x f = ground arith
total-one_if (suc n) x f = ground (arith, total-one_if n x f)

-- Numbers below `n` are counted below `n`.
pub length-total :
    (n : ℕ) (xs : List ℕ) → All (λ x. x < n) xs → length xs ≡ total n (λ a. count a xs)
length-total n [] h = sym (total-zero n)
length-total n (x ∷ xs) (h, hs) =
    ground (arith, length-total n xs hs, total-one_if n x (λ a. count a xs))

pub total_le : (n : ℕ) (f : ℕ → ℕ) → ((a : ℕ) → f a ≤ 1) → total n f ≤ n
total_le zero f h = omega arith
total_le (suc n) f h = let here : f n ≤ 1 = h n in omega (arith, total_le n f h)

-- Pigeonholes.
pub total_lt : (n : ℕ) (f : ℕ → ℕ) (x : ℕ) → ((a : ℕ) → f a ≤ 1) → f x ≡ 0 → x < n → total n f < n
total_lt zero f x h e lt = absurd (omega arith)
total_lt (suc n) f x h e lt = elim (dec_lt x n) [
  | yes below ↦ let here : f n ≤ 1 = h n in omega (arith, total_lt n f x h e below)
  | no above ↦
      let q : x ≡ n = omega arith in
      let here : f n ≡ 0 = ap f (sym q) ∙ e in omega (arith, total_le n f h)
]
