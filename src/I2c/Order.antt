-- ===== src/I2c/Order.antt =====
-- The little-endian and the big-endian order in which the masters store what they receive.
use samlibs.Base.{
  ℕ, suc, ◌+◌, ◌-◌, ◌≤◌, ◌≡◌, refl, ap, ◌∙◌, List, [], ◌∷◌, ◌++◌, length, set, drop, fill,
  fill_down, fill_all, fill_down_all, reverse, Bool, true, false, arith,
}

-- The index of the `i`th byte of `size`; `true` is big-endian.
abbrev pub place : Bool → ℕ → ℕ → ℕ
place true size i = size - suc i
place false size i = i

-- The bytes `bs` at their places from the index `i`.
abbrev pub place_all : Bool → ℕ → List ℕ → ℕ → List ℕ → List ℕ
place_all be size m i [] = m
place_all be size m i (b ∷ bs) = place_all be size (set m (place be size i) b) (suc i) bs

abbrev pub ordered : Bool → List ℕ → List ℕ
ordered true bs = reverse bs
ordered false bs = bs

placed_up : (size i : ℕ) (m bs : List ℕ) → place_all false size m i bs ≡ fill m i bs
placed_up size i m [] = refl
placed_up size i m (b ∷ bs) = placed_up size (suc i) (set m i b) bs

placed_down :
    (size i : ℕ) (m bs : List ℕ)
    → i + length bs ≡ size
    → place_all true size m i bs ≡ fill_down m (length bs) bs
placed_down size i m [] h = refl
placed_down size i m (b ∷ bs) h =
    placed_down size (suc i) (set m (size - suc i) b) bs (omega arith)
    ∙ ap (λ n. fill_down (set m n b) (length bs) bs) {x = size - suc i} {y = length bs}
        (omega arith)

pub placed_all :
    (be : Bool) (size : ℕ) (m bs : List ℕ)
    → length bs ≡ size
    → size ≤ length m
    → place_all be size m 0 bs ≡ ordered be bs ++ drop size m
placed_all true size m bs h fits =
    placed_down size 0 m bs (omega arith)
    ∙ fill_down_all m bs (omega arith)
    ∙ ap (λ n. reverse bs ++ drop n m) h
placed_all false size m bs h fits =
    placed_up size 0 m bs ∙ fill_all m bs (omega arith) ∙ ap (λ n. bs ++ drop n m) h
