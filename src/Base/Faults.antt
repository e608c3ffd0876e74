-- ===== src/Base/Faults.antt =====
-- What C leaves undefined, a failed `configASSERT` and a loop that never ends, as values; and the
-- monad over them.
use Prim.Native.Nat.{ℕ, ◌<◌}
use mathlib.Core.Path.{◌≡◌, refl, ap}
use mathlib.Core.Logic.{◌⊎◌, inl, inr}
use mathlib.Core.List.{List, [], ◌∷◌, ◌++◌}
use mathlib.Core.Option.{Option, none, some}
use samlibs.Base.Lists.{length, get_elem?, get_or, set, get_elem?-eq-get_or}
use samlibs.Base.Tests.{ltb, if◌then◌else◌, lt→ltb}

pub data Fault : Type 0 where
  null_pointer out_of_range assert_failed hangs : Fault

pub data Result {ℓ} (A : Type ℓ) : Type ℓ where
  ok : A → Result A
  fault : Fault → Result A

infixl 5 ◌>>=◌
abbrev pub ◌>>=◌ {ℓ κ} : {A : Type ℓ} {B : Type κ} → Result A → (A → Result B) → Result B
ok a >>= f = f a
fault e >>= f = fault e

module _ {ℓ} {A : Type ℓ} where
  -- `*p`
  abbrev pub deref : Option A → Result A
  deref none = fault null_pointer
  deref (some a) = ok a

  abbrev pub in_range : Option A → Result A
  in_range none = fault out_of_range
  in_range (some a) = ok a

  -- `xs[i]`
  abbrev pub load : List A → ℕ → Result A
  load xs i = in_range (get_elem? xs i)

  -- `xs[i] = v`
  abbrev pub store : List A → ℕ → A → Result (List A)
  store xs i v = if ltb i (length xs) then ok (set xs i v) else fault out_of_range

  pub load_lem : (xs : List A) (i : ℕ) (d : A) → i < length xs → load xs i ≡ ok (get_or xs i d)
  load_lem xs i d h = rw (get_elem?-eq-get_or xs i d h)

  pub store_lem : (xs : List A) (i : ℕ) (v : A) → i < length xs → store xs i v ≡ ok (set xs i v)
  store_lem xs i v h = rw (lt→ltb i (length xs) h)

module _ {ℓ} {A : Type ℓ} where
  pub load-append :
      (before : List A) (b : A) (bs : List A) → load (before ++ (b ∷ bs)) (length before) ≡ ok b
  load-append [] b bs = refl
  load-append (x ∷ before) b bs = load-append before b bs

pub Result-cases {ℓ} :
    {A : Type ℓ} (r : Result A) → ((a : A) × (r ≡ ok a)) ⊎ ((g : Fault) × (r ≡ fault g))
Result-cases (ok a) = inl (a, refl)
Result-cases (fault g) = inr (g, refl)

module _ {ℓ} {A : Type ℓ} where
  pub ok-injective : {a b : A} → ok a ≡ ok b → a ≡ b
  ok-injective {a} p = ap (from_ok a) p
    where
      from_ok : A → Result A → A
      from_ok d (ok x) = x
      from_ok d (fault g) = d

pub >>=-ok {ℓ κ} :
    {A : Type ℓ} {B : Type κ} {m : Result A} {a : A} (f : A → Result B) → m ≡ ok a → (m >>= f) ≡ f a
>>=-ok f e = ap (λ k. k >>= f) e

-- A chain that succeeds has succeeded at each step.
pub >>=-inverse {ℓ κ} :
    {A : Type ℓ} {B : Type κ} (m : Result A) (f : A → Result B) (b : B)
    → (m >>= f) ≡ ok b
    → (a : A) × (m ≡ ok a) × (f a ≡ ok b)
>>=-inverse (ok a) f b h = (a, refl, h)
>>=-inverse (fault g) f b h = cc
