-- ===== src/Ethernet/Tests/Kernel.antt =====
-- The pool with lists and semaphores that meet the laws of FreeRTOS.
use samlibs.Base.{
  ℕ, zero, suc, ◌≡◌, refl, sym, ap, ◌∙◌, Bool, true, false, List, [], ◌∷◌, ◌++◌, none, some,
  if◌then◌else◌, ltb, ◌==◌, ==-refl, count, arith,
}
use samlibs.Ethernet.Mac.Pool.{Kernel, Pool, network_buffers_initialise}
use samlibs.Ethernet.Mac.Pool.Invariant.{count_up}
use samlibs.Ethernet.Mac.Pool.Refinement.{Request, serve, spec_serve, serve-Refines}

abbrev remove_first : ℕ → List ℕ → List ℕ
remove_first x [] = []
remove_first x (y ∷ ys) = if x == y then ys else y ∷ remove_first x ys

abbrev head_or : List ℕ → ℕ
head_or [] = 0
head_or (x ∷ xs) = x

-- The value and the limit.
abbrev Counter : Type 0
Counter = ℕ × ℕ

abbrev down : ℕ → ℕ → Bool × Counter
down zero m = (false, (zero, m))
down (suc n) m = (true, (n, m))

remove_first_lem : (x : ℕ) (xs l : List ℕ) → l ≡ x ∷ xs → remove_first x l ≡ xs
remove_first_lem x xs l e = ap (remove_first x) e ∙ rw (==-refl x) refl

down_none : (s : Counter) → s.0 ≡ 0 → down s.0 s.1 ≡ (false, s)
down_none s e = ap (λ v. down v s.1) e ∙ ap (λ v. (false, (v, s.1))) (sym e)

abbrev kernel : Kernel
kernel = record {
  Items = List ℕ;
  contents = λ l. l;
  empty = [];
  insert_end = λ x l. l ++ x ∷ [];
  remove = remove_first;
  head_owner = head_or;
  is_contained = λ x l. ltb 0 (count x l);
  contents-empty = refl;
  contents-insert_end = λ x l. refl;
  contents-remove = remove_first_lem;
  head_owner_lem = λ x xs l e. ap head_or e;
  is_contained_lem = λ x l. refl;
  Semaphore = Counter;
  value = λ s. s.0;
  limit = λ s. s.1;
  semaphore_take = λ s. down s.0 s.1;
  semaphore_give = λ s. (if ltb s.0 s.1 then suc s.0 else s.0, s.1);
  semaphore_take_none = down_none;
  semaphore_take_one = λ s n e.
      (ap (λ v. (down v s.1).0) e, ap (λ v. (down v s.1).1.0) e, ap (λ v. (down v s.1).1.1) e);
  semaphore_give_lem = λ s. (refl, refl);
}

abbrev before : Pool kernel
before = record { free = []; semaphore = none; minimum = 0 }

-- Three buffers: the second is released twice.
abbrev requests : List Request
requests =
    Request.get
    ∷ Request.get
    ∷ Request.release 1
    ∷ Request.release 1
    ∷ Request.get
    ∷ Request.get
    ∷ Request.get
    ∷ []

serve-Refines_example :
    (serve kernel requests (network_buffers_initialise kernel 3 (some (3, 3)) before).1).0
    ≡ spec_serve requests (count_up 3 0)
serve-Refines_example =
    serve-Refines kernel 3 (3, 3) before requests refl refl refl
      (tt, (tt, (omega arith, (omega arith, (tt, (tt, (tt, tt)))))))
