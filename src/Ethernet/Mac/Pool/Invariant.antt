-- ===== src/Ethernet/Mac/Pool/Invariant.antt =====
-- samx5xmac_buffers.c: the free list and its semaphore.
use samlibs.Base.{
  ℕ, zero, suc, ◌+◌, ◌<◌, ◌≤◌, ◌≡◌, refl, sym, ap, ◌∙◌, subst, append-nil, append_assoc, Bool, true,
  List, [], ◌∷◌, ◌++◌, Option, none, some, if◌then◌else◌, ltb, Bool-cases, inl, inr, count,
  count-snoc, length, length-append, length-total, total_lt, All, arith,
}
use samlibs.Ethernet.Mac.Pool.{
  Kernel, Pool, insert_all, take_head, get_with, get_network_buffer, give_back,
  release_network_buffer,
}

-- With `n` network buffers: each stands at most once in the list, none that does not exist, and the
-- semaphore counts them.
pub record IsValid (k : Kernel) (n : ℕ) (p : Pool k) : Type 0 where
  pub semaphore : k.Semaphore
  pub is_created : p.semaphore ≡ some semaphore
  pub limit : k.limit semaphore ≡ n
  pub counted : k.value semaphore ≡ length (k.contents p.free)
  pub once : (a : ℕ) → count a (k.contents p.free) ≤ 1
  pub exist : All (λ x. x < n) (k.contents p.free)

All-snoc : (n x : ℕ) (xs : List ℕ) → All (λ y. y < n) xs → x < n → All (λ y. y < n) (xs ++ x ∷ [])
All-snoc n x [] h lt = (lt, tt)
All-snoc n x (y ∷ ys) (h, hs) lt = (h, All-snoc n x ys hs lt)

count-snoc_le :
    (a x : ℕ) (xs : List ℕ) → count a xs ≤ 1 → count x xs ≡ 0 → count a (xs ++ x ∷ []) ≤ 1
count-snoc_le a x xs h e = ground (arith, count-snoc xs x a, ap (λ b. count b xs))

-- A list that lacks one of the `n` buffers is shorter than `n`.
length-lt :
    (n x : ℕ) (xs : List ℕ)
    → ((a : ℕ) → count a xs ≤ 1)
    → All (λ y. y < n) xs
    → count x xs ≡ 0
    → x < n
    → length xs < n
length-lt n x xs once exist e h =
    omega (arith, length-total n xs exist, total_lt n (λ a. count a xs) x once e h)

head_counts : (x : ℕ) (xs : List ℕ) → ltb 0 (count x (x ∷ xs)) ≡ true
head_counts x xs = ground arith

-- The specification: a queue of the buffers that are free.
abbrev pub spec_get : List ℕ → Option ℕ × List ℕ
spec_get [] = (none, [])
spec_get (x ∷ xs) = (some x, xs)

abbrev pub spec_release : ℕ → List ℕ → List ℕ
spec_release x xs = if ltb 0 (count x xs) then xs else xs ++ x ∷ []

-- The numbers from `x` on, `m` of them.
abbrev pub count_up : ℕ → ℕ → List ℕ
count_up zero x = []
count_up (suc m) x = x ∷ count_up m (suc x)

pub length-count_up : (m x : ℕ) → length (count_up m x) ≡ m
length-count_up zero x = refl
length-count_up (suc m) x = ap suc (length-count_up m (suc x))

count-count_up_below : (a m x : ℕ) → a < x → count a (count_up m x) ≡ 0
count-count_up_below a zero x h = refl
count-count_up_below a (suc m) x h = ground (arith, count-count_up_below a m (suc x))

pub count-count_up : (a m x : ℕ) → count a (count_up m x) ≤ 1
count-count_up a zero x = omega arith
count-count_up a (suc m) x =
    ground (arith, count-count_up a m (suc x), count-count_up_below a m (suc x))

pub count_up_lt : (m x n : ℕ) → x + m ≤ n → All (λ y. y < n) (count_up m x)
count_up_lt zero x n h = tt
count_up_lt (suc m) x n h = ((omega arith), count_up_lt m (suc x) n (omega arith))

module _ (k : Kernel) (n : ℕ) where
  release_new :
      (x : ℕ) (p : Pool k)
      → x < n
      → IsValid k n p
      → count x (k.contents p.free) ≡ 0
      → IsValid k n (record p { free = k.insert_end x p.free; semaphore = give_back k p.semaphore })
  unfolding give_back
  release_new x p h v e =
      let c : List ℕ = k.contents p.free in
      let added : k.contents (k.insert_end x p.free) ≡ c ++ x ∷ [] =
        k.contents-insert_end x p.free in
      let shorter : length c < n = length-lt n x c v.once v.exist e h in
      let given = k.semaphore_give_lem v.semaphore in
      record {
        semaphore = k.semaphore_give v.semaphore;
        is_created = ap (give_back k) v.is_created;
        limit = given.1 ∙ v.limit;
        counted = ground (arith, given.0, length-append c (x ∷ []), ap length added);
        once = λ a. subst (λ l. count a l ≤ 1) (sym added) (count-snoc_le a x c (v.once a) e);
        exist = subst (All (λ y. y < n)) (sym added) (All-snoc n x c v.exist h);
      }

  pub release_network_buffer-IsValid :
      (x : ℕ) (p : Pool k)
      → x < n
      → IsValid k n p
      → IsValid k n (release_network_buffer k x p)
        × (k.contents (release_network_buffer k x p).free ≡ spec_release x (k.contents p.free))
  unfolding release_network_buffer
  release_network_buffer-IsValid x p h v = elim (Bool-cases (ltb 0 (count x (k.contents p.free)))) [
    | inl c ↦ rw (k.is_contained_lem x p.free, c) (v, refl)
    | inr c ↦
        rw (k.is_contained_lem x p.free, c)
          (release_new x p h v (ground arith), k.contents-insert_end x p.free)
  ]

  -- The result, the free list and the invariant after a call.
  abbrev pub Gives : Option ℕ → List ℕ → Option ℕ × Pool k → Type 0
  Gives o xs r = IsValid k n r.1 × (r.0 ≡ o) × (k.contents r.1.free ≡ xs)

  with_semaphore :
      (p : Pool k) (v : IsValid k n p) → get_network_buffer k p ≡ get_with k (some v.semaphore) p
  unfolding get_network_buffer
  with_semaphore p v = ap (λ o. get_with k o p) v.is_created

  get_some :
      (x : ℕ) (xs : List ℕ) (p : Pool k)
      → k.contents p.free ≡ x ∷ xs
      → IsValid k n p
      → Gives (some x) xs (get_network_buffer k p)
  unfolding get_with
  get_some x xs p e v =
      let taken = k.semaphore_take_one v.semaphore (length xs) (v.counted ∙ ap length e) in
      let p' : Pool k = record p { semaphore = some (k.semaphore_take v.semaphore).1 } in
      let after : Pool k = record p' {
        free = k.remove x p.free;
        minimum = (take_head k x p').1.minimum;
      } in
      let rest : k.contents (k.remove x p.free) ≡ xs = k.contents-remove x xs p.free e in
      let there : k.is_contained x p.free ≡ true =
        k.is_contained_lem x p.free ∙ ap (λ l. ltb 0 (count x l)) e ∙ head_counts x xs in
      let q : get_network_buffer k p ≡ (some x, after) =
        with_semaphore p v
        ∙ ap (λ b. if b then take_head k (k.head_owner p.free) p' else (none, p')) taken.0
        ∙ ap (λ y. take_head k y p') (k.head_owner_lem x xs p.free e)
        ∙ rw there refl in
      subst (Gives (some x) xs) (sym q) (
        record {
          semaphore = (k.semaphore_take v.semaphore).1;
          is_created = refl;
          limit = taken.2 ∙ v.limit;
          counted = taken.1 ∙ sym (ap length rest);
          once = λ a.
              let o : count a (k.contents p.free) ≤ 1 = v.once a in
              omega (arith, ap (count a) e, ap (count a) rest);
          exist = subst (All (λ y. y < n)) (sym rest) (subst (All (λ y. y < n)) e v.exist).1;
        },
        refl,
        rest,
      )

  get_none :
      (p : Pool k) → k.contents p.free ≡ [] → IsValid k n p → Gives none [] (get_network_buffer k p)
  unfolding get_with
  get_none p e v =
      let q : get_network_buffer k p ≡ (none, record p { semaphore = some v.semaphore }) =
        with_semaphore p v
        ∙ ap
            (λ (t : Bool × k.Semaphore).
              if t.0
              then take_head k (k.head_owner p.free) (record p { semaphore = some t.1 })
              else (none, record p { semaphore = some t.1 }))
            (k.semaphore_take_none v.semaphore (v.counted ∙ ap length e)) in
      subst (Gives none []) (sym q) (
        record {
          semaphore = v.semaphore;
          is_created = refl;
          limit = v.limit;
          counted = v.counted;
          once = v.once;
          exist = v.exist;
        },
        refl,
        e,
      )

  pub get_network_buffer-IsValid :
      (p : Pool k)
      → IsValid k n p
      → Gives
          (spec_get (k.contents p.free)).0
          (spec_get (k.contents p.free)).1
          (get_network_buffer k p)
  get_network_buffer-IsValid p v = from (k.contents p.free) refl
    where
      from :
          (l : List ℕ)
          → k.contents p.free ≡ l
          → Gives (spec_get l).0 (spec_get l).1 (get_network_buffer k p)
      from [] e = get_none p e v
      from (x ∷ xs) e = get_some x xs p e v

pub insert_all_contents :
    (k : Kernel) (m x : ℕ) (l : k.Items)
    → k.contents (insert_all k m x l) ≡ k.contents l ++ count_up m x
unfolding insert_all
insert_all_contents k zero x l = sym (append-nil (k.contents l))
insert_all_contents k (suc m) x l =
    insert_all_contents k m (suc x) (k.insert_end x l)
    ∙ ap (λ c. c ++ count_up m (suc x)) (k.contents-insert_end x l)
    ∙ append_assoc (k.contents l) (x ∷ []) (count_up m (suc x))
