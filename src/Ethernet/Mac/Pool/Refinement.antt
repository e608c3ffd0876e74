-- ===== src/Ethernet/Mac/Pool/Refinement.antt =====
-- samx5xmac_buffers.c: the pool, against a queue of free buffers.
use samlibs.Base.{
  ℕ, ◌<◌, ◌≡◌, refl, sym, ap, ◌∙◌, subst, List, [], ◌∷◌, ◌++◌, ◌≤◌, Option, none, some, All, count,
  length, arith,
}
use samlibs.Ethernet.Mac.Pool.{
  Kernel, Pool, initialise_with, insert_all, network_buffers_initialise, get_network_buffer,
  release_network_buffer,
}
use samlibs.Ethernet.Mac.Pool.Invariant.{
  IsValid, spec_get, spec_release, get_network_buffer-IsValid, release_network_buffer-IsValid,
  count_up, count_up_lt, count-count_up, length-count_up, insert_all_contents,
}

pub data Request : Type 0 where
  get : Request
  release : ℕ → Request

-- What the requests that get a buffer return, one after another, and the pool behind them.
pub serve : (k : Kernel) → List Request → Pool k → List (Option ℕ) × Pool k
serve k [] p = ([], p)
serve k (get ∷ rs) p =
    let g : Option ℕ × Pool k = get_network_buffer k p in
    let rest : List (Option ℕ) × Pool k = serve k rs g.1 in (g.0 ∷ rest.0, rest.1)
serve k (release x ∷ rs) p = serve k rs (release_network_buffer k x p)

-- The same of a queue, of which a buffer that is free already is not added again.
pub spec_serve : List Request → List ℕ → List (Option ℕ)
spec_serve [] q = []
spec_serve (get ∷ rs) q = (spec_get q).0 ∷ spec_serve rs (spec_get q).1
spec_serve (release x ∷ rs) q = spec_serve rs (spec_release x q)

-- Only buffers that exist are released.
abbrev pub Releases : ℕ → Request → Type 0
Releases n get = Unit {0}
Releases n (release x) = x < n

serve_lem :
    (k : Kernel) (n : ℕ) (rs : List Request) (p : Pool k)
    → IsValid k n p
    → All (Releases n) rs
    → (serve k rs p).0 ≡ spec_serve rs (k.contents p.free)
unfolding serve spec_serve
serve_lem k n [] p v h = refl
serve_lem k n (get ∷ rs) p v (_, h) =
    let (v', o, c) = get_network_buffer-IsValid k n p v in
    let ih : (serve k rs (get_network_buffer k p).1).0
        ≡ spec_serve rs (k.contents (get_network_buffer k p).1.free) =
      serve_lem k n rs (get_network_buffer k p).1 v' h in
    ap (λ l. (get_network_buffer k p).0 ∷ l) (ih ∙ ap (spec_serve rs) c)
    ∙ ap (λ r. r ∷ spec_serve rs (spec_get (k.contents p.free)).1) o
serve_lem k n (release x ∷ rs) p v (lt, h) =
    let (v', c) = release_network_buffer-IsValid k n x p lt v in
    serve_lem k n rs (release_network_buffer k x p) v' h ∙ ap (spec_serve rs) c

-- The pool after a first initialisation that created its semaphore.
pub network_buffers_initialise-IsValid :
    (k : Kernel) (n : ℕ) (s : k.Semaphore) (p : Pool k)
    → p.semaphore ≡ none
    → k.value s ≡ n
    → k.limit s ≡ n
    → IsValid k n (network_buffers_initialise k n (some s) p).1
      × (k.contents (network_buffers_initialise k n (some s) p).1.free ≡ count_up n 0)
unfolding network_buffers_initialise initialise_with
network_buffers_initialise-IsValid k n s p e value limit = rw e (valid, listed)
  where
    listed : k.contents (insert_all k n 0 k.empty) ≡ count_up n 0
    listed = insert_all_contents k n 0 k.empty ∙ ap (λ l. l ++ count_up n 0) k.contents-empty

    valid :
        IsValid k n (record { free = insert_all k n 0 k.empty; semaphore = some s; minimum = n })
    valid = record {
      semaphore = s;
      is_created = refl;
      limit = limit;
      counted = value ∙ sym (ap length listed ∙ length-count_up n 0);
      once = λ a. subst (λ l. count a l ≤ 1) (sym listed) (count-count_up a n 0);
      exist = subst (All (λ y. y < n)) (sym listed) (count_up_lt n 0 n (omega arith));
    }

-- Once the pool is initialised, whatever buffers are asked for and released, a buffer more than
-- once too: the results are those of a queue that starts with all `n` buffers, so that there is a
-- buffer exactly when one is free, and none is handed out again before its release.
pub serve-Refines :
    (k : Kernel) (n : ℕ) (s : k.Semaphore) (p : Pool k) (rs : List Request)
    → p.semaphore ≡ none
    → k.value s ≡ n
    → k.limit s ≡ n
    → All (Releases n) rs
    → (serve k rs (network_buffers_initialise k n (some s) p).1).0 ≡ spec_serve rs (count_up n 0)
serve-Refines k n s p rs e value limit h =
    let (v, c) = network_buffers_initialise-IsValid k n s p e value limit in
    serve_lem k n rs _ v h ∙ ap (spec_serve rs) c
