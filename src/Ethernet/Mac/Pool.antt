-- ===== src/Ethernet/Mac/Pool.antt =====
-- FreeRTOS/TCP/portable/NetworkInterface/SAMx5x MAC/samx5xmac_buffers.c: the pool of network
-- buffers.
--
-- The lists and the semaphores are those of FreeRTOS, with the laws that its documentation gives
-- them. A network buffer is its index in `xNetworkTransmitBuffers`. Where
-- `pxGetNetworkBufferWithDescriptor` may wait, its pool is the one at the end of the wait.
pub mod Invariant
pub mod Refinement
use samlibs.Base.{
  ℕ, zero, suc, ◌+◌, ◌≡◌, Bool, true, false, List, [], ◌∷◌, ◌++◌, Option, none, some, if◌then◌else◌,
  ltb, count, length,
}

pub record Kernel : Type 1 where
  pub Items : Type 0
  pub contents : Items → List ℕ
  pub empty : Items
  pub insert_end : ℕ → Items → Items
  pub remove : ℕ → Items → Items
  pub head_owner : Items → ℕ
  pub is_contained : ℕ → Items → Bool
  pub contents-empty : contents empty ≡ []
  pub contents-insert_end : (x : ℕ) (l : Items) → contents (insert_end x l) ≡ contents l ++ x ∷ []
  pub contents-remove :
      (x : ℕ) (xs : List ℕ) (l : Items) → contents l ≡ x ∷ xs → contents (remove x l) ≡ xs
  pub head_owner_lem : (x : ℕ) (xs : List ℕ) (l : Items) → contents l ≡ x ∷ xs → head_owner l ≡ x
  pub is_contained_lem : (x : ℕ) (l : Items) → is_contained x l ≡ ltb 0 (count x (contents l))
  pub Semaphore : Type 0
  pub value : Semaphore → ℕ
  pub limit : Semaphore → ℕ
  pub semaphore_take : Semaphore → Bool × Semaphore
  pub semaphore_give : Semaphore → Semaphore
  pub semaphore_take_none : (s : Semaphore) → value s ≡ 0 → semaphore_take s ≡ (false, s)
  pub semaphore_take_one :
      (s : Semaphore) (n : ℕ)
      → value s ≡ suc n
      → ((semaphore_take s).0 ≡ true)
        × (value (semaphore_take s).1 ≡ n)
        × (limit (semaphore_take s).1 ≡ limit s)
  pub semaphore_give_lem :
      (s : Semaphore)
      → (value (semaphore_give s) ≡ (if ltb (value s) (limit s) then suc (value s) else value s))
        × (limit (semaphore_give s) ≡ limit s)

module _ (k : Kernel) where
  -- `xFreeTransmitBuffersList`, the semaphore and `uxMinimumFreeNetworkBuffers`.
  pub record Pool : Type 0 where
    pub free : k.Items
    pub semaphore : Option k.Semaphore
    pub minimum : ℕ

  -- The loop that puts the descriptors from the `x`-th on into the list, `n` of them.
  pub insert_all : ℕ → ℕ → k.Items → k.Items
  insert_all zero x l = l
  insert_all (suc n) x l = insert_all n (suc x) (k.insert_end x l)

  -- `created` is what `xSemaphoreCreateCounting` returns.
  pub initialise_with : ℕ → Option k.Semaphore → Pool → Bool × Pool
  initialise_with n none p = (false, record p { minimum = n })
  initialise_with n (some s) p =
      (true, record { free = insert_all n 0 k.empty; semaphore = some s; minimum = n })

  pub network_buffers_initialise : ℕ → Option k.Semaphore → Pool → Bool × Pool
  unfolding initialise_with
  network_buffers_initialise n created p = elim p.semaphore [
    | none ↦ initialise_with n created p
    | some s ↦ (true, p)
  ]

  abbrev lower : ℕ → ℕ → ℕ
  lower old now = if ltb now old then now else old

  abbrev pub size : k.Items → ℕ
  size l = length (k.contents l)

  -- The critical section, for the item at the head, and what follows it.
  abbrev pub take_head : ℕ → Pool → Option ℕ × Pool
  take_head x p =
      if k.is_contained x p.free
      then (
        some x,
        record p { free = k.remove x p.free; minimum = lower p.minimum (size (k.remove x p.free)) },
      )
      else (none, p)

  pub get_with : Option k.Semaphore → Pool → Option ℕ × Pool
  get_with none p = (none, p)
  get_with (some s) p =
      let taken : Bool × k.Semaphore = k.semaphore_take s in
      let p' : Pool = record p { semaphore = some taken.1 } in
      if taken.0 then take_head (k.head_owner p.free) p' else (none, p')

  pub get_network_buffer : Pool → Option ℕ × Pool
  unfolding get_with
  get_network_buffer p = get_with p.semaphore p

  -- `xSemaphoreGive`, on a handle that may be NULL.
  pub give_back : Option k.Semaphore → Option k.Semaphore
  give_back none = none
  give_back (some s) = some (k.semaphore_give s)

  pub release_network_buffer : ℕ → Pool → Pool
  unfolding give_back
  release_network_buffer x p =
      if k.is_contained x p.free
      then p
      else record p { free = k.insert_end x p.free; semaphore = give_back p.semaphore }
