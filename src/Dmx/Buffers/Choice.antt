-- ===== src/Dmx/Buffers/Choice.antt =====
-- Which buffer `pDmxPortGetNextBuffer` takes, and when it returns NULL.
use samlibs.Base.{
  ℕ, zero, suc, ◌+◌, ◌<◌, ◌≡◌, refl, ◌⊎◌, inl, inr, List, [], ◌∷◌, Bool, true, false, Option, none,
  some, get_elem?, set, arith, Bool-cases, Option-cases, ap, ◌∙◌,
}
use samlibs.Dmx.Port.{DmxBuffer, dmx_buffering}
use samlibs.Dmx.Buffers.{is_free, is_idle, search, choose, claimed, claim, get_next_buffer}

-- A search that fails has refused each element that it saw; one that succeeds has found the first.
search-none :
    (test : DmxBuffer → Bool) (n i : ℕ) (bs : List DmxBuffer) (j : ℕ) (b : DmxBuffer)
    → search test n i bs ≡ none
    → j < n
    → get_elem? bs j ≡ some b
    → test b ≡ false
unfolding search
search-none test zero i bs j b h lt e = absurd (omega arith)
search-none test (suc n) i [] j b h lt e = cc
search-none test (suc n) i (x ∷ xs) zero b h lt e = ground arith
search-none test (suc n) i (x ∷ xs) (suc j) b h lt e =
    ground (arith, search-none test n (i + 1) xs j b)

search-some :
    (test : DmxBuffer → Bool) (n i : ℕ) (bs : List DmxBuffer) (k : ℕ)
    → search test n i bs ≡ some k
    → (j : ℕ) × (b : DmxBuffer) × (k ≡ i + j)
      × (j < n)
      × (get_elem? bs j ≡ some b)
      × (test b ≡ true)
unfolding search
search-some test zero i bs k h = cc
search-some test (suc n) i [] k h = cc
search-some test (suc n) i (x ∷ xs) k h = elim (Bool-cases (test x)) [
  | inl found ↦ (0, x, ground arith, omega arith, refl, found)
  | inr next ↦
      let (j, b, at, lt, e, t) = search-some test n (i + 1) xs k (rw next at h) in
      (suc j, b, omega arith, omega arith, e, t)
]

search_found :
    (test : DmxBuffer → Bool) (bs : List DmxBuffer) (i : ℕ)
    → search test dmx_buffering 0 bs ≡ some i
    → (b : DmxBuffer) × (i < dmx_buffering) × (get_elem? bs i ≡ some b) × (test b ≡ true)
search_found test bs i p =
    let (j, b, at, lt, e, t) = search-some test 3 0 bs i p in
    let same : i ≡ j = omega arith in (b, omega arith, ap (get_elem? bs) same ∙ e, t)

claim_lem :
    (bs : List DmxBuffer) (i : ℕ) (b : DmxBuffer)
    → get_elem? bs i ≡ some b
    → claim bs i ≡ set bs i (claimed b)
claim_lem bs i b e = rw (e, claim)

-- A buffer that is neither written nor read, without the valid frame if there is such a one.
abbrev pub IsBestChoice : List DmxBuffer → DmxBuffer → Type 0
IsBestChoice bs b =
    (is_free b ≡ true)
    ⊎ ((is_idle b ≡ true)
        × ((j : ℕ) (c : DmxBuffer)
            → j < dmx_buffering
            → get_elem? bs j ≡ some c
            → is_free c ≡ false))

-- All buffers of the port are being written or read.
abbrev pub AllBusy : List DmxBuffer → Type 0
AllBusy bs =
    (j : ℕ) (c : DmxBuffer) → j < dmx_buffering → get_elem? bs j ≡ some c → is_idle c ≡ false

abbrev pub Chooses : List DmxBuffer → Option ℕ → List DmxBuffer → Type 0
Chooses bs none bs' = (bs' ≡ bs) × AllBusy bs
Chooses bs (some i) bs' =
    (b : DmxBuffer) × (i < dmx_buffering)
    × (get_elem? bs i ≡ some b)
    × IsBestChoice bs b
    × (bs' ≡ set bs i (claimed b))

-- `pDmxPortGetNextBuffer` takes a buffer of the port that is neither written nor read, one
-- without a valid frame if there is such a one; it marks that buffer written and empty and
-- changes nothing else. It returns NULL, and changes nothing, only if all buffers are in use.
pub get_next_buffer_lem :
    (bs : List DmxBuffer) → Chooses bs (get_next_buffer bs).0 (get_next_buffer bs).1
unfolding get_next_buffer
get_next_buffer_lem bs = elim (Option-cases (search is_free dmx_buffering 0 bs)) [
  | inl none_free ↦ elim (Option-cases (search is_idle dmx_buffering 0 bs)) [
    | inl none_idle ↦
        rw (none_free, none_idle) (refl, λ j c lt e. search-none is_idle 3 0 bs j c none_idle lt e)
    | inr (i, p) ↦
        let (b, lt, e, t) = search_found is_idle bs i p in
        rw (none_free, p)
          (
            b,
            lt,
            e,
            inr (t, λ k c l q. search-none is_free 3 0 bs k c none_free l q),
            claim_lem bs i b e,
          )
  ]
  | inr (i, p) ↦
      let (b, lt, e, t) = search_found is_free bs i p in rw p (b, lt, e, inl t, claim_lem bs i b e)
]

-- With a valid frame in every buffer, the first is taken if it is neither written nor read.
pub get_next_buffer_reuse :
    (b0 b1 b2 : DmxBuffer) (rest : List DmxBuffer)
    → is_idle b0 ≡ true
    → b0.valid ≡ true
    → b1.valid ≡ true
    → b2.valid ≡ true
    → get_next_buffer (b0 ∷ b1 ∷ b2 ∷ rest) ≡ (some 0, claimed b0 ∷ b1 ∷ b2 ∷ rest)
unfolding get_next_buffer search
get_next_buffer_reuse b0 b1 b2 rest idle0 valid0 valid1 valid2 =
    rw (not_free b0 valid0, not_free b1 valid1, not_free b2 valid2, idle0)
  where
    not_free : (b : DmxBuffer) → b.valid ≡ true → is_free b ≡ false
    not_free b h = ground arith

-- A free first buffer is taken.
pub get_next_buffer_first :
    (b : DmxBuffer) (bs : List DmxBuffer)
    → is_free b ≡ true
    → get_next_buffer (b ∷ bs) ≡ (some 0, claimed b ∷ bs)
unfolding get_next_buffer search choose
get_next_buffer_first b bs free = rw (free) refl
