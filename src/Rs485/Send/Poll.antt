-- ===== src/Rs485/Send/Poll.antt =====
-- The polling of `xRs485ReceiveChar`.
use samlibs.Base.{
  ℕ, zero, suc, ◌+◌, ◌<◌, ◌≡◌, sym, ap, ◌∙◌, ◌↔◌, inl, inr, Option, none, some, Option-cases, arith,
}
use samlibs.Rs485.Port.{Rs485Config}
use samlibs.Rs485.Send.{poll, or_else, receive_char}

-- The look `i + k` finds `c`, and those from `i` before it find nothing.
abbrev pub IsFirst : (ℕ → Option ℕ) → ℕ → ℕ → ℕ → Type 0
IsFirst polled c i k = (polled (i + k) ≡ some c) × ((j : ℕ) → j < k → polled (i + j) ≡ none)

-- A look at `i` that finds nothing moves the first look that finds something by one.
IsFirst-later :
    (polled : ℕ → Option ℕ) (c i k : ℕ)
    → polled i ≡ none
    → IsFirst polled c (suc i) k
    → IsFirst polled c i (suc k)
IsFirst-later polled c i k missed first =
    (ap polled {x = i + suc k} {y = suc i + k} (omega arith) ∙ first.0, earlier)
  where
    earlier : (j : ℕ) → j < suc k → polled (i + j) ≡ none
    earlier zero h = ap polled {x = i + 0} {y = i} (omega arith) ∙ missed
    earlier (suc j) h =
        ap polled {x = i + suc j} {y = suc i + j} (omega arith) ∙ first.1 j (omega arith)

IsFirst-earlier :
    (polled : ℕ → Option ℕ) (c i k : ℕ) → IsFirst polled c i (suc k) → IsFirst polled c (suc i) k
IsFirst-earlier polled c i k first = (
  ap polled {x = suc i + k} {y = i + suc k} (omega arith) ∙ first.0,
  λ j h. ap polled {x = suc i + j} {y = i + suc j} (omega arith) ∙ first.1 (suc j) (omega arith),
)

poll_found :
    (cnt i c : ℕ) (polled : ℕ → Option ℕ)
    → poll cnt i polled ≡ some c
    → (k : ℕ) × (k < cnt) × IsFirst polled c i k
unfolding poll
poll_found zero i c polled h = cc
poll_found (suc cnt) i c polled h = elim (Option-cases (polled i)) [
  | inl missed ↦
      let later =
        poll_found cnt (suc i) c polled
          (sym (ap (λ o. or_else o (poll cnt (suc i) polled)) missed) ∙ h) in
      (suc later.0, omega (arith, later.1), IsFirst-later polled c i later.0 missed later.2)
  | inr found ↦ (
    0,
    omega arith,
    (
      ap polled {x = i + 0} {y = i} (omega arith)
          ∙ found.1
          ∙ sym (ap (λ o. or_else o (poll cnt (suc i) polled)) found.1)
          ∙ h,
      λ j hj. absurd (omega arith),
    ),
  )
]

poll_first :
    (cnt i c k : ℕ) (polled : ℕ → Option ℕ)
    → k < cnt
    → IsFirst polled c i k
    → poll cnt i polled ≡ some c
unfolding poll
poll_first zero i c k polled h first = absurd (omega arith)
poll_first (suc cnt) i c zero polled h first =
    ap (λ o. or_else o (poll cnt (suc i) polled))
      (ap polled {x = i} {y = i + 0} (omega arith) ∙ first.0)
poll_first (suc cnt) i c (suc k) polled h first =
    ap (λ o. or_else o (poll cnt (suc i) polled))
      (ap polled {x = i} {y = i + 0} (omega arith) ∙ first.1 0 (omega arith))
    ∙ poll_first cnt (suc i) c k polled (omega arith) (IsFirst-earlier polled c i k first)

-- `xRs485ReceiveChar` passes with a character exactly where one of its 5000 looks at the flag
-- finds it and no earlier look finds any; it returns in every case.
pub receive_char_iff :
    (config : Rs485Config) (polled : ℕ → Option ℕ) (c : ℕ)
    → (receive_char (some config) polled ≡ some c) ↔ ((k : ℕ) × (k < 5000) × IsFirst polled c 0 k)
unfolding receive_char
receive_char_iff config polled c =
    (poll_found 5000 0 c polled, λ found. poll_first 5000 0 c found.0 polled found.1 found.2)
