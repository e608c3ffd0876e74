-- ===== src/System/Eic/Handler.antt =====
-- sameic.c: which interrupts are served.
use samlibs.Base.{
  ℕ, zero, suc, ◌+◌, ◌<◌, ◌≡◌, refl, ap, subst, ◌∙◌, Bool, true, false, List, [], ◌∷◌,
  if◌then◌else◌, arith,
}
use samlibs.System.Eic.{Eic, eic_nmi, clear_irq, handler_loop, eic_handler}

abbrev pub no_flag : ℕ → Bool
no_flag j = false

clear_irq_all : (channel j : ℕ) (pending : ℕ → Bool) → clear_irq channel pending j ≡ false
unfolding clear_irq
clear_irq_all channel j pending = ground arith

handler_loop_idle :
    (callback : ℕ → Bool) (n channel : ℕ) (called : List ℕ) (pending : ℕ → Bool)
    → ((j : ℕ) → pending j ≡ false)
    → handler_loop callback n channel (called, pending) ≡ (called, pending)
unfolding handler_loop
handler_loop_idle callback zero channel called pending h = refl
handler_loop_idle callback (suc n) channel called pending h =
    rw (h channel) (handler_loop_idle callback n (suc channel) called pending h)

-- What the loop leaves when channel `c` is the first with a flag.
abbrev Left : (ℕ → Bool) → (ℕ → Bool) → ℕ → List ℕ × (ℕ → Bool) → Type 0
Left callback pending c s = s ≡ ((if callback c then c ∷ [] else []), clear_irq c pending)

handler_loop_first :
    (callback pending : ℕ → Bool) (n k channel c : ℕ)
    → channel + k ≡ c
    → pending c ≡ true
    → ((j : ℕ) → j < c → pending j ≡ false)
    → k < n
    → Left callback pending c (handler_loop callback n channel ([], pending))
unfolding handler_loop
handler_loop_first callback pending zero k channel c e p h lt = absurd (omega arith)
handler_loop_first callback pending (suc n) zero channel c e p h lt =
    let q : channel ≡ c = omega arith in
    let now : pending channel ≡ true = ap pending q ∙ p in
    subst (λ x. Left callback pending x (handler_loop callback (suc n) channel ([], pending))) q
      (rw now (
        handler_loop_idle callback n (suc channel) (if callback channel then channel ∷ [] else [])
          (clear_irq channel pending) (λ j. clear_irq_all channel j pending)))
handler_loop_first callback pending (suc n) (suc k) channel c e p h lt =
    let later : pending channel ≡ false = h channel (omega arith) in
    rw later
      (handler_loop_first callback pending n k (suc channel) c (omega arith) p h (omega arith))

-- Of the channels whose flags are set only the first is served: its callback is called, if there is
-- one, and the flags of all the others are cleared with its own.
pub eic_handler_lem :
    (e : Eic) (channel : ℕ)
    → channel < 16
    → e.pending channel ≡ true
    → ((j : ℕ) → j < channel → e.pending j ≡ false)
    → ((eic_handler e).0 ≡ (if e.callback channel then channel ∷ [] else []))
      × ((j : ℕ) → (eic_handler e).1.pending j ≡ false)
unfolding eic_handler
eic_handler_lem e channel lt p h =
    let q =
      handler_loop_first e.callback e.pending eic_nmi channel 0 channel (omega arith) p h lt in
    (
      ap (λ (s : List ℕ × (ℕ → Bool)). s.0) q,
      λ j. ap (λ (s : List ℕ × (ℕ → Bool)). s.1 j) q ∙ clear_irq_all channel j e.pending,
    )
