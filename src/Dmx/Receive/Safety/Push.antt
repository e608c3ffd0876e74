-- ===== src/Dmx/Receive/Safety/Push.antt =====
-- The validity of the port when a frame is pushed.
use samlibs.Base.{
  ℕ, zero, suc, ◌≤◌, ◌<◌, ◌≡◌, refl, ap, sym, ◌∙◌, ◌⊎◌, inl, inr, List, [], ◌∷◌, false, Option,
  none, some, All, All-get, All-set, get_elem?, set, length, length-set, get_elem?-set_self, arith,
  ok,
}
use mathlib.Core.Option.{some-injective}
use samlibs.Dmx.Port.{DmxBuffer, DmxState, DmxActivity, DmxPort, dmx_buffering}
use samlibs.Dmx.Buffers.{claimed, get_next_buffer}
use samlibs.Dmx.Buffers.Choice.{Chooses, get_next_buffer_lem}
use samlibs.Dmx.Receive.{notify, push}
use samlibs.Dmx.Receive.Equations.{full, pushed, push_lem}
use samlibs.Dmx.Receive.Safety.{IsBuffer, InRoom, IsUnread, Current, IsValid, Keeps}

empty-InRoom : (s : DmxState) → InRoom s 0
empty-InRoom DmxState.slots = omega arith
empty-InRoom DmxState.rdm = omega arith
empty-InRoom _ = tt

module _ (N : Type 0) where
  Keeps-length : (bs cs : List DmxBuffer) → Keeps N bs cs → length cs ≡ length bs
  Keeps-length [] [] h = refl
  Keeps-length [] (c ∷ cs) h = elim h [ ]
  Keeps-length (b ∷ bs) [] h = elim h [ ]
  Keeps-length (b ∷ bs) (c ∷ cs) h = ap suc (Keeps-length bs cs h.3)

  Keeps-sized : (bs cs : List DmxBuffer) → Keeps N bs cs → All IsBuffer bs → All IsBuffer cs
  Keeps-sized [] [] h s = s
  Keeps-sized [] (c ∷ cs) h s = elim h [ ]
  Keeps-sized (b ∷ bs) [] h s = elim h [ ]
  Keeps-sized (b ∷ bs) (c ∷ cs) h s = (rw h.0 s.0, Keeps-sized bs cs h.3 s.1)

  Keeps-get :
      (bs cs : List DmxBuffer) (i : ℕ) (b : DmxBuffer)
      → Keeps N bs cs
      → get_elem? bs i ≡ some b
      → (c : DmxBuffer) × (get_elem? cs i ≡ some c) × (c.slot_count ≡ b.slot_count)
  Keeps-get [] cs i b h e = cc
  Keeps-get (x ∷ bs) [] i b h e = elim h [ ]
  Keeps-get (x ∷ bs) (c ∷ cs) zero b h e = (c, refl, ground arith)
  Keeps-get (x ∷ bs) (c ∷ cs) (suc i) b h e = Keeps-get bs cs i b h.3 e

  Keeps-spare :
      (n : ℕ) (bs cs : List DmxBuffer) → Keeps N bs cs → N ⊎ IsUnread n bs → N ⊎ IsUnread n cs
  Keeps-spare n bs cs h (inl m) = inl m
  Keeps-spare zero bs cs h (inr u) = inr tt
  Keeps-spare (suc n) bs [] h (inr u) = inr tt
  Keeps-spare (suc n) [] (d ∷ cs) h (inr u) = elim h [ ]
  Keeps-spare (suc n) (x ∷ bs) (d ∷ cs) h (inr u) = elim h.2 [
    | inl m ↦ inl m
    | inr same ↦ elim (Keeps-spare n bs cs h.3 (inr u.1)) [
      | inl m ↦ inl m
      | inr v ↦ inr (same ∙ u.0, v)
    ]
  ]

  pub set-spare :
      (n : ℕ) (bs : List DmxBuffer) (i : ℕ) (b c : DmxBuffer)
      → get_elem? bs i ≡ some b
      → c.read ≡ b.read
      → N ⊎ IsUnread n bs
      → N ⊎ IsUnread n (set bs i c)
  set-spare n bs i b c e same (inl m) = inl m
  set-spare zero bs i b c e same (inr u) = inr tt
  set-spare (suc n) [] i b c e same (inr u) = cc
  set-spare (suc n) (x ∷ bs) zero b c e same (inr u) =
      inr (same ∙ ap (λ (d : DmxBuffer). d.read) (sym (some-injective _ _ e)) ∙ u.0, u.1)
  set-spare (suc n) (x ∷ bs) (suc i) b c e same (inr u) =
      elim (set-spare n bs i b c e same (inr u.1)) [ inl m ↦ inl m | inr v ↦ inr (u.0, v) ]

  IsUnread-get :
      (n : ℕ) (bs : List DmxBuffer) (i : ℕ) (b : DmxBuffer)
      → IsUnread n bs
      → i < n
      → get_elem? bs i ≡ some b
      → b.read ≡ false
  IsUnread-get zero bs i b u lt e = absurd (omega arith)
  IsUnread-get (suc n) [] i b u lt e = cc
  IsUnread-get (suc n) (x ∷ bs) zero b u lt e =
      ap (λ (d : DmxBuffer). d.read) (sym (some-injective _ _ e)) ∙ u.0
  IsUnread-get (suc n) (x ∷ bs) (suc i) b u lt e = IsUnread-get n bs i b u.1 (omega arith) e

  -- What a push leaves behind fits every state.
  abbrev pub IsReady : List DmxBuffer → Option ℕ → Type 0
  IsReady bs i =
      (dmx_buffering ≤ length bs)
      × All IsBuffer bs
      × (N ⊎ IsUnread dmx_buffering bs)
      × ((s : DmxState) → Current N s bs i)

  -- `c` is the buffer of the frame that was pushed.
  Chooses-IsReady :
      (bs : List DmxBuffer) (i : Option ℕ) (bs' : List DmxBuffer)
      → Chooses bs i bs'
      → dmx_buffering ≤ length bs
      → All IsBuffer bs
      → N ⊎ IsUnread dmx_buffering bs
      → (j : ℕ) (c : DmxBuffer) → j < dmx_buffering
      → get_elem? bs j ≡ some c
      → c.written ≡ false
      → IsReady bs' i
  Chooses-IsReady bs none bs' h len sized (inl m) j c lt at w = rw h.0 (len, sized, inl m, λ s. m)
  Chooses-IsReady bs none bs' h len sized (inr u) j c lt at w =
      let busy = h.1 j c lt at in let unread = IsUnread-get 3 bs j c u lt at in ground arith
  Chooses-IsReady bs (some i) bs' h len sized spare j c lt at w =
      let (b, lt', e, best, same) = h in
      rw same (
        rw length-set len,
        All-set IsBuffer bs i (claimed b) sized (All-get IsBuffer bs i b sized e),
        set-spare 3 bs i b (claimed b) e refl spare,
        λ s. (claimed b, lt', get_elem?-set_self bs i (claimed b) (omega arith), empty-InRoom s),
      )

  Keeps-IsReady :
      (bs cs : List DmxBuffer) (i : Option ℕ) → Keeps N bs cs → IsReady bs i → IsReady cs i
  Keeps-IsReady bs cs i h (len, sized, spare, current) = (
    rw (Keeps-length bs cs h) len,
    Keeps-sized bs cs h sized,
    Keeps-spare 3 bs cs h spare,
    Keeps-Current i current,
  )
    where
      Keeps-Current :
          (i : Option ℕ) → ((s : DmxState) → Current N s bs i) → (s : DmxState) → Current N s cs i
      Keeps-Current none current s = current s
      Keeps-Current (some i) current s =
          let (b, lt, e, room) = current s in
          let (c, e', same) = Keeps-get bs cs i b h e in (c, lt, e', rw same room)

  -- What a push leaves behind fits every state.
  abbrev pub IsPushed : DmxPort → Type 0
  IsPushed p =
      (s : DmxState) (a : DmxActivity) → IsValid N (record p { rx_state = s; activity = a })

  pub push-IsPushed :
      (cb : Option (Option ℕ → List DmxBuffer → List DmxBuffer)) (p : DmxPort) (i : ℕ)
      (b : DmxBuffer)
      → ((i : Option ℕ) (bs : List DmxBuffer) → Keeps N bs (notify cb i bs))
      → IsValid N (record p { rx_state = DmxState.idle })
      → p.current_rx ≡ some i
      → i < dmx_buffering
      → get_elem? p.buffers i ≡ some b
      → (p' : DmxPort) × (push cb p ≡ ok p') × IsPushed p'
  push-IsPushed cb p i b polite v at lt e = (
    pushed cb p bs,
    push_lem cb p i b at (omega (arith, v.enough)) e,
    λ s a. record { enough = ready.0; sized = ready.1; current = ready.3 s; spare = ready.2 },
  )
    where
      bs : List DmxBuffer
      bs = set p.buffers i (full b)

      next : Option ℕ × List DmxBuffer
      next = get_next_buffer bs

      here : get_elem? bs i ≡ some (full b)
      here = get_elem?-set_self p.buffers i (full b) (omega (arith, v.enough))

      ready : IsReady (notify cb p.current_rx next.1) next.0
      ready =
          Keeps-IsReady next.1 (notify cb p.current_rx next.1) next.0 (polite p.current_rx next.1) (
            Chooses-IsReady bs next.0 next.1 (get_next_buffer_lem bs) (rw length-set v.enough)
              (All-set IsBuffer p.buffers i (full b) v.sized
                (All-get IsBuffer p.buffers i b v.sized e))
              (set-spare 3 p.buffers i b (full b) e refl v.spare) i (full b) lt here refl)
