-- ===== src/Dmx/Receive/Safety.antt =====
-- The validity of the port, and the faults that the receiver may meet.
pub mod Push
pub mod Steps
use samlibs.Base.{
  ℕ, zero, suc, ◌+◌, ◌≤◌, ◌<◌, ◌≡◌, refl, ◌⊎◌, inl, inr, List, [], ◌∷◌, Bool, true, false, Option,
  none, some, All, get_elem?, length, arith, Result, ok, fault, null_pointer,
}
use samlibs.Dmx.Port.{DmxBuffer, DmxState, DmxPort, Callbacks, dmx_buffering, dmx_max_slots}
use samlibs.Dmx.Receive.{notify}

abbrev pub IsBytes : List ℕ → Type 0
IsBytes = All (λ v. v < 256)

-- A buffer as dmx.h declares it.
abbrev pub IsBuffer : DmxBuffer → Type 0
IsBuffer b = (length b.dmx ≡ dmx_max_slots + 1) × IsBytes b.dmx

-- The slots that a buffer can hold before the next character, in each state.
abbrev pub InRoom : DmxState → ℕ → Type 0
InRoom DmxState.slots n = n ≤ 512
InRoom DmxState.rdm n = n ≤ 256
InRoom _ n = Unit

-- The application reads none of the first `n` buffers.
abbrev pub IsUnread : ℕ → List DmxBuffer → Type 0
IsUnread zero bs = Unit
IsUnread (suc n) [] = Unit
IsUnread (suc n) (b ∷ bs) = (b.read ≡ false) × IsUnread n bs

-- `N` says when `currentRxBuffer` may be NULL.
module _ (N : Type 0) where
  abbrev pub Current : DmxState → List DmxBuffer → Option ℕ → Type 0
  Current s bs none = N
  Current s bs (some i) =
      (b : DmxBuffer) × (i < dmx_buffering) × (get_elem? bs i ≡ some b) × InRoom s b.slot_count

  pub record IsValid (p : DmxPort) : Type 0 where
    pub enough : dmx_buffering ≤ length p.buffers
    pub sized : All IsBuffer p.buffers
    pub current : Current p.rx_state p.buffers p.current_rx
    pub spare : N ⊎ IsUnread dmx_buffering p.buffers

  -- A callback leaves the frames alone, and where NULL is excluded it marks no buffer read.
  abbrev pub Keeps : List DmxBuffer → List DmxBuffer → Type 0
  Keeps [] [] = Unit
  Keeps [] (c ∷ cs) = ⊥
  Keeps (b ∷ bs) [] = ⊥
  Keeps (b ∷ bs) (c ∷ cs) =
      (c.dmx ≡ b.dmx) × (c.slot_count ≡ b.slot_count) × (N ⊎ (c.read ≡ b.read)) × Keeps bs cs

  abbrev pub IsPolite : Callbacks → Type 0
  IsPolite cbs =
      (b : Option ℕ) (bs : List DmxBuffer)
      → Keeps bs (notify cbs.new_rx_frame b bs) × Keeps bs (notify cbs.new_rdm_message b bs)

  -- The only fault is NULL, and that where `N` holds.
  abbrev pub IsSafe : Result DmxPort → Type 0
  IsSafe (ok p) = IsValid p
  IsSafe (fault null_pointer) = N
  IsSafe (fault _) = ⊥
