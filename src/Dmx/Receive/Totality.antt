-- ===== src/Dmx/Receive/Totality.antt =====
-- The receiver on any sequence of characters.
use samlibs.Base.{◌<◌, ◌≡◌, refl, ◌⊎◌, inl, inr, List, All, Result, ok, fault, null_pointer}
use samlibs.Dmx.Port.{DmxPort, Callbacks, Received}
use samlibs.Dmx.Receive.{rx_loop}
use samlibs.Dmx.Receive.Safety.{IsValid, IsPolite, IsSafe}
use samlibs.Dmx.Receive.Safety.Steps.{rx_loop-IsSafe}

-- Whatever characters, errors and breaks arrive, the handler accesses no memory outside the
-- buffers of the port: from a valid port it returns a valid port, or it dereferences
-- `currentRxBuffer` where that is NULL. The callbacks leave the frames alone.
pub rx_loop_memory_safe :
    (cbs : Callbacks) (rs : List Received) (p : DmxPort)
    → IsPolite (Unit {0}) cbs
    → All (λ r. r.byte < 256) rs
    → IsValid (Unit {0}) p
    → ((p' : DmxPort) × (rx_loop cbs rs p ≡ ok p') × IsValid (Unit {0}) p')
      ⊎ (rx_loop cbs rs p ≡ fault null_pointer)
rx_loop_memory_safe cbs rs p polite small v =
    outcome (rx_loop cbs rs p) (rx_loop-IsSafe (Unit {0}) cbs polite rs p small v)
  where
    outcome :
        (r : Result DmxPort)
        → IsSafe (Unit {0}) r
        → ((p' : DmxPort) × (r ≡ ok p') × IsValid (Unit {0}) p') ⊎ (r ≡ fault null_pointer)
    outcome (ok p') s = inl (p', refl, s)
    outcome (fault null_pointer) s = inr refl
    outcome (fault g) s = absurd s

-- From a valid port with a current buffer, none of whose buffers is being read, and with
-- callbacks that mark none read, the handler returns, whatever arrives, and the port is again
-- such a port: there is always a current buffer.
pub rx_loop_total :
    (cbs : Callbacks) (rs : List Received) (p : DmxPort)
    → IsPolite ⊥ cbs
    → All (λ r. r.byte < 256) rs
    → IsValid ⊥ p
    → (p' : DmxPort) × (rx_loop cbs rs p ≡ ok p') × IsValid ⊥ p'
rx_loop_total cbs rs p polite small v =
    outcome (rx_loop cbs rs p) (rx_loop-IsSafe ⊥ cbs polite rs p small v)
  where
    outcome : (r : Result DmxPort) → IsSafe ⊥ r → (p' : DmxPort) × (r ≡ ok p') × IsValid ⊥ p'
    outcome (ok p') s = (p', refl, s)
    outcome (fault null_pointer) s = absurd s
    outcome (fault g) s = absurd s
