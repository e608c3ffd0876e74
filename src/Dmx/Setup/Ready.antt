-- ===== src/Dmx/Setup/Ready.antt =====
-- A port that has been initialised receives.
use samlibs.Base.{
  ◌<◌, ◌≡◌, refl, Bool-cases, if_then, if_else, inl, inr, List, ◌∷◌, Bool, true, false, not, some,
  All, All-replicate, drop, Result, ok, ◌>>=◌, >>=-inverse, ok-injective, ap, sym, subst, arith,
}
use samlibs.Dmx.Port.{DmxBuffer, DmxState, DmxPort, Callbacks, Received, dmx_buffering}
use samlibs.Dmx.Buffers.{claimed}
use samlibs.Dmx.Buffers.Choice.{get_next_buffer_first}
use samlibs.Dmx.Receive.{rx_loop}
use samlibs.Dmx.Receive.Safety.{IsBuffer, IsValid, IsPolite}
use samlibs.Dmx.Receive.Totality.{rx_loop_total}
use samlibs.Dmx.Setup.{
  Device, Wiring, Wired, Machine, cleared, ready, init_sercom, setup_pins, light, finish,
  reset_usart,
}

cleared-IsBuffer : IsBuffer cleared
cleared-IsBuffer = (refl, All-replicate (λ v. v < 256) 513 0 (omega arith))

-- The buffers of an initialised port: the first is being written.
abbrev buffers : DmxPort → List DmxBuffer
buffers p = claimed cleared ∷ cleared ∷ cleared ∷ drop dmx_buffering p.buffers

-- The fields that the receiver depends on.
ready_fields :
    (p : DmxPort)
    → ((ready p).buffers ≡ buffers p)
      × ((ready p).current_rx ≡ some 0)
      × ((ready p).rx_state ≡ DmxState.idle)
unfolding ready
ready_fields p = (
  ap (λ r. r.1)
      (get_next_buffer_first cleared (cleared ∷ cleared ∷ drop dmx_buffering p.buffers) refl),
  ap (λ r. r.0)
      (get_next_buffer_first cleared (cleared ∷ cleared ∷ drop dmx_buffering p.buffers) refl),
  refl,
)

-- A port that `xDmxInitSercom` has set up is one that the receiver can start from.
ready-IsValid : (p : DmxPort) → All IsBuffer (drop dmx_buffering p.buffers) → IsValid ⊥ (ready p)
ready-IsValid p frames = record {
  enough = rw ((ready_fields p).0) (omega arith);
  sized =
      rw ((ready_fields p).0) (cleared-IsBuffer, (cleared-IsBuffer, (cleared-IsBuffer, frames)));
  current =
      rw ((ready_fields p).0, (ready_fields p).1, (ready_fields p).2)
        (claimed cleared, omega arith, refl, tt);
  spare = inr (rw ((ready_fields p).0) (refl, (refl, (refl, tt))));
}

init_port :
    (d : Device) (w : Wiring) (m m' : Machine)
    → init_sercom d w m ≡ ok (true, m')
    → m'.port ≡ ready m.port
unfolding init_sercom
init_port d w m m' h = elim (Bool-cases (not m.port.hw.has_module)) [
  | inl missing ↦
      failed (first (false, m) (true, m') (if_then (not m.port.hw.has_module) _ missing h))
  | inr there ↦ done (if_else (not m.port.hw.has_module) _ there h)
]
  where
    first : (x y : Bool × Machine) → ok x ≡ ok y → x.0 ≡ y.0
    first x y e = ap (λ r. r.0) (ok-injective e)

    failed : false ≡ true → m'.port ≡ ready m.port
    failed e = cc

    wiring : Result Wired
    wiring =
        setup_pins d w.rxpin m.port.hw.txpin m.port.hw.pinmux w.dirpin
          (record m.wired { usart = reset_usart d })

    lit : Wired → Result (Bool × Machine)
    lit wired = light d w wired.ports >>= (λ ports. ok (true, finish d w m wired ports))

    done : (wiring >>= lit) ≡ ok (true, m') → m'.port ≡ ready m.port
    done e =
        let (wired, e0, e1) = >>=-inverse wiring lit (true, m') e in
        let (ports, e2, e3) =
          >>=-inverse (light d w wired.ports) (λ q. ok (true, finish d w m wired q)) (true, m')
            e1 in
        ap (λ r. r.1.port) (sym (ok-injective e3))

-- Once `xDmxInitSercom` has returned pdPASS the handler returns whatever arrives, and the port
-- stays valid, if the frames of the application are of the declared size and the callbacks mark no
-- buffer as read.
pub init_sercom-rx_loop :
    (d : Device) (w : Wiring) (m m' : Machine) (cbs : Callbacks) (rs : List Received)
    → init_sercom d w m ≡ ok (true, m')
    → All IsBuffer (drop dmx_buffering m.port.buffers)
    → IsPolite ⊥ cbs
    → All (λ r. r.byte < 256) rs
    → (p : DmxPort) × (rx_loop cbs rs m'.port ≡ ok p) × IsValid ⊥ p
init_sercom-rx_loop d w m m' cbs rs h frames polite small =
    rx_loop_total cbs rs m'.port polite small
      (subst (λ p. IsValid ⊥ p) (sym (init_port d w m m' h)) (ready-IsValid m.port frames))
