-- ===== src/Dmx/Receive/Alias.antt =====
-- What happens when the application leaves the received frames valid.
use samlibs.Base.{
  ◌≡◌, refl, ap, ◌∙◌, List, ◌∷◌, true, false, none, some, get_elem?, set, sym, ok, arith,
}
use samlibs.Dmx.Port.{DmxBuffer, DmxPort, Callbacks}
use samlibs.Dmx.Buffers.{get_next_buffer}
use samlibs.Dmx.Buffers.Choice.{get_next_buffer_reuse}
use samlibs.Dmx.Receive.{notify, push_new_frame}
use samlibs.Dmx.Receive.Equations.{full, pushed, push_lem}

pub last_valid_overwritten :
    (cbs : Callbacks) (p : DmxPort) (b0 b1 b2 : DmxBuffer) (rest : List DmxBuffer)
    → cbs.new_rx_frame ≡ none
    → p.current_rx ≡ some 0
    → p.buffers ≡ b0 ∷ b1 ∷ b2 ∷ rest
    → b0.read ≡ false
    → b1.valid ≡ true
    → b2.valid ≡ true
    → (p' : DmxPort) × (push_new_frame cbs p ≡ ok p')
      × (p'.last_valid_rx ≡ some 0)
      × (p'.current_rx ≡ p'.last_valid_rx)
      × (get_elem? p'.buffers 0 ≡ some (record b0 { written = true; valid = true; slot_count = 0 }))
unfolding push_new_frame
last_valid_overwritten cbs p b0 b1 b2 rest no_cb at all unread valid1 valid2 =
    let bs = set p.buffers 0 (full b0) in
    let next : get_next_buffer bs
        ≡ (some 0, record (full b0) { written = true; slot_count = 0 } ∷ b1 ∷ b2 ∷ rest) =
      ap (λ l. get_next_buffer (set l 0 (full b0))) all
      ∙ get_next_buffer_reuse (full b0) b1 b2 rest (ground arith) refl valid1 valid2 in
    (
      pushed cbs.new_rx_frame p bs,
      push_lem cbs.new_rx_frame p 0 b0 at (rw all (omega arith)) (rw all),
      at,
      ap (λ r. r.0) next ∙ sym at,
      ap (λ cb. get_elem? (notify cb p.current_rx (get_next_buffer bs).1) 0) no_cb
          ∙ ap (λ r. get_elem? r.1 0) next,
    )
