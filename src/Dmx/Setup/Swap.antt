-- ===== src/Dmx/Setup/Swap.antt =====
-- The pads after `vDmxSwapRxTxPins`.
use samlibs.Base.{
  ℕ, ◌≡◌, refl, ◌⊎◌, inl, inr, Bool, true, false, not, Option, none, some, ◌==◌, Result, ok, ◌>>=◌,
  >>=-inverse, ok-injective, ap, sym, subst, ◌∙◌, Bool-cases, if_then, if_else,
}
use samlibs.Gpio.{Ports, Direction, gpio_none, set_pin_function, set_pin_level, set_pin_direction}
use samlibs.Sercom.{SercomPads, gpio_to_pad, pad_to_rxpo, pad_to_txpo}
use samlibs.Dmx.Port.{DmxPort}
use samlibs.Dmx.Setup.{
  Device, Wiring, Wired, Usart, connect_rx, connect_tx, receive_pin, transmit_pin, direction_pin,
  setup_pins, shared_pin, swap_rx_tx_pins,
}

-- Where the receiver is on, RXPO is the field of the pad.
abbrev Receives : SercomPads → Usart → Type 0
Receives pad u = (u.rxen ≡ false) ⊎ (pad_to_rxpo pad ≡ some u.rxpo)

abbrev Transmits : SercomPads → Usart → Type 0
Transmits pad u = (u.txen ≡ false) ⊎ (pad_to_txpo pad ≡ some u.txpo)

connect_rx_lem :
    (d : Device) (pin pinmux : ℕ) (o : Option ℕ) (w w' : Wired)
    → connect_rx d pin pinmux o w ≡ ok w'
    → w.usart.rxen ≡ false
    → ((w'.usart.rxen ≡ false) ⊎ (o ≡ some w'.usart.rxpo)) × (w'.usart.txen ≡ w.usart.txen)
connect_rx_lem d pin pinmux none w w' h off =
    let same = ok-injective h in
    (inl (ap (λ x. x.usart.rxen) (sym same) ∙ off), ap (λ x. x.usart.txen) (sym same))
connect_rx_lem d pin pinmux (some bit) w w' h off =
    let (ports, e0, e1) =
      >>=-inverse (set_pin_function d.pins pin pinmux w.ports)
        (λ p. ok (record { usart = record w.usart { rxpo = bit; rxen = true }; ports = p })) w' h in
    let same = ok-injective e1 in
    (inr (ap (λ x. some x.usart.rxpo) same), ap (λ x. x.usart.txen) (sym same))

connect_tx_lem :
    (d : Device) (pin pinmux : ℕ) (o : Option ℕ) (w w' : Wired)
    → connect_tx d pin pinmux o w ≡ ok w'
    → w.usart.txen ≡ false
    → ((w'.usart.txen ≡ false) ⊎ (o ≡ some w'.usart.txpo))
      × (w'.usart.rxen ≡ w.usart.rxen)
      × (w'.usart.rxpo ≡ w.usart.rxpo)
connect_tx_lem d pin pinmux none w w' h off =
    let same = ok-injective h in
    (
      inl (ap (λ x. x.usart.txen) (sym same) ∙ off),
      ap (λ x. x.usart.rxen) (sym same),
      ap (λ x. x.usart.rxpo) (sym same),
    )
connect_tx_lem d pin pinmux (some bit) w w' h off =
    let (ports, e0, e1) =
      >>=-inverse (set_pin_function d.pins pin pinmux w.ports)
        (λ p. ok (record { usart = record w.usart { txpo = bit; txen = true }; ports = p })) w' h in
    let same = ok-injective e1 in
    (
      inr (ap (λ x. some x.usart.txpo) same),
      ap (λ x. x.usart.rxen) (sym same),
      ap (λ x. x.usart.rxpo) (sym same),
    )

receive_pin_lem :
    (d : Device) (pin pinmux : ℕ) (w w' : Wired)
    → receive_pin d pin pinmux w ≡ ok w'
    → w.usart.rxen ≡ false
    → Receives (gpio_to_pad d.gpio_a pin) w'.usart × (w'.usart.txen ≡ w.usart.txen)
receive_pin_lem d pin pinmux w w' h off = elim (Bool-cases (pin == gpio_none)) [
  | inl absent ↦ kept (sym (ok-injective (rw (absent) at h)))
  | inr there ↦
      connect_rx_lem d pin pinmux (pad_to_rxpo (gpio_to_pad d.gpio_a pin)) w w' (rw (there) at h)
        off
]
  where
    kept : w' ≡ w → Receives (gpio_to_pad d.gpio_a pin) w'.usart × (w'.usart.txen ≡ w.usart.txen)
    kept e = (inl (ap (λ x. x.usart.rxen) e ∙ off), ap (λ x. x.usart.txen) e)

transmit_pin_lem :
    (d : Device) (pin pinmux : ℕ) (w w' : Wired)
    → transmit_pin d pin pinmux w ≡ ok w'
    → w.usart.txen ≡ false
    → Transmits (gpio_to_pad d.gpio_a pin) w'.usart
      × (w'.usart.rxen ≡ w.usart.rxen)
      × (w'.usart.rxpo ≡ w.usart.rxpo)
transmit_pin_lem d pin pinmux w w' h off = elim (Bool-cases (pin == gpio_none)) [
  | inl absent ↦ kept (sym (ok-injective (rw (absent) at h)))
  | inr there ↦
      connect_tx_lem d pin pinmux (pad_to_txpo (gpio_to_pad d.gpio_a pin)) w w' (rw (there) at h)
        off
]
  where
    kept :
        w' ≡ w
        → Transmits (gpio_to_pad d.gpio_a pin) w'.usart
          × (w'.usart.rxen ≡ w.usart.rxen)
          × (w'.usart.rxpo ≡ w.usart.rxpo)
    kept e =
        (inl (ap (λ x. x.usart.txen) e ∙ off), ap (λ x. x.usart.rxen) e, ap (λ x. x.usart.rxpo) e)

direction_pin_lem :
    (d : Device) (pin : ℕ) (w w' : Wired) → direction_pin d pin w ≡ ok w' → w'.usart ≡ w.usart
direction_pin_lem d pin w w' h = elim (Bool-cases (pin == gpio_none)) [
  | inl absent ↦ ap (λ x. x.usart) (sym (ok-injective (rw (absent) at h)))
  | inr there ↦ driven (rw (there) at h)
]
  where
    low : Result Ports
    low = set_pin_level d.pins pin false w.ports

    out : Ports → Result Wired
    out p = set_pin_direction d.pins pin Direction.output p >>= (λ q. ok (record w { ports = q }))

    driven : (low >>= out) ≡ ok w' → w'.usart ≡ w.usart
    driven e =
        let (p, e0, e1) = >>=-inverse low out w' e in
        let (q, e2, e3) =
          >>=-inverse (set_pin_direction d.pins pin Direction.output p)
            (λ x. ok (record w { ports = x })) w' e1 in
        ap (λ x. x.usart) (sym (ok-injective e3))

-- Both directions on the same pin.
setup_pins_lem :
    (d : Device) (pin pinmux dirpin : ℕ) (w w' : Wired)
    → setup_pins d pin pin pinmux dirpin w ≡ ok w'
    → w.usart.is_enabled ≡ false
    → w.usart.rxen ≡ false
    → w.usart.txen ≡ false
    → Receives (gpio_to_pad d.gpio_a pin) w'.usart × Transmits (gpio_to_pad d.gpio_a pin) w'.usart
unfolding setup_pins
setup_pins_lem d pin pinmux dirpin w w' h off rx tx = elim (Bool-cases (pinmux == 0)) [
  | inl without ↦
      kept
        (sym (ok-injective (if_then (pinmux == 0) _ without (if_else w.usart.is_enabled _ off h))))
  | inr there ↦ done (if_else (pinmux == 0) _ there (if_else w.usart.is_enabled _ off h))
]
  where
    Done : Type 0
    Done =
        Receives (gpio_to_pad d.gpio_a pin) w'.usart × Transmits (gpio_to_pad d.gpio_a pin) w'.usart

    kept : w' ≡ w → Done
    kept e = (inl (ap (λ x. x.usart.rxen) e ∙ rx), inl (ap (λ x. x.usart.txen) e ∙ tx))

    rest : Wired → Result Wired
    rest w1 = transmit_pin d pin pinmux w1 >>= (λ w2. direction_pin d dirpin w2)

    done : (receive_pin d pin pinmux w >>= rest) ≡ ok w' → Done
    done e =
        let (w1, e1, r1) = >>=-inverse (receive_pin d pin pinmux w) rest w' e in
        let (w2, e2, e3) =
          >>=-inverse (transmit_pin d pin pinmux w1) (λ x. direction_pin d dirpin x) w' r1 in
        let (got, still) = receive_pin_lem d pin pinmux w w1 e1 rx in
        let (sent, on, field) = transmit_pin_lem d pin pinmux w1 w2 e2 (still ∙ tx) in
        let same = sym (direction_pin_lem d dirpin w2 w' e3) in
        (
          subst (Receives (gpio_to_pad d.gpio_a pin)) same
              (elim got [ inl r ↦ inl (on ∙ r) | inr r ↦ inr (r ∙ ap some (sym field)) ]),
          subst (Transmits (gpio_to_pad d.gpio_a pin)) same sent,
        )

-- Once `vDmxSwapRxTxPins` is done, with or without the swap, the receiver and the transmitter are on
-- the same pad, where they are on at all: the port hears what it sends itself.
pub swap_shares_pad :
    (d : Device) (w : Wiring) (p : DmxPort) (swap : Bool) (wired wired' : Wired)
    → p.hw.has_module ≡ true
    → swap_rx_tx_pins d w p swap wired ≡ ok wired'
    → wired'.usart.rxen ≡ true
    → wired'.usart.txen ≡ true
    → (pad : SercomPads) × (pad_to_rxpo pad ≡ some wired'.usart.rxpo)
      × (pad_to_txpo pad ≡ some wired'.usart.txpo)
unfolding swap_rx_tx_pins
swap_shares_pad d w p swap wired wired' there h rx tx =
    let (w1, e0, e1) =
      >>=-inverse (setup_pins d pin pin p.hw.pinmux w.dirpin (stopped wired))
        (λ x. ok (record x { usart = record x.usart { is_enabled = true } })) wired'
        (if_else (not p.hw.has_module) _ (ap not there) h) in
    let same = ok-injective e1 in
    let (got, sent) =
      setup_pins_lem d pin p.hw.pinmux w.dirpin (stopped wired) w1 e0 refl refl refl in
    (
      gpio_to_pad d.gpio_a pin,
      on got (ap (λ x. x.usart.rxen) same ∙ rx) ∙ ap (λ x. some x.usart.rxpo) same,
      on sent (ap (λ x. x.usart.txen) same ∙ tx) ∙ ap (λ x. some x.usart.txpo) same,
    )
  where
    pin : ℕ
    pin = shared_pin swap w p

    stopped : Wired → Wired
    stopped x = record x {
      usart = record x.usart { is_enabled = false; rxen = false; txen = false };
    }

    on : {b : Bool} {o o' : Option ℕ} → (b ≡ false) ⊎ (o ≡ o') → b ≡ true → o ≡ o'
    on (inl off) h = cc
    on (inr e) h = e
