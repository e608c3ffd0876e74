-- ===== src/Ethernet/Ksz9893/Setup.antt =====
-- ksz9893.c with samx5xmac.c: the link between the switch and the MAC.
use samlibs.Base.{
  ℕ, ◌<◌, ◌≡◌, ap, Bool, List, [], ◌∷◌, Option, none, some, if◌then◌else◌, ◌==◌, arith,
}
use samlibs.Ethernet.Link.{Capabilities, Mode, bit}
use samlibs.Ethernet.Mac.{Mac, set_interface_speed}
use samlibs.Ethernet.Mac.Status.{best_mode, is_full, is_100, configured, set_interface_speed_lem}
use samlibs.Ethernet.Ksz9893.{
  Writes, Junk, setup, set_mac_interface_speed, control_0, port_3_control_0, switch_capabilities,
}

-- The duplex and the speed bit that port 3 has in the end, if they are written.
abbrev pub from_bytes : List ℕ → Option (Bool × Bool)
from_bytes [] = none
from_bytes (b ∷ bs) = some (bit 6 b == 1, bit 4 b == 1)

abbrev pub port_mode : Writes → Option (Bool × Bool) → Option (Bool × Bool)
port_mode [] found = found
port_mode ((register, bytes) ∷ ws) found =
    port_mode ws (if register == port_3_control_0 then from_bytes bytes else found)

abbrev pub mode_bits : Option Mode → Option (Bool × Bool)
mode_bits none = none
mode_bits (some mode) = some (is_full mode, is_100 mode)

control_0_bits :
    (junk d s : ℕ)
    → d < 2
    → s < 2
    → (bit 6 (control_0 junk d s) ≡ d) × (bit 4 (control_0 junk d s) ≡ s)
unfolding control_0
control_0_bits junk d s hd hs = omega arith

-- The mode that is read off what is written for the values `d` and `s` of the two bits.
port_mode-control_0 :
    (junk d s : ℕ) → d < 2 → s < 2 → from_bytes (control_0 junk d s ∷ []) ≡ some (d == 1, s == 1)
port_mode-control_0 junk d s hd hs =
    ap (λ (p : ℕ × ℕ). some (p.0 == 1, p.1 == 1))
      (λ i. ((control_0_bits junk d s hd hs).0 i, (control_0_bits junk d s hd hs).1 i))

-- After the setup the MAC runs in the best mode that its capabilities have, port 3 of the switch has
-- been given the bits of the same mode, and where there is none both are left alone.
pub setup_lem :
    (junk : Junk) (mac : Capabilities) (m : Mac)
    → ((setup junk set_interface_speed mac m).0
        ≡ (configured (best_mode mac (switch_capabilities junk.capabilities)) m).1)
      × (port_mode (setup junk set_interface_speed mac m).1 none
          ≡ mode_bits (best_mode mac (switch_capabilities junk.capabilities)))
unfolding setup set_mac_interface_speed
setup_lem junk mac m = (
  ap (λ (r : Bool × Mac). r.1)
      (set_interface_speed_lem mac (switch_capabilities junk.capabilities) m),
  ground (
    arith,
    port_mode-control_0 junk.control0 1 1 (omega arith) (omega arith),
    port_mode-control_0 junk.control0 0 1 (omega arith) (omega arith),
    port_mode-control_0 junk.control0 1 0 (omega arith) (omega arith),
    port_mode-control_0 junk.control0 0 0 (omega arith) (omega arith),
  ),
)
