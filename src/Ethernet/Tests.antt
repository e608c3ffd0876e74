-- ===== src/Ethernet/Tests.antt =====
-- Tests of the Ethernet drivers.
mod Kernel
mod Descriptors
use samlibs.Base.{
  ℕ, zero, suc, ◌+◌, ◌^◌, ◌≤◌, ◌≡◌, ◌↔◌, refl, Bool, true, false, ◌||◌, List, [], ◌∷◌, ◌++◌, none,
  some, ok, arith,
}
use samlibs.Ethernet.Link.{Capabilities}
use samlibs.Ethernet.Mac.{
  Mac, MacEvent, Isr, link_status_changed, set_interface_speed, gmac_handler, transmit_interrupt,
  mii_read_from_phy, becomes_idle,
}
use samlibs.Ethernet.Mac.Station.{set_mac_address, bottom_and_top, set_mac_address_iff}
use samlibs.Ethernet.PhyGeneric
use samlibs.Ethernet.PhyGeneric.{Phase, Answers}
use samlibs.Ethernet.PhyGeneric.Link.{MacTask, IsSound, rounds-IsSound}
use samlibs.Ethernet.Mac.Status.{
  best_mode, configured, told, link_status_changed_lem, set_interface_speed_lem,
}
use samlibs.Ethernet.Ksz9893.{Junk, setup, rounds, initial, switch_capabilities}
use samlibs.Ethernet.Ksz9893.Link.{deliver, rounds_lem}
use samlibs.Ethernet.Ksz9893.Setup.{port_mode, mode_bits, setup_lem}

abbrev mac : Mac
mac = record {
  rxen = false;
  txen = false;
  mpe = false;
  full_duplex = false;
  speed_100 = false;
  enabled = record { tcomp = true; tur = true; tfc = true; rlex = true; mfs = true };
  has_init_task = true;
  has_rx_task = true;
  has_phy_task = true;
  link_is_up = false;
  events = [];
  management = [];
}

-- 100 Mbit/s in half duplex, and 10 Mbit/s.
abbrev capabilities : Capabilities
capabilities = record {
  half_10 = true;
  full_10 = true;
  half_100_tx = true;
  half_100_t4 = false;
  full_100_tx = false;
  further = 0;
}

abbrev junk : Junk
junk = record { drive = 0xFF; capabilities = capabilities; control0 = 0xFF; control1 = 0xFF }

setup_lem_example :
    ((setup junk set_interface_speed capabilities mac).0
      ≡ (configured (best_mode capabilities (switch_capabilities capabilities)) mac).1)
    × (port_mode (setup junk set_interface_speed capabilities mac).1 none
        ≡ mode_bits (best_mode capabilities (switch_capabilities capabilities)))
setup_lem_example = setup_lem junk capabilities mac

rounds_lem_example :
    ((deliver (rounds (((true, false) ∷ []) ++ (false, true) ∷ []) initial).said mac).link_is_up
      ≡ (false || true))
    × ((deliver (rounds (((true, false) ∷ []) ++ (false, true) ∷ []) initial).said mac).rxen
        ≡ (false || true))
rounds_lem_example = rounds_lem mac ((true, false) ∷ []) false true refl refl

-- A PHY that offers full duplex at 100 Mbit/s, whose partner does so too.
abbrev answers : List Answers
answers =
    record { advertised = true; controlled = true; status = none; partner = none; expansion = none }
    ∷ record {
      advertised = true;
      controlled = true;
      status = some (2 ^ 14 + 2 ^ 5 + 2 ^ 2);
      partner = some (2 ^ 14 + 2 ^ 8);
      expansion = some 0;
    }
    ∷ []

abbrev task : MacTask
task = record { phase = Phase.advertise; link_was_up = false; mac = mac; writes = [] }

rounds-IsSound_example :
    IsSound (PhyGeneric.rounds set_interface_speed link_status_changed capabilities answers task)
rounds-IsSound_example = rounds-IsSound capabilities answers task refl refl

set_mac_address_iff_example :
    (set_mac_address (1 ∷ 0 ∷ 0 ∷ 0 ∷ 1 ∷ 0 ∷ []) ≡ ok (bottom_and_top 1 0 0 0 1 0)) ↔ (
      (1 ≤ 1)
      × (◌≡◌ {A = ℕ} 0 0)
      × (◌≡◌ {A = ℕ} 0 0)
      × (◌≡◌ {A = ℕ} 0 0)
      × (1 ≤ 1)
      × (◌≡◌ {A = ℕ} 0 0))
set_mac_address_iff_example = set_mac_address_iff 1 0 0 0 1 0
