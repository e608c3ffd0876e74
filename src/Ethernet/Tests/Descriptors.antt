-- ===== src/Ethernet/Tests/Descriptors.antt =====
-- The descriptors at concrete rings.
use samlibs.Base.{
  ℕ, zero, suc, ◌<◌, ◌+◌, ◌*◌, ◌≡◌, refl, true, false, ◌||◌, List, [], ◌∷◌, none, some,
  if◌then◌else◌, ◌==◌, ok, fault, Fault, set, get_elem?, one_if, count, arith,
}
use samlibs.Ethernet.Link.{bit}
use samlibs.Ethernet.Mac.{Mac}
use samlibs.Ethernet.Mac.Descriptors.{
  RxDescriptor, TxDescriptor, NetworkBuffer, Received, receive_round, refilled, taken, address_of,
  output_frame, init_buffers, is_owned, fresh_tx,
}
use samlibs.Ethernet.Mac.Descriptors.Ring.{Reach, Step, IsRing, IsFirst, initialised, Reach-IsRing}
use samlibs.Ethernet.Mac.Descriptors.Receive.{receive_round_lem}
use samlibs.Ethernet.Mac.Descriptors.Transmit.{buffers, given_back, output_frame_conserves}

abbrev supply : ℕ → ℕ
supply x = 0x1000 + x * 0x600

abbrev mac : Mac
mac = record {
  rxen = true;
  txen = false;
  mpe = true;
  full_duplex = true;
  speed_100 = true;
  enabled = record { tcomp = false; tur = false; tfc = false; rlex = false; mfs = true };
  has_init_task = true;
  has_rx_task = true;
  has_phy_task = true;
  link_is_up = true;
  events = [];
  management = [];
}

abbrev buffer : NetworkBuffer
buffer = record { name = 3; ethernet_buffer = 0x8000; data_length = 60 }

abbrev tx : List TxDescriptor
tx = fresh_tx true ∷ []

-- A frame of 64 bytes in the second of two slots, the last one.
abbrev waiting : RxDescriptor
waiting = record { word = 0x1603; frame_length = 64 }

abbrev rx : List RxDescriptor
rx = record { word = 0x1000; frame_length = 0 } ∷ waiting ∷ []

earlier-is_owned : (j : ℕ) (y : RxDescriptor) → j < 1 → get_elem? rx j ≡ some y → is_owned y ≡ false
earlier-is_owned zero y lt g = ground arith
earlier-is_owned (suc j) y lt g = absurd (omega arith)

waiting-IsFirst : IsFirst is_owned rx 1 waiting
waiting-IsFirst = record { there = refl; passes = refl; before = earlier-is_owned }

receive_round_lem_example :
    (receive_round (some buffer) true true rx
      ≡ ok (
        (if true
            then Received.passed (taken waiting buffer)
            else Received.dropped (taken waiting buffer)),
        set rx 1 (refilled waiting buffer),
      ))
    × (receive_round none true true rx ≡ fault Fault.null_pointer)
    × (bit 0 (refilled waiting buffer).word ≡ 0)
    × (bit 1 (refilled waiting buffer).word ≡ bit 1 waiting.word)
    × (address_of (refilled waiting buffer).word ≡ buffer.ethernet_buffer)
receive_round_lem_example =
    receive_round_lem rx 1 waiting buffer true true waiting-IsFirst (omega arith)

output_frame_conserves_example :
    count 0x8000 (buffers (output_frame buffer true tx mac).1)
      + count 0x8000 (given_back (output_frame buffer true tx mac).3)
    ≡ count 0x8000 (buffers tx)
      + (if (output_frame buffer true tx mac).0 || true then one_if (0x8000 == 0x8000) else 0)
output_frame_conserves_example = output_frame_conserves 0x8000 buffer true tx mac (omega arith)

Reach-IsRing_example :
    IsRing (record (initialised supply) {
      tx = (output_frame buffer true (init_buffers supply).0 mac).1;
    })
Reach-IsRing_example = Reach-IsRing supply (Reach.next Reach.here (Step.outputs buffer true mac))
