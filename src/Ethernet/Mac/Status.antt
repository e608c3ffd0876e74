-- ===== src/Ethernet/Mac/Status.antt =====
-- samx5xmac.c: the link status and the speed of the interface.
use samlibs.Base.{
  ◌≡◌, sym, ap, Bool, true, false, List, [], ◌∷◌, ◌++◌, append-nil, Option, none, some,
  if◌then◌else◌, arith,
}
use samlibs.Ethernet.Link.{Capabilities, Mode, both_support}
use samlibs.Ethernet.Mac.{Mac, MacEvent, link_status_changed, set_interface_speed, set_mode}

abbrev pub told : Bool → Bool → List MacEvent
told true true = MacEvent.init_task_notified ∷ []
told true false = []
told false b = []

-- The status and the receiver follow the call, the task that waits in the initialisation is notified
-- when the link comes up, and the stack never receives a network-down event.
pub link_status_changed_lem :
    (up : Bool) (m : Mac)
    → link_status_changed up m
      ≡ record m { rxen = up; link_is_up = up; events = m.events ++ told up m.has_init_task }
unfolding link_status_changed
link_status_changed_lem true m = ground (arith, append-nil m.events)
link_status_changed_lem false m =
    ap (λ es. record m { rxen = false; link_is_up = false; events = es })
      (sym (append-nil m.events))

-- The first mode in the order of preference that both sides support.
abbrev pub first_mode : (Mode → Bool) → List Mode → Option Mode
first_mode ok [] = none
first_mode ok (m ∷ ms) = if ok m then some m else first_mode ok ms

abbrev pub best_mode : Capabilities → Capabilities → Option Mode
best_mode a b =
    first_mode (both_support a b) (Mode.full_100 ∷ Mode.half_100 ∷ Mode.full_10 ∷ Mode.half_10 ∷ [])

abbrev pub is_full : Mode → Bool
is_full Mode.full_100 = true
is_full Mode.half_100 = false
is_full Mode.full_10 = true
is_full Mode.half_10 = false

abbrev pub is_100 : Mode → Bool
is_100 Mode.full_100 = true
is_100 Mode.half_100 = true
is_100 Mode.full_10 = false
is_100 Mode.half_10 = false

abbrev pub configured : Option Mode → Mac → Bool × Mac
configured none m = (false, m)
configured (some mode) m = set_mode (is_full mode) (is_100 mode) m

pub set_interface_speed_lem :
    (self connected : Capabilities) (m : Mac)
    → set_interface_speed self connected m ≡ configured (best_mode self connected) m
unfolding set_interface_speed
set_interface_speed_lem self connected m = ground arith
