-- ===== src/Ethernet/Mac.antt =====
-- FreeRTOS/TCP/portable/NetworkInterface/SAMx5x MAC/samx5xmac.c: the registers of the GMAC.
--
-- The device pack, which the build supplies, lays the register fields out: a register is a record of
-- the fields that the driver uses.
pub mod Station
pub mod Status
pub mod Descriptors
pub mod Pool
pub mod Serial
use samlibs.Base.{
  ℕ, zero, suc, ◌+◌, ◌*◌, ◌^◌, ◌%◌, Bool, true, false, not, ◌&&◌, ◌||◌, List, [], ◌∷◌, ◌++◌, Option,
  none, some, if◌then◌else◌, ◌==◌,
}
use samlibs.Ethernet.Link.{Capabilities, Mode, both_support}

pub data MacEvent : Type 0 where
  init_task_notified rx_task_notified phy_task_notified : MacEvent
  network_down : MacEvent
  start_of_transmission halt_of_transmission : MacEvent

-- The interrupts that the driver switches on and off.
pub record Enabled : Type 0 where
  pub tcomp : Bool
  pub tur : Bool
  pub tfc : Bool
  pub rlex : Bool
  pub mfs : Bool

-- What is written to MAN, the register of the management interface.
pub record Man : Type 0 where
  pub phy : ℕ
  pub register : ℕ
  pub is_clause_22 : Bool
  pub operation : ℕ
  pub payload : ℕ

-- The registers, the task handles that are set, and `LinkIsUp`.
pub record Mac : Type 0 where
  pub rxen : Bool
  pub txen : Bool
  pub mpe : Bool
  pub full_duplex : Bool
  pub speed_100 : Bool
  pub enabled : Enabled
  pub has_init_task : Bool
  pub has_rx_task : Bool
  pub has_phy_task : Bool
  pub link_is_up : Bool
  pub events : List MacEvent
  pub management : List Man

abbrev pub emit : MacEvent → Mac → Mac
emit e m = record m { events = m.events ++ e ∷ [] }

abbrev pub set_mode : Bool → Bool → Mac → Bool × Mac
set_mode full hundred m = (true, record m { full_duplex = full; speed_100 = hundred })

pub set_interface_speed : Capabilities → Capabilities → Mac → Bool × Mac
set_interface_speed self connected m =
    if self.full_100_tx && connected.full_100_tx
    then set_mode true true m
    else (if self.half_100_tx && connected.half_100_tx
        then set_mode false true m
        else (if self.full_10 && connected.full_10
            then set_mode true false m
            else (if self.half_10 && connected.half_10
                then set_mode false false m
                else (false, m))))

-- The second test, with `LinkIsUp` as the first branch leaves it.
abbrev pub network_down_test : Bool → Mac → Mac
network_down_test up m =
    if not up && m.link_is_up
    then record (emit MacEvent.network_down m) { rxen = false; link_is_up = false }
    else m

pub link_status_changed : Bool → Mac → Mac
link_status_changed true m =
    let m1 : Mac = record m { rxen = true; link_is_up = true } in
    network_down_test true (if m1.has_init_task then emit MacEvent.init_task_notified m1 else m1)
link_status_changed false m =
    network_down_test false (record m { rxen = false; link_is_up = false })

-- The flags of ISR that the handler looks at.
pub record Isr : Type 0 where
  pub tcomp : Bool
  pub tur : Bool
  pub tfc : Bool
  pub rlex : Bool
  pub rcomp : Bool
  pub mfs : Bool

pub transmit_interrupt : Mac → Mac
transmit_interrupt m = record m {
  enabled = record m.enabled { tcomp = false; tur = false; tfc = false; rlex = false };
  txen = false;
}

-- A notification to a task, if there is the task.
abbrev pub notify : Bool → MacEvent → Mac → Mac
notify true e m = emit e m
notify false e m = m

pub gmac_handler : Isr → Mac → Mac
gmac_handler isr m =
    let m1 : Mac =
      if isr.tcomp || isr.tur || isr.tfc || isr.rlex then transmit_interrupt m else m in
    let m2 : Mac = if isr.rcomp then notify m1.has_rx_task MacEvent.rx_task_notified m1 else m1 in
    if isr.mfs then notify m2.has_phy_task MacEvent.phy_task_notified m2 else m2

-- MPE, the interrupt MFS and the frame.
abbrev pub manage : Man → Mac → Mac
manage man m = record m {
  mpe = true;
  enabled = record m.enabled { mfs = true };
  management = m.management ++ man ∷ [];
}

-- Whether NSR shows IDLE at one of the tries, from the `i`-th on, with `n` left.
pub becomes_idle : (ℕ → Bool) → ℕ → ℕ → Bool
becomes_idle idle zero i = false
becomes_idle idle (suc n) i =
    let later : Bool = becomes_idle idle n (suc i) in if idle i then true else later

-- How the end of a frame is seen: by polling, or by the notification from the handler.
abbrev pub frame_done : (ℕ → Bool) → Bool → Bool → Bool
frame_done idle notified wait = if wait then becomes_idle idle 10 0 else notified

pub mii_write_to_phy : (ℕ → Bool) → Bool → ℕ → ℕ → ℕ → ℕ → Bool → Mac → Bool × Mac
mii_write_to_phy idle notified phy clause register value wait m = (
  frame_done idle notified wait,
  manage
      (record {
        phy = phy;
        register = register;
        is_clause_22 = clause == 22;
        operation = 1;
        payload = value;
      })
      m,
)

-- `answer` is DATA of MAN at the end; without one `*data` stays.
pub mii_read_from_phy : (ℕ → Bool) → Bool → ℕ → ℕ → ℕ → ℕ → ℕ → Bool → Mac → Bool × ℕ × Mac
mii_read_from_phy idle notified answer phy clause register old wait m =
    let done : Bool = frame_done idle notified wait in
    (
      done,
      (if done then answer else old),
      manage
          (record {
            phy = phy;
            register = register;
            is_clause_22 = clause == 22;
            operation = 2;
            payload = 0;
          })
          m,
    )
