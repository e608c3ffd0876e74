-- ===== src/Ethernet/Ksz9893.antt =====
-- FreeRTOS/TCP/portable/NetworkInterface/KSZ9893/ksz9893.c: a switch with three ports.
--
-- The functions that reach the switch and the MAC are pointers in the parameters of the task. A write
-- to a register is its number with the bytes of the variable that is sent; a variable that the code
-- does not initialise has the value `junk`.
pub mod Link
pub mod Setup
use samlibs.Base.{
  ℕ, zero, suc, ◌+◌, ◌%◌, Bool, true, false, not, ◌&&◌, List, [], ◌∷◌, ◌++◌, if◌then◌else◌,
}
use samlibs.Ethernet.Link.{Capabilities, with_bit}

pub data Message : Type 0 where
  port_up port_down : ℕ → Message
  link_status : Bool → Message

-- The registers that are written, the newest last.
abbrev pub Writes : Type 0
Writes = List (ℕ × List ℕ)

abbrev pub port_3_control_0 : ℕ
port_3_control_0 = 0x3300

abbrev pub port_3_control_1 : ℕ
port_3_control_1 = 0x3301

-- The two flow control bits, the duplex bit 6 and the speed bit 4 of the first control register.
pub control_0 : ℕ → ℕ → ℕ → ℕ
control_0 junk duplex speed =
    with_bit 4 speed (with_bit 6 duplex (with_bit 3 0 (with_bit 5 0 junk)))

-- The interface type 01, then MII, then the speed bit of 1000.
pub control_1 : ℕ → ℕ
control_1 junk = with_bit 6 0 (with_bit 2 0 (with_bit 1 0 (with_bit 0 1 junk)))

abbrev pub interface_writes : ℕ → ℕ → ℕ → ℕ → Writes
interface_writes junk0 junk1 duplex speed =
    (port_3_control_0, control_0 junk0 duplex speed ∷ [])
    ∷ (port_3_control_1, control_1 junk1 ∷ [])
    ∷ []

pub set_mac_interface_speed : ℕ → ℕ → Capabilities → Capabilities → Bool × Writes
set_mac_interface_speed junk0 junk1 self mac =
    if self.full_100_tx && mac.full_100_tx
    then (true, interface_writes junk0 junk1 1 1)
    else (if self.half_100_tx && mac.half_100_tx
        then (true, interface_writes junk0 junk1 0 1)
        else (if self.full_10 && mac.full_10
            then (true, interface_writes junk0 junk1 1 0)
            else (if self.half_10 && mac.half_10
                then (true, interface_writes junk0 junk1 0 0)
                else (false, []))))

-- What is left uninitialised in `vKSZ9893Setup`.
pub record Junk : Type 0 where
  pub drive : ℕ
  pub capabilities : Capabilities
  pub control0 : ℕ
  pub control1 : ℕ

pub drive_strength : ℕ → ℕ
drive_strength junk =
    with_bit 0 1 (with_bit 1 1 (with_bit 2 1 (with_bit 4 1 (with_bit 5 1 (with_bit 6 1 junk)))))

-- The capabilities that the switch is given.
abbrev pub switch_capabilities : Capabilities → Capabilities
switch_capabilities junk = record junk {
  full_100_tx = true;
  half_100_tx = true;
  full_10 = true;
  half_10 = true;
}

-- `set_speed` is `params->setInterfaceSpeed`, on the MAC's state.
pub setup {ℓ} :
    {S : Type ℓ} (junk : Junk) (set_speed : Capabilities → Capabilities → S → Bool × S)
    (mac : Capabilities)
    → S
    → S × Writes
setup junk set_speed mac s =
    let switch : Capabilities = switch_capabilities junk.capabilities in
    (
      (set_speed mac switch s).1,
      ((0x0006, 2 ∷ [])
            ∷ (0x001C, 0 ∷ 0 ∷ 0 ∷ 0 ∷ [])
            ∷ (0x010D, drive_strength junk.drive ∷ [])
            ∷ [])
          ++ (set_mac_interface_speed junk.control0 junk.control1 switch mac).1,
    )

-- The variables of the maintenance task, and what it has said.
pub record Watch : Type 0 where
  pub port_1_was_up : Bool
  pub port_2_was_up : Bool
  pub said : List Message

abbrev pub say : List Message → Watch → Watch
say ms w = record w { said = w.said ++ ms }

-- What is said of port `n`, which has changed to `is_up`.
abbrev pub changed : ℕ → Bool → Bool → List Message
changed n true other_is_up = Message.port_up n ∷ Message.link_status true ∷ []
changed n false true = Message.port_down n ∷ []
changed n false false = Message.port_down n ∷ Message.link_status false ∷ []

abbrev pub differ : Bool → Bool → Bool
differ true b = not b
differ false b = b

pub watch_port_1 : Bool → Bool → Watch → Watch
watch_port_1 up1 up2 w =
    if differ up1 w.port_1_was_up
    then record (say (changed 1 up1 up2) w) { port_1_was_up = up1 }
    else w

pub watch_port_2 : Bool → Bool → Watch → Watch
watch_port_2 up1 up2 w =
    if differ up2 w.port_2_was_up
    then record (say (changed 2 up2 up1) w) { port_2_was_up = up2 }
    else w

-- A round of the loop, given the two LinkStatus bits that are read.
pub round : Bool × Bool → Watch → Watch
round (up1, up2) w = watch_port_2 up1 up2 (watch_port_1 up1 up2 w)

pub initial : Watch
initial = record { port_1_was_up = false; port_2_was_up = false; said = [] }

-- The loop, over the bits that its rounds read.
pub rounds : List (Bool × Bool) → Watch → Watch
rounds [] w = w
rounds (p ∷ ps) w = rounds ps (round p w)
