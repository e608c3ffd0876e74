-- ===== src/Lib.antt =====
-- Verification of samlibs, the libraries of drivers for AT-SAM ARM microcontrollers.
--
-- The program. Each part of the repository drives one peripheral through its registers, and
-- is called by tasks of the application and by interrupt vectors. The modelled ones are:
--   - the pins (gpio/samgpio.c) and the parts of system: the clocks (samclk.c), external interrupts
--     (sameic.c), the interrupt controller (saminterrupt.c), events (samevent.c), the serial number;
--   - what builds on these: timers (counters/pwm.c, counters/samcapture.c), the configurable logic
--     (logic/ccl.c), the debug interface (comm/debug_interface.c);
--   - the serial parts: the pads and rates of the SERCOM (comm/sercom.c), on which the others build;
--     the DMX/RDM port (dmx), the RS-485 port (comm/rs485.c), two I2C masters (comm/i2c_interrupt.c
--     and comm/i2c.c) with the EEPROM that uses the second (comm/devices/at24mac.c), shift registers
--     on pins and on a SERCOM (comm/devices/gpio_shiftregisters.c, comm/devices/spi_shiftregisters.c);
--   - the network interfaces, under FreeRTOS/TCP/portable/NetworkInterface: the MAC of the SAMx5x with
--     its pool of network buffers, the task of a generic PHY and that of the switch KSZ9893, which tell
--     the MAC the state and the speed of the link, and the controller ENC28J60 on an SPI;
--   - the parsers and the causes of a reset of utilities.c.
-- Interrupt handlers and tasks share a structure: a call of the application fills it
-- and enables an interrupt, the handler advances it and notifies the task.
--
-- The files:
--   Base        shared names; Lists: C arrays; Counts: how often a number occurs; Faults: undefined
--               behaviour as values; Bits: disjoint fields under a bitwise or; Tests: Boolean tests on
--               numbers.
--   Utilities   utilities.c: Hex holds hexParseUint8 to hexParseUint32, Hex/Parse their grammar; Reset
--               the causes of a reset.
--   Gpio        gpio/samgpio.c: every function; Refinement: against a pin that stands alone; Level:
--               reading back; Pinmux: samgpio_getModulePinmux; There: the accesses to an existing pin.
--   System      Clocks: system/samclk.c (Enabled: over sequences of calls); Eic: system/sameic.c
--               (Handler: EIC_Handler; Config: sam_EICConfigExt); Interrupts: system/saminterrupt.c;
--               Events: system/samevent.c; SerialNumber: system/serialnumber.c.
--   Counters    Pwm: counters/pwm.c (Once: a second initialisation); Capture: counters/samcapture.c
--               (Pins: on which pins).
--   Logic       logic/ccl.c; Steps: sequences of vCCLInit.
--   DebugInterface  comm/debug_interface.c; Lines: what a string looks like on the line.
--   Sercom      comm/sercom.c: tables and rates; Pads: the pads that the fields select; Baud: divisors.
--   Dmx         dmx/dmx.c and dmx/rdm.c. Port: dmx.h; Buffers: pDmxPortGetNextBuffer and
--               vDmxCopyFrame (Choice, Copy); Receive: the receiving half of vDmxInterruptHandler
--               (Equations: its branches; Frame: a whole frame; Safety and Totality: every input;
--               Alias: the last valid frame); Transmit: xDmxSendFrame, the transmitting half
--               (Phases: each state; Packet: a whole packet; Overrun: a frame that was received); Rdm: the
--               checksums. Setup: xDmxInitSercom, vDmxSetupPins, vDmxSwapRxTxPins and a round of
--               vDmxTask (Ready: an initialised port; Swap: the pads afterwards).
--   Rs485       comm/rs485.c. Port: rs485.h, xRs485Init and the LED; Send: the calls of the
--               application, xRs485ReceiveChar in Poll; Interrupt: vRs485InterruptHandler (Receive: an
--               addressed message; Message: a message that is sent; Safety: every input).
--   I2c         Interrupt: comm/i2c_interrupt.c (Write, Read: whole transactions; Again: a transaction
--               that is used again); Polled: comm/i2c.c (Bytes: reading; Write: writing); Order: the
--               two orders of bytes.
--   At24mac     comm/devices/at24mac.c.
--   GpioShiftRegisters  comm/devices/gpio_shiftregisters.c; Exchange: a whole message.
--   SpiShiftRegisters   comm/devices/spi_shiftregisters.c: the blocking transfer (Transfer) and
--               that of the interrupts (Interrupt).
--   Ethernet    Link: the capabilities of common/IEEE802Definitions.h. Mac: samx5xmac.c, the link and
--               the management of the PHY, GMAC_Handler (Station: the MAC address; Status: the link;
--               Descriptors: the rings of received and of sent frames, with Ring, Receive and Transmit;
--               Pool: samx5xmac_buffers.c, with its Invariant and Refinement; Serial: the PHY over I2C). Ksz9893: ksz9893.c
--               (Link: the maintenance task; Setup: the speed). PhyGeneric: phy_generic.c.
--               Enc28j60: the registers of enc28j60.c (Bank, Access: the banks; Buffer: the packet
--               buffer), Nic: NetworkInterface.c (Semaphore: its outgoing half; Pointer: the read
--               pointer; Initialise), Interrupt: enc28j60_int.c (Transfer: a whole message).
-- Modules called Tests hold concrete runs.
--
-- Conventions. A C structure is a record with the names of its fields in the library's spelling, and
-- what a function changes is passed and returned. The registers that a function writes, the
-- pins and the notifications of tasks are entries of a log, the newest last, so that an equation of logs
-- states what happens on the line and in which order; the interrupt enables that a handler reads
-- back are fields as well. A pointer to bytes is an optional list, NULL or the memory it points
-- to; a DmxBuffer_t pointer is an optional index into the buffers of the system, so that
-- the port and the application may share one, and a network buffer is a number. NULL dereferences,
-- accesses out of bounds and a failed configASSERT are faults of the type Result. Counters wrap
-- around at their width, which is written out. Callbacks of the application are functions on the
-- buffers; theorems that need it assume that they keep the shape of the buffers.
--
-- Hardware. Flags that the hardware raises are arguments: the characters that wait, with
-- their errors, and the flags of the moment. A loop that waits for a flag ends as the argument says: in
-- I2c/Polled a wire numbers the waits and answers each, and a wait without a timeout that is never
-- answered is the fault `hangs`. CONF_CPU_FREQUENCY, the macros of the pins (the record Decoding) and
-- the positions of flags in registers are parameters. The flags of the external interrupts are cleared by
-- the ones that are written. The ENC28J60 answers as a function of all that was sent before; what a PHY
-- answers is an argument of each round of its task.
--
-- FreeRTOS. What the network interfaces use of it is a parameter: the lists of the kernel are the
-- record Kernel of Ethernet/Mac/Pool, whose laws are the documented ones, and whether a semaphore is
-- obtained, a buffer is free or the stack takes a frame are arguments.
--
-- Fuel. The loop on DRE at the end of vDmxInterruptHandler runs twice at most, since its body
-- disables the interrupt that it tests; that of SpiShiftRegisters has as many rounds as the message
-- has bytes, and one more, and a transfer that ran out would be the fault `hangs`. In
-- Ethernet/Enc28j60 the wait for the PHY and the loop over the packets end as the controller answers:
-- both have fuel, and running out of it is the fault `hangs`. The endless loops of tasks are
-- functions of one round, iterated over the answers of each. All else recurses on the characters, bytes,
-- or the C counter of the loop (5000 in xRs485ReceiveChar, 10 for the management of a PHY).
--
-- Not modelled: FreeRTOS and FreeRTOS+TCP, which the repository holds as copies, and which appear as
-- the log entries for a notification or a queue; the output of faults.c, which is mostly
-- assembly; ulSercomBaudrateToRegisterArithmetic, which computes in floating point and is a parameter
-- of Rs485/Port and Dmx/Setup, and debug_init, which does too; of
-- the MAC the initialisation of the hardware and vSAMx5xInitializeBuffers; the PHY
-- KSZ8091; the SAMD20 in system/samclk.c, whose branch does not compile.
pub mod Base
pub mod Utilities
pub mod Dmx
pub mod Sercom
pub mod Rs485
pub mod I2c
pub mod At24mac
pub mod GpioShiftRegisters
pub mod SpiShiftRegisters
pub mod Counters
pub mod Logic
pub mod DebugInterface
pub mod Gpio
pub mod Ethernet
pub mod System
