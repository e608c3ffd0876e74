-- ===== src/Ethernet/Mac/Descriptors.antt =====
-- samx5xmac.c: the descriptors that the driver shares with the GMAC.
--
-- An address is a number, and 0 is NULL. The buffers and the network descriptors come from
-- FreeRTOS+TCP: what its functions return is an argument here, and what is given back is a `Release`.
pub mod Ring
pub mod Receive
pub mod Transmit
use samlibs.Base.{
  ℕ, zero, suc, ◌+◌, ◌-◌, ◌%◌, ◌^◌, Bool, true, false, ◌&&◌, List, [], ◌∷◌, ◌++◌, Option, none,
  some, if◌then◌else◌, ◌==◌, Result, ok, ◌>>=◌, deref, set, replicate,
}
use samlibs.Ethernet.Link.{bit, with_bit}
use samlibs.Ethernet.Mac.{Mac, MacEvent, emit}

-- `Word0` holds the address with the flags Ownership and Wrap in its bits 0 and 1.
pub record RxDescriptor : Type 0 where
  pub word : ℕ
  pub frame_length : ℕ

pub record TxDescriptor : Type 0 where
  pub address : ℕ
  pub buffer_length : ℕ
  pub last_buffer : Bool
  pub wrap : Bool
  pub used : Bool

-- `NetworkBufferDescriptor_t`
pub record NetworkBuffer : Type 0 where
  pub name : ℕ
  pub ethernet_buffer : ℕ
  pub data_length : ℕ

pub data Release : Type 0 where
  descriptor : NetworkBuffer → Release
  buffer : ℕ → Release

-- `ipconfigNUM_RX_BUFFERS` and `ipconfigNUM_TX_BUFFERS`
abbrev pub num_buffers : ℕ
num_buffers = 5

-- The first descriptor that passes the test, with its index.
pub find_slot {ℓ} : {A : Type ℓ} → (A → Bool) → ℕ → List A → Option (ℕ × A)
find_slot p i [] = none
find_slot p i (x ∷ xs) =
    let later : Option (ℕ × _) = find_slot p (suc i) xs in if p x then some (i, x) else later

abbrev pub is_owned : RxDescriptor → Bool
is_owned r = bit 0 r.word == 1

abbrev pub is_used : TxDescriptor → Bool
is_used t = t.used

pub get_next_receive_buffer : List RxDescriptor → Option (ℕ × RxDescriptor)
get_next_receive_buffer rx = find_slot is_owned 0 rx

pub get_next_transmit_buffer : List TxDescriptor → Option (ℕ × TxDescriptor)
get_next_transmit_buffer tx = find_slot is_used 0 tx

-- `& SAMx5xMAC_ReceiveAddressMask`
abbrev pub address_of : ℕ → ℕ
address_of word = word - word % 4

abbrev pub fresh_tx : Bool → TxDescriptor
fresh_tx wrap = record {
  address = 0;
  buffer_length = 0;
  last_buffer = false;
  wrap = wrap;
  used = true;
}

abbrev pub fresh_rx : ℕ → ℕ → RxDescriptor
fresh_rx address wrap = record {
  word = with_bit 1 wrap (with_bit 0 0 (address_of address));
  frame_length = 0;
}

-- The receive descriptors from the `x`-th on, `n` before the last; `supply` numbers what
-- `pucGetNetworkBuffer` returns.
pub init_receive : (ℕ → ℕ) → ℕ → ℕ → List RxDescriptor
init_receive supply zero x = fresh_rx (supply x) 1 ∷ []
init_receive supply (suc n) x = fresh_rx (supply x) 0 ∷ init_receive supply n (suc x)

pub init_buffers : (ℕ → ℕ) → List TxDescriptor × List RxDescriptor
init_buffers supply =
    (set (replicate num_buffers (fresh_tx false)) 4 (fresh_tx true), init_receive supply 4 0)

-- What becomes of a round of the task that handles received frames.
pub data Received : Type 0 where
  no_frame : Received
  passed dropped : NetworkBuffer → Received

-- The frame's buffer goes to `d`, and the buffer of `d` to the slot.
abbrev pub taken : RxDescriptor → NetworkBuffer → NetworkBuffer
taken r d = record d { ethernet_buffer = address_of r.word; data_length = r.frame_length % 2 ^ 13 }

abbrev pub refilled : RxDescriptor → NetworkBuffer → RxDescriptor
refilled r d = record r { word = with_bit 1 (bit 1 r.word) d.ethernet_buffer }

-- `answer` is what `pxGetNetworkBufferWithDescriptor` returns, `wanted` what
-- `eConsiderFrameForProcessing` says, `sent` whether the IP task takes the event.
pub receive_slot :
    Option NetworkBuffer
    → Bool
    → Bool
    → List RxDescriptor
    → Option (ℕ × RxDescriptor)
    → Result (Received × List RxDescriptor)
receive_slot answer wanted sent rx none = ok (no_frame, rx)
receive_slot answer wanted sent rx (some (i, r)) = do
  d ← deref answer
  ok ((if wanted && sent then passed (taken r d) else dropped (taken r d)), set rx i (refilled r d))

pub receive_round :
    Option NetworkBuffer → Bool → Bool → List RxDescriptor → Result (Received × List RxDescriptor)
unfolding receive_slot
receive_round answer wanted sent rx =
    receive_slot answer wanted sent rx (get_next_receive_buffer rx)

abbrev pub outgoing : NetworkBuffer → TxDescriptor → TxDescriptor
outgoing d t = record {
  address = d.ethernet_buffer;
  buffer_length = d.data_length % 2 ^ 14;
  last_buffer = true;
  wrap = t.wrap;
  used = false;
}

-- THALT, TXEN, the interrupts and TSTART.
abbrev pub started : Mac → Mac
started m = record m {
  txen = true;
  enabled = record m.enabled { tcomp = true; tur = true; tfc = true; rlex = true };
  events = m.events ++ MacEvent.halt_of_transmission ∷ MacEvent.start_of_transmission ∷ [];
}

abbrev pub releases : NetworkBuffer → Bool → ℕ → List Release
releases d release previous =
    (if release then Release.descriptor (record d { ethernet_buffer = 0 }) ∷ [] else [])
    ++ (if previous == 0 then [] else Release.buffer previous ∷ [])

pub output_slot :
    NetworkBuffer
    → Bool
    → List TxDescriptor
    → Mac
    → Option (ℕ × TxDescriptor)
    → Bool × List TxDescriptor × Mac × List Release
output_slot d release tx m none =
    (false, tx, m, (if release then Release.descriptor d ∷ [] else []))
output_slot d release tx m (some (i, t)) =
    (true, set tx i (outgoing d t), started m, releases d release t.address)

pub output_frame :
    NetworkBuffer → Bool → List TxDescriptor → Mac → Bool × List TxDescriptor × Mac × List Release
unfolding output_slot
output_frame d release tx m = output_slot d release tx m (get_next_transmit_buffer tx)
