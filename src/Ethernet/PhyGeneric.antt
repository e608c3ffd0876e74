-- ===== src/Ethernet/PhyGeneric.antt =====
-- FreeRTOS/TCP/portable/NetworkInterface/common/phy_generic.c: the negotiation of the link.
--
-- The functions that reach the PHY and the MAC are pointers in the parameters of the task: what an
-- access to the PHY ends with is an input, the MAC has a state `S`. The loops are a state machine
-- with one step for each round.
pub mod Link
use samlibs.Base.{
  ℕ, zero, suc, ◌+◌, ◌*◌, ◌/◌, ◌%◌, ◌^◌, Bool, true, false, not, ◌&&◌, ◌||◌, List, [], ◌∷◌, ◌++◌,
  Option, none, some, if◌then◌else◌, one_if, ◌==◌,
}
use samlibs.Ethernet.Link.{Capabilities, bit}

-- Where the task is: before the two writes, or in the inner loop.
pub data Phase : Type 0 where
  advertise watch : Phase

-- The PHY's answers in a round. `none` is a failed read.
pub record Answers : Type 0 where
  pub advertised : Bool
  pub controlled : Bool
  pub status : Option ℕ
  pub partner : Option ℕ
  pub expansion : Option ℕ

abbrev pub is_set : ℕ → ℕ → Bool
is_set k w = bit k w == 1

-- The advertisement register: the four modes, and the selector field of IEEE 802.3, which is 1.
pub advertisement : Capabilities → ℕ
advertisement mac =
    1
    + one_if mac.half_10 * 2 ^ 5
    + one_if mac.full_10 * 2 ^ 6
    + one_if mac.half_100_tx * 2 ^ 7
    + one_if mac.full_100_tx * 2 ^ 8

-- Auto-negotiation, full duplex and 100 Mbit/s.
abbrev pub basic_control : ℕ
basic_control = 2 ^ 12 + 2 ^ 8 + 2 ^ 13

abbrev pub self_capabilities : ℕ → Capabilities
self_capabilities status = record {
  half_10 = is_set 11 status;
  full_10 = is_set 12 status;
  half_100_tx = is_set 13 status;
  half_100_t4 = is_set 15 status;
  full_100_tx = is_set 14 status;
  further = 0;
}

abbrev pub partner_capabilities : ℕ → Capabilities
partner_capabilities partner = record {
  half_10 = is_set 5 partner;
  full_10 = is_set 6 partner;
  half_100_tx = is_set 7 partner;
  half_100_t4 = is_set 9 partner;
  full_100_tx = is_set 8 partner;
  further = 0;
}

abbrev pub link_status : ℕ → Bool
link_status status = is_set 2 status

abbrev pub is_complete : ℕ → Bool
is_complete status = is_set 5 status

abbrev pub is_acknowledged : ℕ → Bool
is_acknowledged partner = is_set 14 partner

abbrev pub same : Bool → Bool → Bool
same true b = b
same false b = not b

module _ {S : Type 0} (set_speed : Capabilities → Capabilities → S → Bool × S)
    (change : Bool → S → S) where
  -- `linkWasUp`, the MAC, and the registers that were written, the newest last.
  pub record Task : Type 0 where
    pub phase : Phase
    pub link_was_up : Bool
    pub mac : S
    pub writes : List (ℕ × ℕ)

  -- A change of the link: the speed is set, and the status is handed on if that succeeds.
  abbrev pub announce : ℕ → ℕ → S → S
  announce status partner m =
      let r : Bool × S = set_speed (self_capabilities status) (partner_capabilities partner) m in
      change (if r.0 then link_status status else false) r.1

  pub negotiated : ℕ → ℕ → Task → Task
  negotiated status partner t =
      if is_acknowledged partner
      then record t {
        mac =
            if same (link_status status) t.link_was_up
            then t.mac
            else announce status partner t.mac;
        link_was_up = link_status status;
      }
      else t

  -- The reads behind a complete negotiation; a failed one leaves the inner loop.
  pub read_partner : ℕ → Option ℕ → Option ℕ → Task → Task
  read_partner status none expansion t = record t { phase = Phase.advertise }
  read_partner status (some partner) none t = record t { phase = Phase.advertise }
  read_partner status (some partner) (some expansion) t = negotiated status partner t

  pub watch_round : Option ℕ → Answers → Task → Task
  watch_round none a t = record t { phase = Phase.advertise }
  watch_round (some status) a t =
      if is_complete status then read_partner status a.partner a.expansion t else t

  -- The writes at the start of the outer loop.
  pub advertise_round : Capabilities → Answers → Task → Task
  advertise_round mac a t =
      let t1 : Task = record t { writes = t.writes ++ (4, advertisement mac) ∷ [] } in
      let t2 : Task = record t1 { writes = t1.writes ++ (0, basic_control) ∷ [] } in
      if not a.advertised
      then t1
      else (if not a.controlled then t2 else record t2 { phase = Phase.watch })

  pub round_in : Phase → Capabilities → Answers → Task → Task
  round_in Phase.advertise mac a t = advertise_round mac a t
  round_in Phase.watch mac a t = watch_round a.status a t

  pub round : Capabilities → Answers → Task → Task
  round mac a t = round_in t.phase mac a t

  pub rounds : Capabilities → List Answers → Task → Task
  rounds mac [] t = t
  rounds mac (a ∷ rest) t = rounds mac rest (round mac a t)
