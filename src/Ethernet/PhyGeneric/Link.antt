-- ===== src/Ethernet/PhyGeneric/Link.antt =====
-- phy_generic.c with samx5xmac.c: the link status that reaches the MAC.
use samlibs.Base.{
  ℕ, ◌≡◌, refl, sym, ap, ◌∙◌, Bool, true, false, not, ◌||◌, List, [], ◌∷◌, Option, none, some,
  Bool-cases, inl, inr, if◌then◌else◌,
}
use samlibs.Ethernet.Link.{Capabilities}
use samlibs.Ethernet.Mac.{Mac, set_interface_speed, link_status_changed}
use samlibs.Ethernet.Mac.Status.{link_status_changed_lem}
use samlibs.Ethernet.PhyGeneric.{
  Phase, Answers, Task, negotiated, read_partner, watch_round, advertise_round, round_in, round,
  rounds, link_status, is_acknowledged, is_complete, self_capabilities, partner_capabilities, same,
}

abbrev pub MacTask : Type 0
MacTask = Task set_interface_speed link_status_changed

-- The MAC's link is up only where the task has seen it up, and its receiver follows its link.
pub record IsSound (t : MacTask) : Type 0 where
  pub link : (not t.mac.link_is_up || t.link_was_up) ≡ true
  pub receiver : t.mac.rxen ≡ t.mac.link_is_up

implies_refl : (b : Bool) → (not b || b) ≡ true
implies_refl true = refl
implies_refl false = refl

-- What is announced: the status if there is a common speed, otherwise no link.
announced :
    (r : Bool) (status : ℕ)
    → (not (if r then link_status status else false) || link_status status) ≡ true
announced true status = implies_refl (link_status status)
announced false status = refl

changed_link : (up : Bool) (m : Mac) → (link_status_changed up m).link_is_up ≡ up
changed_link up m = ap (λ (k : Mac). k.link_is_up) (link_status_changed_lem up m)

changed_receiver :
    (up : Bool) (m : Mac) → (link_status_changed up m).rxen ≡ (link_status_changed up m).link_is_up
changed_receiver up m =
    ap (λ (k : Mac). k.rxen) (link_status_changed_lem up m) ∙ sym (changed_link up m)

same_eq : (a b : Bool) → same a b ≡ true → b ≡ a
same_eq true b h = h
same_eq false true h = cc
same_eq false false h = refl

negotiated-IsSound :
    (status partner : ℕ) (t : MacTask)
    → IsSound t
    → IsSound (negotiated set_interface_speed link_status_changed status partner t)
unfolding negotiated
negotiated-IsSound status partner t h = elim (Bool-cases (is_acknowledged partner)) [
  | inr quiet ↦ rw quiet h
  | inl heard ↦ elim (Bool-cases (same (link_status status) t.link_was_up)) [
    | inl equal ↦
        rw (heard, equal)
          (record {
            link =
                ap (λ b. not t.mac.link_is_up || b)
                  (sym (same_eq (link_status status) t.link_was_up equal))
                ∙ h.link;
            receiver = h.receiver;
          })
    | inr other ↦
        rw (heard, other)
          (record {
            link =
                ap (λ b. not b || link_status status) (changed_link _ _)
                ∙ announced
                    (set_interface_speed (self_capabilities status) (partner_capabilities partner)
                      t.mac).0
                    status;
            receiver = changed_receiver _ _;
          })
  ]
]

read_partner-IsSound :
    (status : ℕ) (partner expansion : Option ℕ) (t : MacTask)
    → IsSound t
    → IsSound (read_partner set_interface_speed link_status_changed status partner expansion t)
unfolding read_partner
read_partner-IsSound status none expansion t h = record { link = h.link; receiver = h.receiver }
read_partner-IsSound status (some partner) none t h = record {
  link = h.link;
  receiver = h.receiver;
}
read_partner-IsSound status (some partner) (some expansion) t h =
    negotiated-IsSound status partner t h

watch_round-IsSound :
    (status : Option ℕ) (a : Answers) (t : MacTask)
    → IsSound t
    → IsSound (watch_round set_interface_speed link_status_changed status a t)
unfolding watch_round
watch_round-IsSound none a t h = record { link = h.link; receiver = h.receiver }
watch_round-IsSound (some status) a t h = elim (Bool-cases (is_complete status)) [
  | inl done ↦ rw done (read_partner-IsSound status a.partner a.expansion t h)
  | inr pending ↦ rw pending h
]

advertise_round-IsSound :
    (mac : Capabilities) (a : Answers) (t : MacTask)
    → IsSound t
    → IsSound (advertise_round set_interface_speed link_status_changed mac a t)
unfolding advertise_round
advertise_round-IsSound mac a t h = elim (Bool-cases a.advertised) [
  | inr failed ↦ rw failed (record { link = h.link; receiver = h.receiver })
  | inl written ↦ elim (Bool-cases a.controlled) [
    | inr failed ↦ rw (written, failed) (record { link = h.link; receiver = h.receiver })
    | inl controlled ↦ rw (written, controlled) (record { link = h.link; receiver = h.receiver })
  ]
]

round_in-IsSound :
    (phase : Phase) (mac : Capabilities) (a : Answers) (t : MacTask)
    → IsSound t
    → IsSound (round_in set_interface_speed link_status_changed phase mac a t)
unfolding round_in
round_in-IsSound Phase.advertise mac a t h = advertise_round-IsSound mac a t h
round_in-IsSound Phase.watch mac a t h = watch_round-IsSound a.status a t h

-- From a MAC without a link on, whatever the PHY answers: the link of the MAC is up only where the last
-- status that the task took notice of was up, and the receiver is on exactly when the link is up.
pub rounds-IsSound :
    (mac : Capabilities) (answers : List Answers) (t : MacTask)
    → t.mac.link_is_up ≡ false
    → t.mac.rxen ≡ false
    → IsSound (rounds set_interface_speed link_status_changed mac answers t)
unfolding rounds round
rounds-IsSound mac answers t hl hr =
    all answers t (record { link = ap (λ b. not b || t.link_was_up) hl; receiver = hr ∙ sym hl })
  where
    all :
        (answers : List Answers) (t : MacTask)
        → IsSound t
        → IsSound (rounds set_interface_speed link_status_changed mac answers t)
    all [] t h = h
    all (a ∷ rest) t h =
        all rest (round set_interface_speed link_status_changed mac a t)
          (round_in-IsSound t.phase mac a t h)
