-- ===== src/Ethernet/Ksz9893/Link.antt =====
-- ksz9893.c with samx5xmac.c: the link status that reaches the MAC.
use samlibs.Base.{
  ◌≡◌, refl, sym, ap, subst, append-nil, append_assoc, if◌then◌else◌, ◌∙◌, Bool, false, ◌||◌, List,
  [], ◌∷◌, ◌++◌, arith,
}
use samlibs.Ethernet.Mac.{Mac, link_status_changed}
use samlibs.Ethernet.Mac.Status.{told, link_status_changed_lem}
use samlibs.Ethernet.Ksz9893.{
  Message, Watch, round, rounds, initial, watch_port_1, watch_port_2, differ, changed,
}

-- The calls of `linkStatusChange`, made by the MAC.
pub deliver : List Message → Mac → Mac
deliver [] m = m
deliver (Message.link_status up ∷ ms) m = deliver ms (link_status_changed up m)
deliver (Message.port_up n ∷ ms) m = deliver ms m
deliver (Message.port_down n ∷ ms) m = deliver ms m

deliver-append : (xs ys : List Message) (m : Mac) → deliver (xs ++ ys) m ≡ deliver ys (deliver xs m)
unfolding deliver
deliver-append [] ys m = refl
deliver-append (Message.link_status up ∷ xs) ys m = deliver-append xs ys (link_status_changed up m)
deliver-append (Message.port_up n ∷ xs) ys m = deliver-append xs ys m
deliver-append (Message.port_down n ∷ xs) ys m = deliver-append xs ys m

-- The MAC, once it has been told what the task has said, has the link up and receives exactly when
-- the task has seen one of the two ports up.
pub record Agrees (start : Mac) (w : Watch) : Type 0 where
  pub link : (deliver w.said start).link_is_up ≡ (w.port_1_was_up || w.port_2_was_up)
  pub receiver : (deliver w.said start).rxen ≡ (w.port_1_was_up || w.port_2_was_up)

-- The last status that is told, if any is.
abbrev last_status : List Message → Bool → Bool
last_status [] old = old
last_status (Message.link_status up ∷ ms) old = last_status ms up
last_status (Message.port_up n ∷ ms) old = last_status ms old
last_status (Message.port_down n ∷ ms) old = last_status ms old

deliver_status :
    (ms : List Message) (m : Mac) (b : Bool)
    → m.link_is_up ≡ b
    → m.rxen ≡ b
    → ((deliver ms m).link_is_up ≡ last_status ms b) × ((deliver ms m).rxen ≡ last_status ms b)
unfolding deliver
deliver_status [] m b hl hr = (hl, hr)
deliver_status (Message.link_status up ∷ ms) m b hl hr =
    let e : link_status_changed up m
        ≡ record m { rxen = up; link_is_up = up; events = m.events ++ told up m.has_init_task } =
      link_status_changed_lem up m in
    deliver_status ms (link_status_changed up m) up (ap (λ (k : Mac). k.link_is_up) e)
      (ap (λ (k : Mac). k.rxen) e)
deliver_status (Message.port_up n ∷ ms) m b hl hr = deliver_status ms m b hl hr
deliver_status (Message.port_down n ∷ ms) m b hl hr = deliver_status ms m b hl hr

-- What a round says.
abbrev news : Bool → Bool → Bool → Bool → List Message
news up1 up2 was1 was2 =
    (if differ up1 was1 then changed 1 up1 up2 else [])
    ++ (if differ up2 was2 then changed 2 up2 up1 else [])

round-news :
    (up1 up2 : Bool) (w : Watch)
    → round (up1, up2) w ≡ record {
      port_1_was_up = up1;
      port_2_was_up = up2;
      said = w.said ++ news up1 up2 w.port_1_was_up w.port_2_was_up;
    }
unfolding round watch_port_1 watch_port_2
round-news up1 up2 w =
    ground (arith, append-nil w.said, append_assoc w.said (changed 1 up1 up2) (changed 2 up2 up1))

news_status :
    (up1 up2 was1 was2 : Bool) → last_status (news up1 up2 was1 was2) (was1 || was2) ≡ (up1 || up2)
news_status up1 up2 was1 was2 = ground arith

pub round-Agrees :
    (start : Mac) (p : Bool × Bool) (w : Watch) → Agrees start w → Agrees start (round p w)
round-Agrees start (up1, up2) w h =
    let ms : List Message = news up1 up2 w.port_1_was_up w.port_2_was_up in
    let (l, r) = deliver_status ms (deliver w.said start) _ h.link h.receiver in
    let s : last_status ms (w.port_1_was_up || w.port_2_was_up) ≡ (up1 || up2) =
      news_status up1 up2 w.port_1_was_up w.port_2_was_up in
    let e : deliver (w.said ++ ms) start ≡ deliver ms (deliver w.said start) =
      deliver-append w.said ms start in
    subst (Agrees start) (sym (round-news up1 up2 w)) (record {
      link = ap (λ (k : Mac). k.link_is_up) e ∙ l ∙ s;
      receiver = ap (λ (k : Mac). k.rxen) e ∙ r ∙ s;
    })

rounds-Agrees :
    (start : Mac) (ps : List (Bool × Bool)) (w : Watch)
    → Agrees start w
    → Agrees start (rounds ps w)
unfolding rounds
rounds-Agrees start [] w h = h
rounds-Agrees start (p ∷ ps) w h = rounds-Agrees start ps (round p w) (round-Agrees start p w h)

rounds-append :
    (ps : List (Bool × Bool)) (p : Bool × Bool) (w : Watch)
    → rounds (ps ++ p ∷ []) w ≡ round p (rounds ps w)
unfolding rounds
rounds-append [] p w = refl
rounds-append (q ∷ ps) p w = rounds-append ps p (round q w)

-- From a MAC whose link is down and whose receiver is off on, whatever the rounds of the task have
-- read: once what they said is delivered, the link is up and the receiver on exactly when the last
-- round has read a link on one of the two ports.
pub rounds_lem :
    (start : Mac) (ps : List (Bool × Bool)) (up1 up2 : Bool)
    → start.link_is_up ≡ false
    → start.rxen ≡ false
    → ((deliver (rounds (ps ++ (up1, up2) ∷ []) initial).said start).link_is_up ≡ (up1 || up2))
      × ((deliver (rounds (ps ++ (up1, up2) ∷ []) initial).said start).rxen ≡ (up1 || up2))
unfolding initial deliver
rounds_lem start ps up1 up2 hl hr =
    let w : Watch = rounds (ps ++ (up1, up2) ∷ []) initial in
    let h : Agrees start w =
      rounds-Agrees start (ps ++ (up1, up2) ∷ []) initial (record { link = hl; receiver = hr }) in
    let e : (w.port_1_was_up || w.port_2_was_up) ≡ (up1 || up2) =
      ap (λ (k : Watch). k.port_1_was_up || k.port_2_was_up)
        (rounds-append ps (up1, up2) initial ∙ round-news up1 up2 (rounds ps initial)) in
    (h.link ∙ e, h.receiver ∙ e)
