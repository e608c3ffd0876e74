-- ===== src/Ethernet/Mac/Descriptors/Ring.antt =====
-- samx5xmac.c: the order of the descriptors, and where they wrap.
use samlibs.Base.{
  ℕ, zero, suc, ◌+◌, ◌<◌, ◌≡◌, refl, sym, ap, ◌∙◌, Bool, true, false, List, [], ◌∷◌, Option, none,
  some, ok, ok-injective, Bool-cases, inl, inr, All, get_elem?, set, arith,
}
use mathlib.Core.List.{map}
use samlibs.Ethernet.Link.{bit, with_bit}
use samlibs.Ethernet.Mac.{Mac}
use samlibs.Ethernet.Mac.Descriptors.{
  RxDescriptor, TxDescriptor, NetworkBuffer, Received, find_slot, is_owned, is_used,
  get_next_receive_buffer, get_next_transmit_buffer, init_receive, init_buffers, receive_round,
  receive_slot, output_frame, output_slot, refilled, outgoing,
}

module _ {A : Type 0} where
  -- A slot that is found passes the test, and none before it does.
  pub record IsFirst (p : A → Bool) (xs : List A) (i : ℕ) (x : A) : Type 0 where
    pub there : get_elem? xs i ≡ some x
    pub passes : p x ≡ true
    pub before : (j : ℕ) (y : A) → j < i → get_elem? xs j ≡ some y → p y ≡ false

  abbrev pub Finds : (A → Bool) → ℕ → List A → Option (ℕ × A) → Type 0
  Finds p i xs none = All (λ x. p x ≡ false) xs
  Finds p i xs (some (k, x)) = (n : ℕ) × (k ≡ i + n) × IsFirst p xs n x

  step :
      (p : A → Bool) (i : ℕ) (x : A) (xs : List A) (o : Option (ℕ × A))
      → p x ≡ false
      → Finds p (suc i) xs o
      → Finds p i (x ∷ xs) o
  step p i x xs none e h = (e, h)
  step p i x xs (some (k, y)) e (n, eq, f) =
      (suc n, (omega arith), record { there = f.there; passes = f.passes; before = earlier })
    where
      earlier : (j : ℕ) (z : A) → j < suc n → get_elem? (x ∷ xs) j ≡ some z → p z ≡ false
      earlier zero z lt g = ground (arith, e)
      earlier (suc j) z lt g = f.before j z (omega arith) g

  pub find_slot-Finds : (p : A → Bool) (i : ℕ) (xs : List A) → Finds p i xs (find_slot p i xs)
  unfolding find_slot
  find_slot-Finds p i [] = tt
  find_slot-Finds p i (x ∷ xs) = elim (Bool-cases (p x)) [
    | inl e ↦ rw e (
      0,
      (omega arith),
      record { there = refl; passes = e; before = λ j y lt g. absurd (omega arith) },
    )
    | inr e ↦ rw e (step p i x xs (find_slot p (suc i) xs) e (find_slot-Finds p (suc i) xs))
  ]

  pub found :
      (p : A → Bool) (xs : List A) (i : ℕ) (x : A)
      → Finds p 0 xs (some (i, x))
      → get_elem? xs i ≡ some x
  found p xs i x (n, e, f) = let q : i ≡ n = omega arith in ap (get_elem? xs) q ∙ f.there

-- The wrap flags of the descriptors, in order.
abbrev pub rx_wraps : List RxDescriptor → List ℕ
rx_wraps rx = map (λ r. bit 1 r.word) rx

abbrev pub tx_wraps : List TxDescriptor → List Bool
tx_wraps tx = map (λ t. t.wrap) tx

module _ {A B : Type 0} (f : A → B) where
  map-set_same :
      (xs : List A) (i : ℕ) (x v : A)
      → get_elem? xs i ≡ some x
      → f v ≡ f x
      → map f (set xs i v) ≡ map f xs
  map-set_same [] i x v h e = refl
  map-set_same (y ∷ ys) zero x v h e = let q : x ≡ y = cc in ap (λ k. k ∷ map f ys) (e ∙ ap f q)
  map-set_same (y ∷ ys) (suc i) x v h e = ap (λ k. f y ∷ k) (map-set_same ys i x v h e)

bit-with_bit : (v w : ℕ) → v < 2 → bit 1 (with_bit 1 v w) ≡ v
bit-with_bit v w h = omega arith

-- What happens to the two rings, one step after another: the driver's task, the driver's output,
-- and the GMAC, which gives a descriptor back with its own flags and the length of a frame.
pub record Rings : Type 0 where
  pub rx : List RxDescriptor
  pub tx : List TxDescriptor

pub data Step (g : Rings) : Rings → Type 0 where
  receives :
      (answer : Option NetworkBuffer) (wanted sent : Bool) (what : Received)
      (rx' : List RxDescriptor)
      → receive_round answer wanted sent g.rx ≡ ok (what, rx')
      → Step g (record g { rx = rx' })
  outputs :
      (d : NetworkBuffer) (release : Bool) (m : Mac)
      → Step g (record g { tx = (output_frame d release g.tx m).1 })
  frame_arrives :
      (i frame_length : ℕ) (r : RxDescriptor)
      → get_elem? g.rx i ≡ some r
      → Step g (record g {
        rx = set g.rx i (record r { word = with_bit 0 1 r.word; frame_length = frame_length });
      })
  frame_leaves :
      (i : ℕ) (t : TxDescriptor)
      → get_elem? g.tx i ≡ some t
      → Step g (record g { tx = set g.tx i (record t { used = true }) })

pub data Reach (g : Rings) : Rings → Type 0 where
  here : Reach g g
  next : {h k : Rings} → Reach g h → Step h k → Reach g k

-- The last descriptor of each ring, and no other, tells the GMAC to go on with the first.
pub record IsRing (g : Rings) : Type 0 where
  pub rx : rx_wraps g.rx ≡ 0 ∷ 0 ∷ 0 ∷ 0 ∷ 1 ∷ []
  pub tx : tx_wraps g.tx ≡ false ∷ false ∷ false ∷ false ∷ true ∷ []

abbrev pub initialised : (ℕ → ℕ) → Rings
initialised supply = record { rx = (init_buffers supply).1; tx = (init_buffers supply).0 }

init_buffers-IsRing : (supply : ℕ → ℕ) → IsRing (initialised supply)
unfolding init_buffers init_receive
init_buffers-IsRing supply = record { rx = ground arith; tx = refl }

receive_slot_wraps :
    (answer : Option NetworkBuffer) (wanted sent : Bool) (rx : List RxDescriptor)
    (o : Option (ℕ × RxDescriptor)) (what : Received) (rx' : List RxDescriptor)
    → Finds is_owned 0 rx o
    → receive_slot answer wanted sent rx o ≡ ok (what, rx')
    → rx_wraps rx' ≡ rx_wraps rx
unfolding receive_slot
receive_slot_wraps answer wanted sent rx none what rx' f h =
    ap (λ (p : Received × List RxDescriptor). rx_wraps p.1) (sym (ok-injective h))
receive_slot_wraps none wanted sent rx (some (i, r)) what rx' f h = cc
receive_slot_wraps (some d) wanted sent rx (some (i, r)) what rx' (n, e, f) h =
    ap (λ (p : Received × List RxDescriptor). rx_wraps p.1) (sym (ok-injective h))
    ∙ map-set_same (λ r. bit 1 r.word) rx i r (refilled r d) (found is_owned rx i r (n, e, f))
        (bit-with_bit (bit 1 r.word) d.ethernet_buffer (omega arith))

output_slot_wraps :
    (d : NetworkBuffer) (release : Bool) (tx : List TxDescriptor) (m : Mac)
    (o : Option (ℕ × TxDescriptor))
    → Finds is_used 0 tx o
    → tx_wraps (output_slot d release tx m o).1 ≡ tx_wraps tx
unfolding output_slot
output_slot_wraps d release tx m none f = refl
output_slot_wraps d release tx m (some (i, t)) (n, e, f) =
    map-set_same (λ t. t.wrap) tx i t (outgoing d t) (found is_used tx i t (n, e, f)) refl

Step-IsRing : {g h : Rings} → IsRing g → Step g h → IsRing h
unfolding receive_round output_frame get_next_receive_buffer get_next_transmit_buffer
Step-IsRing {g} v (receives answer wanted sent what rx' e) = record {
  rx =
      receive_slot_wraps answer wanted sent g.rx _ what rx' (find_slot-Finds is_owned 0 g.rx) e
      ∙ v.rx;
  tx = v.tx;
}
Step-IsRing {g} v (outputs d release m) = record {
  rx = v.rx;
  tx = output_slot_wraps d release g.tx m _ (find_slot-Finds is_used 0 g.tx) ∙ v.tx;
}
Step-IsRing {g} v (frame_arrives i n r e) = record {
  rx =
      map-set_same (λ r. bit 1 r.word) g.rx i r
        (record r { word = with_bit 0 1 r.word; frame_length = n }) e (omega arith)
      ∙ v.rx;
  tx = v.tx;
}
Step-IsRing {g} v (frame_leaves i t e) = record {
  rx = v.rx;
  tx = map-set_same (λ t. t.wrap) g.tx i t (record t { used = true }) e refl ∙ v.tx;
}

-- From the initialisation on, whatever is received, sent and given back by the GMAC, the last
-- descriptor of each ring of five wraps, and no other.
pub Reach-IsRing : (supply : ℕ → ℕ) {g : Rings} → Reach (initialised supply) g → IsRing g
Reach-IsRing supply here = init_buffers-IsRing supply
Reach-IsRing supply (next r s) = Step-IsRing (Reach-IsRing supply r) s
