-- ===== src/Ethernet/Mac/Descriptors/Receive.antt =====
-- samx5xmac.c: a round of the task that handles received frames.
use samlibs.Base.{
  ℕ, zero, suc, ◌+◌, ◌%◌, ◌≡◌, refl, ap, ◌∙◌, Bool, true, false, ◌&&◌, List, [], ◌∷◌, Option, none,
  some, if◌then◌else◌, ok, fault, Fault, get_elem?, set, All-get, arith,
}
use samlibs.Ethernet.Link.{bit}
use samlibs.Ethernet.Mac.Descriptors.{
  RxDescriptor, NetworkBuffer, Received, find_slot, is_owned, get_next_receive_buffer, address_of,
  receive_round, receive_slot, refilled, taken,
}
use samlibs.Ethernet.Mac.Descriptors.Ring.{IsFirst, Finds, find_slot-Finds}

module _ {A : Type 0} (p : A → Bool) where
  IsFirst-find_slot :
      (i : ℕ) (xs : List A) (n : ℕ) (x : A) → IsFirst p xs n x → find_slot p i xs ≡ some (i + n, x)
  unfolding find_slot
  IsFirst-find_slot i [] n x f = cc
  IsFirst-find_slot i (y ∷ ys) zero x f =
      let q : y ≡ x = cc (f.there) in
      let e : i ≡ i + 0 = omega arith in rw (ap p q ∙ f.passes) (λ j. some (e j, q j))
  IsFirst-find_slot i (y ∷ ys) (suc n) x f = rw (f.before 0 y (omega arith) refl) (
      IsFirst-find_slot (suc i) ys n x (record {
        there = f.there;
        passes = f.passes;
        before = λ j z lt g. f.before (suc j) z (omega arith) g;
      })
      ∙ ap (λ k. some (k, x)) (omega arith))

receive_round_exhausted :
    (rx : List RxDescriptor) (i : ℕ) (r : RxDescriptor) (wanted sent : Bool)
    → get_elem? rx i ≡ some r
    → is_owned r ≡ true
    → receive_round none wanted sent rx ≡ fault Fault.null_pointer
unfolding receive_round receive_slot get_next_receive_buffer
receive_round_exhausted rx i r wanted sent g h =
    from (find_slot is_owned 0 rx) (find_slot-Finds is_owned 0 rx)
  where
    from :
        (o : Option (ℕ × RxDescriptor))
        → Finds is_owned 0 rx o
        → receive_slot none wanted sent rx o ≡ fault Fault.null_pointer
    from none f = let q : is_owned r ≡ false = All-get (λ x. is_owned x ≡ false) rx i r f g in cc
    from (some (k, x)) f = refl

pub receive_round_lem :
    (rx : List RxDescriptor) (i : ℕ) (r : RxDescriptor) (d : NetworkBuffer) (wanted sent : Bool)
    → IsFirst is_owned rx i r
    → d.ethernet_buffer % 4 ≡ 0
    → (receive_round (some d) wanted sent rx
        ≡ ok (
          (if wanted && sent then Received.passed (taken r d) else Received.dropped (taken r d)),
          set rx i (refilled r d),
        ))
      × (receive_round none wanted sent rx ≡ fault Fault.null_pointer)
      × (bit 0 (refilled r d).word ≡ 0)
      × (bit 1 (refilled r d).word ≡ bit 1 r.word)
      × (address_of (refilled r d).word ≡ d.ethernet_buffer)
unfolding receive_round receive_slot get_next_receive_buffer
receive_round_lem rx i r d wanted sent f h = (
  ap (receive_slot (some d) wanted sent rx) (IsFirst-find_slot is_owned 0 rx i r f)
      ∙ ap (λ k. receive_slot (some d) wanted sent rx (some (k, r))) at_i,
  receive_round_exhausted rx i r wanted sent f.there f.passes,
  omega arith,
  omega arith,
  omega arith,
)
  where
    at_i : 0 + i ≡ i
    at_i = omega arith
