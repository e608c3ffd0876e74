-- ===== src/Ethernet/Mac/Descriptors/Transmit.antt =====
-- samx5xmac.c: where the buffers of outgoing frames go.
use samlibs.Base.{
  ℕ, zero, suc, ◌+◌, ◌≡◌, ◌≢◌, ap, Bool, true, false, ◌||◌, List, [], ◌∷◌, Option, none, some,
  if◌then◌else◌, ◌==◌, get_elem?, set, one_if, count, arith,
}
use mathlib.Core.List.{map}
use samlibs.Ethernet.Mac.{Mac}
use samlibs.Ethernet.Mac.Descriptors.{
  TxDescriptor, NetworkBuffer, Release, find_slot, is_used, get_next_transmit_buffer, output_slot,
  output_frame, outgoing, releases,
}
use samlibs.Ethernet.Mac.Descriptors.Ring.{Finds, find_slot-Finds, found}

abbrev pub buffers : List TxDescriptor → List ℕ
buffers tx = map (λ t. t.address) tx

-- The buffers that are given back, with their descriptors or alone.
abbrev pub given_back : List Release → List ℕ
given_back [] = []
given_back (Release.descriptor d ∷ rs) = d.ethernet_buffer ∷ given_back rs
given_back (Release.buffer b ∷ rs) = b ∷ given_back rs

count-set :
    (a : ℕ) (tx : List TxDescriptor) (i : ℕ) (t u : TxDescriptor)
    → get_elem? tx i ≡ some t
    → count a (buffers (set tx i u)) + one_if (a == t.address)
      ≡ count a (buffers tx) + one_if (a == u.address)
count-set a [] i t u h = cc
count-set a (x ∷ xs) zero t u h =
    let q : x ≡ t = cc in
    let e : x.address ≡ t.address = ap (λ (k : TxDescriptor). k.address) q in ground (arith, e)
count-set a (x ∷ xs) (suc i) t u h = omega (arith, count-set a xs i t u h)

count-releases :
    (a : ℕ) (d : NetworkBuffer) (release : Bool) (previous : ℕ)
    → a ≢ 0
    → count a (given_back (releases d release previous)) ≡ one_if (a == previous)
count-releases a d true previous h = ground arith
count-releases a d false previous h = ground arith

pub output_frame_conserves :
    (a : ℕ) (d : NetworkBuffer) (release : Bool) (tx : List TxDescriptor) (m : Mac)
    → a ≢ 0
    → count a (buffers (output_frame d release tx m).1)
        + count a (given_back (output_frame d release tx m).3)
      ≡ count a (buffers tx)
        + (if (output_frame d release tx m).0 || release
            then one_if (a == d.ethernet_buffer)
            else 0)
unfolding output_frame get_next_transmit_buffer output_slot
output_frame_conserves a d release tx m h =
    from (find_slot is_used 0 tx) (find_slot-Finds is_used 0 tx)
  where
    from :
        (o : Option (ℕ × TxDescriptor))
        → Finds is_used 0 tx o
        → count a (buffers (output_slot d release tx m o).1)
            + count a (given_back (output_slot d release tx m o).3)
          ≡ count a (buffers tx)
            + (if (output_slot d release tx m o).0 || release
                then one_if (a == d.ethernet_buffer)
                else 0)
    from none f = ground arith
    from (some (i, t)) f = omega (
      arith,
      count-set a tx i t (outgoing d t) (found is_used tx i t f),
      count-releases a d release t.address h,
    )
