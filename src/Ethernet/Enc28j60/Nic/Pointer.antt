-- ===== src/Ethernet/Enc28j60/Nic/Pointer.antt =====
-- NetworkInterface.c: the read pointer of the receive buffer.
use samlibs.Base.{ℕ, ◌+◌, ◌%◌, ◌≤◌, ◌≡◌, if◌then◌else◌, ltb, arith}
use samlibs.Ethernet.Enc28j60.Nic.{erxrdpt_workaround}

-- For packets on even addresses and a ring that ends on an odd one, the pointer lies in the ring, on an
-- odd address, and the byte behind it, around the end of the ring, is the packet's first.
pub erxrdpt_workaround_lem :
    (next start end : ℕ)
    → start ≤ next
    → next ≤ end
    → next % 2 ≡ 0
    → end % 2 ≡ 1
    → (start ≤ erxrdpt_workaround next start end)
      × (erxrdpt_workaround next start end ≤ end)
      × (erxrdpt_workaround next start end % 2 ≡ 1)
      × ((if ltb (erxrdpt_workaround next start end) end
            then erxrdpt_workaround next start end + 1
            else start)
          ≡ next)
unfolding erxrdpt_workaround
erxrdpt_workaround_lem next start end h1 h2 h3 h4 = ground arith
