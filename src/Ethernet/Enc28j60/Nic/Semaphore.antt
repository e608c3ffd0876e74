-- ===== src/Ethernet/Enc28j60/Nic/Semaphore.antt =====
-- NetworkInterface.c: the semaphore of the SPI interface.
use samlibs.Base.{
  ℕ, ◌/◌, ◌%◌, ◌^◌, ◌≡◌, refl, Bool, true, false, List, [], ◌∷◌, Result, ok, ◌>>=◌, arith,
}
use samlibs.Ethernet.Enc28j60.{read_ctrl8, econ1}
use samlibs.Ethernet.Enc28j60.Nic.{World, Nic, nic_round, output, output_on_link}

-- What the IP task and the interrupt task do, one after another.
pub data Call : Type 0 where
  round : ℕ → Call
  send : List ℕ → ℕ → Bool → Call

pub call : World → Call → Nic → Result Nic
call w (round fuel) n = nic_round w fuel n
call w (send frame length release) n =
    output w frame length release n >>= λ (r : Bool × Bool × Nic). ok r.2

pub calls : World → List Call → Nic → Result Nic
calls w [] n = ok n
calls w (c ∷ cs) n = do n1 ← call w c n; calls w cs n1

calls_taken : (w : World) (cs : List Call) (n : Nic) → n.spi_free ≡ false → calls w cs n ≡ ok n
unfolding calls call nic_round output
calls_taken w [] n h = refl
calls_taken w (round fuel ∷ cs) n h = rw h (calls_taken w cs (record n { spi_free = false }) refl)
calls_taken w (send frame length release ∷ cs) n h =
    rw h (calls_taken w cs (record n { spi_free = false }) refl)

pub output_while_transmitting :
    (w : World) (frame : List ℕ) (length : ℕ) (release : Bool) (n : Nic) (cs : List Call)
    → n.spi_free ≡ true
    → n.link_up ≡ true
    → (read_ctrl8 w.reply econ1 n.enc).0 / 2 ^ 3 % 2 ≡ 1
    → (n' : Nic) × (output w frame length release n ≡ ok (false, release, n'))
      × (calls w cs n' ≡ ok n')
unfolding output output_on_link
output_while_transmitting w frame length release n cs free up busy = (
  record n { enc = (read_ctrl8 w.reply econ1 n.enc).1; spi_free = false },
  unanswered,
  calls_taken w cs _ refl,
)
  where
    unanswered :
        output w frame length release n
        ≡ ok (
          false,
          release,
          record n { enc = (read_ctrl8 w.reply econ1 n.enc).1; spi_free = false },
        )
    unanswered = ground (arith)
