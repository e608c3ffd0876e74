-- ===== src/Ethernet/Enc28j60/Access.antt =====
-- enc28j60.c: the functions that reach a register.
use samlibs.Base.{
  ℕ, ◌+◌, ◌*◌, ◌%◌, ◌<◌, ◌≡◌, ◌≢◌, ◌⊎◌, refl, sym, ap, ◌∙◌, subst, List, [], ◌∷◌, ◌++◌, All,
  append_assoc, arith,
}
use samlibs.Ethernet.Enc28j60.{
  Enc, Reply, transfer, bank_bits, index_bits, bank_select, read_ctrl8, read_ctrl8_macmii,
  write_ctrl8, write_op, bfs_inst, bfc_inst, read_ctrl16_macmii,
}
use samlibs.Ethernet.Enc28j60.Bank.{
  bank, bank_after, bank-append, IsSynced, IsRegister, InBank, bank_select-Selected,
}

-- The functions that reach one register, with their arguments.
pub data Access : Type 0 where
  read read_macmii : ℕ → Access
  write : ℕ → ℕ → Access
  set_in clear_in : ℕ → ℕ → Access

abbrev pub register : Access → ℕ
register (read a) = a
register (read_macmii a) = a
register (write a v) = a
register (set_in a d) = a
register (clear_in a d) = a

abbrev pub perform : Reply → Access → Enc → Enc
perform reply (read a) s = (read_ctrl8 reply a s).1
perform reply (read_macmii a) s = (read_ctrl8_macmii reply a s).1
perform reply (write a v) s = write_ctrl8 a v s
perform reply (set_in a d) s = write_op bfs_inst a d s
perform reply (clear_in a d) s = write_op bfc_inst a d s

-- What they send behind the selection of the bank.
abbrev pub bytes : Access → List ℕ
bytes (read a) = index_bits a ∷ 0xFF ∷ []
bytes (read_macmii a) = index_bits a ∷ 0xFF ∷ 0xFF ∷ []
bytes (write a v) = (0x40 + index_bits a) ∷ (v % 256) ∷ []
bytes (set_in a d) = (bfs_inst + index_bits a) ∷ (d % 256) ∷ []
bytes (clear_in a d) = (bfc_inst + index_bits a) ∷ (d % 256) ∷ []

-- The bank bits of ECON1 are left to `ENC_BankSel`.
abbrev pub LeavesBank : Access → Type 0
LeavesBank (read a) = Unit {0}
LeavesBank (read_macmii a) = Unit {0}
LeavesBank (write a v) = index_bits a ≢ 31
LeavesBank (set_in a d) = (index_bits a ≢ 31) ⊎ (d % 4 ≡ 0)
LeavesBank (clear_in a d) = (index_bits a ≢ 31) ⊎ (d % 4 ≡ 0)

abbrev pub IsAllowed : Access → Type 0
IsAllowed c = IsRegister (register c) × LeavesBank c

perform-log :
    (reply : Reply) (c : Access) (s : Enc)
    → perform reply c s ≡ transfer (bytes c) (bank_select (register c) s)
unfolding read_ctrl8 read_ctrl8_macmii write_ctrl8 write_op
perform-log reply (read a) s = refl
perform-log reply (read_macmii a) s = refl
perform-log reply (write a v) s = refl
perform-log reply (set_in a d) s = refl
perform-log reply (clear_in a d) s = refl

bank_after-bytes : (c : Access) (b : ℕ) → b < 4 → LeavesBank c → bank_after (bytes c) b ≡ b
bank_after-bytes (read a) b h l = ground arith
bank_after-bytes (read_macmii a) b h l = ground arith
bank_after-bytes (write a v) b h l = ground arith
bank_after-bytes (set_in a d) b h l = ground arith
bank_after-bytes (clear_in a d) b h l = ground arith

perform-IsSynced :
    (reply : Reply) (c : Access) (s : Enc) → IsAllowed c → IsSynced s → IsSynced (perform reply c s)
perform-IsSynced reply c s (r, l) h =
    let (v, _) = bank_select-Selected (register c) s r h in
    let t : Enc = bank_select (register c) s in
    let e : bank 0 (t.log ++ bytes c ∷ []) ≡ bank 0 t.log =
      bank-append 0 t.log (bytes c ∷ []) ∙ bank_after-bytes c (bank 0 t.log) v.four l in
    subst IsSynced (sym (perform-log reply c s)) (record {
      synced = v.synced ∙ ap (λ b. 64 * b) (sym e);
      four = subst (λ b. b < 4) (sym e) v.four;
    })

pub perform_all : Reply → List Access → Enc → Enc
perform_all reply [] s = s
perform_all reply (c ∷ cs) s = perform_all reply cs (perform reply c s)

perform_all-IsSynced :
    (reply : Reply) (cs : List Access) (s : Enc)
    → All IsAllowed cs
    → IsSynced s
    → IsSynced (perform_all reply cs s)
unfolding perform_all
perform_all-IsSynced reply [] s a h = h
perform_all-IsSynced reply (c ∷ cs) s (a, as_) h =
    perform_all-IsSynced reply cs (perform reply c s) as_ (perform-IsSynced reply c s a h)

abbrev pub reset : Enc
reset = record { last_bank = 0; log = [] }

pub perform_addressed :
    (reply : Reply) (cs : List Access) (c : Access)
    → All IsAllowed cs
    → IsAllowed c
    → (before : List (List ℕ)) × ((perform reply c (perform_all reply cs reset)).log
        ≡ before ++ bytes c ∷ [])
      × InBank (register c) (bank 0 before)
      × IsSynced (perform reply c (perform_all reply cs reset))
perform_addressed reply cs c as_ a =
    let s : Enc = perform_all reply cs reset in
    let h : IsSynced s =
      perform_all-IsSynced reply cs reset as_ (record { synced = refl; four = omega arith }) in
    (
      (bank_select (register c) s).log,
      ap (λ (k : Enc). k.log) (perform-log reply c s),
      (bank_select-Selected (register c) s a.0 h).1,
      perform-IsSynced reply c s a h,
    )

-- A register of bank 2 is not read in 16 bits: the first of the two transfers is the instruction
-- that sets bits, on the register's index, and with all bits of its argument set.
pub read_ctrl16_macmii_bank_2 :
    (reply : Reply) (a : ℕ) (s : Enc)
    → bank_bits a ≡ 0x80
    → (read_ctrl16_macmii reply a s).1.log
      ≡ (bank_select a s).log
        ++ ((bfs_inst + index_bits a) ∷ 0xFF ∷ 0xFF ∷ [])
          ∷ ((index_bits a + 1) ∷ 0xFF ∷ 0xFF ∷ [])
          ∷ []
unfolding read_ctrl16_macmii
read_ctrl16_macmii_bank_2 reply a s h =
    let e : a % 256 ≡ bfs_inst + index_bits a = omega arith in
    append_assoc (bank_select a s).log (((a % 256) ∷ 0xFF ∷ 0xFF ∷ []) ∷ []) _
    ∙ ap
        (λ x.
          (bank_select a s).log
          ++ (x ∷ 0xFF ∷ 0xFF ∷ []) ∷ ((index_bits a + 1) ∷ 0xFF ∷ 0xFF ∷ []) ∷ [])
        e
