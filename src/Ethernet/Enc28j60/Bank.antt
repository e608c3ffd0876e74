-- ===== src/Ethernet/Enc28j60/Bank.antt =====
-- enc28j60.c: the bank that the driver has noted, and the one that the ENC28J60 is in.
use samlibs.Base.{
  ℕ, ◌+◌, ◌*◌, ◌/◌, ◌%◌, ◌<◌, ◌≡◌, ◌⊎◌, inl, inr, refl, sym, ap, ◌∙◌, subst, false, Bool-cases,
  List, [], ◌∷◌, ◌++◌, if◌then◌else◌, ◌==◌, ==_iff, arith,
}
use samlibs.Ethernet.Enc28j60.{Enc, bank_bits, bank_select}

-- What the instructions BFS, BFC and WCR do to the two bank bits of ECON1, by the data sheet.
abbrev pub set_bits : ℕ → ℕ → ℕ
set_bits v b = (if v % 2 == 1 then 1 else b % 2) + 2 * (if v / 2 % 2 == 1 then 1 else b / 2 % 2)

abbrev pub clear_bits : ℕ → ℕ → ℕ
clear_bits v b = (if v % 2 == 1 then 0 else b % 2) + 2 * (if v / 2 % 2 == 1 then 0 else b / 2 % 2)

abbrev pub command : ℕ → ℕ → ℕ → ℕ
command op v b =
    if op == 0x9F
    then set_bits v b
    else (if op == 0xBF then clear_bits v b else (if op == 0x5F then v % 4 else b))

abbrev pub bank_after : List ℕ → ℕ → ℕ
bank_after [] b = b
bank_after (op ∷ []) b = if op == 0xFF then 0 else b
bank_after (op ∷ v ∷ vs) b = command op v b

-- The bank after the transfers of a log, from bank `b` on.
abbrev pub bank : ℕ → List (List ℕ) → ℕ
bank b [] = b
bank b (t ∷ ts) = bank (bank_after t b) ts

pub bank-append : (b : ℕ) (xs ys : List (List ℕ)) → bank b (xs ++ ys) ≡ bank (bank b xs) ys
bank-append b [] ys = refl
bank-append b (x ∷ xs) ys = bank-append (bank_after x b) xs ys

-- The chip is in the bank that the driver has noted.
pub record IsSynced (s : Enc) : Type 0 where
  pub synced : s.last_bank ≡ 64 * bank 0 s.log
  pub four : bank 0 s.log < 4

-- A register of one of the four banks, or one that all of them share.
abbrev pub IsRegister : ℕ → Type 0
IsRegister a = (bank_bits a ≡ 0xE0) ⊎ (a % 256 / 32 % 2 ≡ 0)

abbrev pub InBank : ℕ → ℕ → Type 0
InBank a b = (bank_bits a ≡ 0xE0) ⊎ (bank_bits a ≡ 64 * b)

set-clear : (v b : ℕ) → v < 4 → set_bits v (clear_bits 3 b) ≡ v
set-clear v b h = ground arith

bank_bits_lem :
    (a : ℕ)
    → a % 256 / 32 % 2 ≡ 0
    → (64 * (bank_bits a / 64) ≡ bank_bits a) × (bank_bits a / 64 < 4)
bank_bits_lem a h = omega arith

switched :
    (a : ℕ) (s : Enc)
    → a % 256 / 32 % 2 ≡ 0
    → bank 0 (s.log ++ (0xBF ∷ 3 ∷ []) ∷ (0x9F ∷ bank_bits a / 64 ∷ []) ∷ []) ≡ bank_bits a / 64
switched a s h =
    bank-append 0 s.log ((0xBF ∷ 3 ∷ []) ∷ (0x9F ∷ bank_bits a / 64 ∷ []) ∷ [])
    ∙ set-clear (bank_bits a / 64) (bank 0 s.log) (bank_bits_lem a h).1

abbrev pub Selected : ℕ → Enc → Type 0
Selected a s = IsSynced s × InBank a (bank 0 s.log)

select_new :
    (a : ℕ) (s : Enc)
    → a % 256 / 32 % 2 ≡ 0
    → Selected a (record {
      last_bank = bank_bits a;
      log = s.log ++ (0xBF ∷ 3 ∷ []) ∷ (0x9F ∷ bank_bits a / 64 ∷ []) ∷ [];
    })
select_new a s h =
    let e = switched a s h in
    let (back, small) = bank_bits_lem a h in
    (
      record {
        synced = sym back ∙ ap (λ b. 64 * b) (sym e);
        four = subst (λ b. b < 4) (sym e) small;
      },
      inr (sym back ∙ ap (λ b. 64 * b) (sym e)),
    )

in_bank : (a : ℕ) → IsRegister a → (bank_bits a == 0xE0) ≡ false → a % 256 / 32 % 2 ≡ 0
in_bank a (inl e) own = ground arith
in_bank a (inr e) own = e

pub bank_select-Selected :
    (a : ℕ) (s : Enc) → IsRegister a → IsSynced s → Selected a (bank_select a s)
unfolding bank_select
bank_select-Selected a s r h = elim (Bool-cases (bank_bits a == 0xE0)) [
  | inl common ↦ rw common (h, inl ((==_iff (bank_bits a) 0xE0).0 common))
  | inr own ↦ elim (Bool-cases (bank_bits a == s.last_bank)) [
    | inl same ↦ rw (own, same) (h, inr ((==_iff (bank_bits a) s.last_bank).0 same ∙ h.synced))
    | inr new ↦ rw (own, new) (select_new a s (in_bank a r own))
  ]
]
