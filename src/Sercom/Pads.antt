-- ===== src/Sercom/Pads.antt =====
-- The pads that the fields select.
use samlibs.Base.{ℕ, zero, suc, ◌≤◌, ◌≡◌, ◌≢◌, refl, some, arith, ◌==◌, if◌then◌else◌}
use samlibs.Sercom.{SercomPads, dopo_to_dipo, pad_to_dopo}

-- The pads that a value of DOPO gives to data out and to the clock, and those of DIPO and TXPO,
-- by the tables of the data sheet.
abbrev pub data_out : ℕ → SercomPads
data_out n =
    if n == 0
    then SercomPads.pad0
    else if n == 1
    then SercomPads.pad2
    else if n == 2
    then SercomPads.pad3
    else SercomPads.pad0

abbrev pub clock_out : ℕ → SercomPads
clock_out n =
    if n == 0
    then SercomPads.pad1
    else if n == 1
    then SercomPads.pad3
    else if n == 2
    then SercomPads.pad1
    else SercomPads.pad3

abbrev pub data_in : ℕ → SercomPads
data_in n =
    if n == 0
    then SercomPads.pad0
    else if n == 1
    then SercomPads.pad1
    else if n == 2
    then SercomPads.pad2
    else SercomPads.pad3

-- Data in and both outputs on three different pads.
abbrev IsApart : ℕ → Type 0
IsApart n =
    (m : ℕ) × (dopo_to_dipo (some n) ≡ some m)
    × (m ≤ 3)
    × (data_in m ≢ data_out n)
    × (data_in m ≢ clock_out n)

field-IsApart : (n : ℕ) → n ≤ 3 → IsApart n
unfolding dopo_to_dipo
field-IsApart zero h = (3, refl, omega arith, ground arith, ground arith)
field-IsApart (suc zero) h = (0, refl, omega arith, ground arith, ground arith)
field-IsApart (suc (suc zero)) h = (0, refl, omega arith, ground arith, ground arith)
field-IsApart (suc (suc (suc zero))) h = (2, refl, omega arith, ground arith, ground arith)
field-IsApart (suc (suc (suc (suc n)))) h = absurd (omega arith)

field_bound : (pad_do pad_clk : SercomPads) (n : ℕ) → pad_to_dopo pad_do pad_clk ≡ some n → n ≤ 3
unfolding pad_to_dopo
field_bound pad_do pad_clk n h = ground arith

-- For every field that `xSercomPadToDOPO` yields, `xSercomDOPOToDIPO` yields a field whose pad is
-- neither the data output nor the clock that the former selects.
pub dipo_disjoint :
    (pad_do pad_clk : SercomPads) (n : ℕ)
    → pad_to_dopo pad_do pad_clk ≡ some n
    → (m : ℕ) × (dopo_to_dipo (some n) ≡ some m)
      × (m ≤ 3)
      × (data_in m ≢ data_out n)
      × (data_in m ≢ clock_out n)
dipo_disjoint pad_do pad_clk n h = field-IsApart n (field_bound pad_do pad_clk n h)
