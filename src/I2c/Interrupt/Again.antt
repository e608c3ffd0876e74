-- ===== src/I2c/Interrupt/Again.antt =====
-- A transaction that is put into the queue again.
use samlibs.Base.{
  ℕ, ◌+◌, ◌-◌, ◌%◌, ◌^◌, ◌<◌, ◌≡◌, refl, ap, ◌∙◌, List, ◌∷◌, ◌++◌, length, Bool, true, false, some,
  Fault, Result, ok, fault, ◌>>=◌, store, ltb, lt→ltb, le→ltb, if◌then◌else◌, arith,
}
use samlibs.I2c.Interrupt.{
  I2CTransaction, I2CInterruptConfig, Action, answer, begin, sb_routine, store_byte, store_back,
}

outside :
    (be : Bool) (m : List ℕ) (b : ℕ)
    → length m < 2 ^ 8 - 1
    → (if be then store_back m (length m) ((length m + 1) % 2 ^ 8) b else store m (length m) b)
      ≡ fault Fault.out_of_range
outside true m b small = rw (lt→ltb (length m) ((length m + 1) % 2 ^ 8) (omega arith)) refl
outside false m b small = rw (le→ltb (length m) (length m) (omega arith)) refl

-- The counter is reset only at the interrupt that writes a register, which a transaction of the
-- type I2C_READ does not have: where the counter stands at the end of the memory, as an earlier
-- transaction leaves it, the first byte behind the start is stored outside the memory, in either
-- order of bytes.
pub read_again :
    (t : I2CTransaction) (m : List ℕ) (b : ℕ) (s : I2CInterruptConfig)
    → t.data_bytes ≡ some m
    → t.data_length ≡ length m
    → t.data_counter ≡ length m
    → length m < 2 ^ 8 - 1
    → sb_routine b (begin t s) ≡ fault Fault.out_of_range
unfolding begin sb_routine store_byte
read_again t m b s known size counter small =
    ap (λ d. answering (store_byte b (record t { success = false; data_bytes = d }))) known
    ∙ ap
        (λ n.
          answering
            (store_byte b (record t { success = false; data_bytes = some m; data_length = n })))
        size
    ∙ ap
        (λ c. answering (
          store_byte b (record t {
            success = false;
            data_bytes = some m;
            data_length = length m;
            data_counter = c;
          })))
        counter
    ∙ ap (λ r. answering (r >>= counted)) (outside t.big_endian m b small)
  where
    counted : List ℕ → Result I2CTransaction
    counted m' = ok (record t {
      success = false;
      data_bytes = some m';
      data_length = length m;
      data_counter = (length m + 1) % 2 ^ 8;
    })

    answering : Result I2CTransaction → Result I2CInterruptConfig
    answering r = r >>= λ t'. ok (record (begin t s) {
      current = some t';
      log = (begin t s).log ++ (Action.clear_sb ∷ answer (ltb t'.data_counter t'.data_length));
    })
