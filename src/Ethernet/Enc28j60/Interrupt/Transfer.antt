-- ===== src/Ethernet/Enc28j60/Interrupt/Transfer.antt =====
-- enc28j60_int.c: whole transfers.
use samlibs.Base.{
  ℕ, suc, ◌+◌, ◌≡◌, refl, sym, ap, ◌∙◌, true, false, List, [], ◌∷◌, ◌++◌, append_assoc, append-nil,
  Result, ok, ◌>>=◌, load, load-append, length, length-append, replicate, arith,
}
use samlibs.Ethernet.Enc28j60.Interrupt.{
  Spi, Flags, Operation, sercom_write, sercom_handler, on_dre, on_write,
}

-- The handler, once for each of the flags that cause it.
pub interrupts : List Flags → Spi → Result Spi
interrupts [] s = ok s
interrupts (f ∷ fs) s = do s1 ← sercom_handler f s; interrupts fs s1

abbrev pub data_empty : Flags
data_empty = record { dre = true; txc = false; rxc = false; character = 0 }

-- The state while the bytes from index `i` on, `n` of them, wait.
abbrev writing : Spi → List ℕ → ℕ → ℕ → List ℕ → Spi
writing s buf i n log = record s {
  operation = Operation.write;
  write_buffer = buf;
  write_index = i;
  write_length = n;
  dre_enabled = true;
  data_log = log;
}

abbrev pub ended : Spi → List ℕ → ℕ → List ℕ → Spi
ended s buf i log = record s {
  operation = Operation.none;
  write_buffer = buf;
  write_index = i;
  write_length = 0;
  dre_enabled = false;
  data_log = log;
  given = suc s.given;
}

load-at :
    (buf before rest : List ℕ) (b i : ℕ)
    → buf ≡ before ++ b ∷ rest
    → i ≡ length before
    → load buf i ≡ ok b
load-at buf before rest b i e l =
    ap (λ xs. load xs i) e ∙ ap (load (before ++ b ∷ rest)) l ∙ load-append before b rest

writing_rest :
    (s : Spi) (buf before rest : List ℕ) (i : ℕ) (log : List ℕ)
    → buf ≡ before ++ rest
    → i ≡ length before
    → interrupts (replicate (suc (length rest)) data_empty) (writing s buf i (length rest) log)
      ≡ ok (ended s buf (i + length rest) (log ++ rest))
unfolding interrupts sercom_handler on_dre on_write
writing_rest s buf before [] i log e l =
    let i' : i ≡ i + 0 = omega arith in
    ap (λ k. ok (ended s buf k log)) i'
    ∙ ap (λ xs. ok (ended s buf (i + 0) xs)) (sym (append-nil log))
writing_rest s buf before (b ∷ rest) i log e l =
    let i' : (i + 1) + length rest ≡ i + suc (length rest) = omega arith in
    let l' : i + 1 ≡ length (before ++ b ∷ []) = omega (arith, length-append before (b ∷ [])) in
    ap
      (λ (r : Result ℕ).
        (r >>= λ x. ok (writing s buf (i + 1) (length rest) (log ++ x ∷ []))) >>= λ s1.
        interrupts (replicate (suc (length rest)) data_empty) s1)
      (load-at buf before rest b i e l)
    ∙ writing_rest s buf (before ++ b ∷ []) rest (i + 1) (log ++ b ∷ [])
        (e ∙ sym (append_assoc before (b ∷ []) rest)) l'
    ∙ ap (λ k. ok (ended s buf k ((log ++ b ∷ []) ++ rest))) i'
    ∙ ap (λ xs. ok (ended s buf (i + suc (length rest)) xs)) (append_assoc log (b ∷ []) rest)

pub write_completes :
    (b : ℕ) (bs : List ℕ) (s : Spi)
    → (do
      s1 ← sercom_write (b ∷ bs) (suc (length bs)) s
      interrupts (replicate (suc (length bs)) data_empty) s1)
      ≡ ok (ended s (b ∷ bs) (1 + length bs) (s.data_log ++ b ∷ bs))
unfolding sercom_write
write_completes b bs s =
    writing_rest s (b ∷ bs) (b ∷ []) bs 1 (s.data_log ++ b ∷ []) refl refl
    ∙ ap (λ xs. ok (ended s (b ∷ bs) (1 + length bs) xs)) (append_assoc s.data_log (b ∷ []) bs)
