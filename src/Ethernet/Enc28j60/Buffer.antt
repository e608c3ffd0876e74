-- ===== src/Ethernet/Enc28j60/Buffer.antt =====
-- enc28j60.c: the packet buffer of the ENC28J60.
use samlibs.Base.{
  ℕ, zero, suc, ◌+◌, ◌%◌, ◌^◌, ◌<◌, ◌≤◌, ◌≡◌, refl, sym, ap, ◌∙◌, List, [], ◌∷◌, ◌++◌, Result, ok,
  fault, Fault, ◌>>=◌, >>=-ok, load, store, store_lem, length, length-set, set, take, drop, fill,
  fill_all, replicate, length-append, append_assoc, load-append, Bool-cases, inl, inr, ltb→lt,
  ltb→le, arith, ltb, if◌then◌else◌, le→ltb,
}
use samlibs.Ethernet.Enc28j60.{Enc, transfer}

-- The loop over a buffer, from index `i` on, with `n` characters left.
pub send_loop : List ℕ → ℕ → ℕ → Result (List ℕ)
send_loop buf zero i = ok []
send_loop buf (suc n) i = do b ← load buf i; bs ← send_loop buf n (suc i); ok (b ∷ bs)

-- `ENC28J60_SERCOM_write`: its length is a `uint8_t`.
pub sercom_write : List ℕ → ℕ → Result (List ℕ)
unfolding send_loop
sercom_write buf len = send_loop buf (len % 2 ^ 8) 0

pub write_buffer : List ℕ → ℕ → Enc → Result Enc
unfolding sercom_write
write_buffer buf len s = do
  op ← sercom_write (0x7A ∷ []) 1
  bytes ← sercom_write buf len
  ok (transfer (op ++ bytes) s)

-- `incoming` numbers what DATA holds. Behind the loop one more character is stored.
pub receive_loop : (ℕ → ℕ) → ℕ → ℕ → List ℕ → Result (List ℕ)
receive_loop incoming zero i buf = store buf i (incoming i % 2 ^ 8)
receive_loop incoming (suc n) i buf = do
  buf' ← store buf i (incoming i % 2 ^ 8)
  receive_loop incoming n (suc i) buf'

abbrev pub buffer_read : ℕ → Enc → List ℕ → Result (List ℕ × Enc)
buffer_read len s buf = ok (buf, transfer (0x3A ∷ replicate len 0xFF) s)

pub read_buffer : (ℕ → ℕ) → List ℕ → ℕ → Enc → Result (List ℕ × Enc)
unfolding receive_loop
read_buffer incoming buf len s = do buf' ← receive_loop incoming len 0 buf; buffer_read len s buf'

-- `n` characters from the `i`-th on.
abbrev pub arrived : (ℕ → ℕ) → ℕ → ℕ → List ℕ
arrived incoming zero i = []
arrived incoming (suc n) i = (incoming i % 2 ^ 8) ∷ arrived incoming n (suc i)

length-arrived : (incoming : ℕ → ℕ) (n i : ℕ) → length (arrived incoming n i) ≡ n
length-arrived incoming zero i = refl
length-arrived incoming (suc n) i = ap suc (length-arrived incoming n (suc i))

-- The outcome of a loop that writes `xs` from index `i` on and whose last index is `k`.
abbrev outcome : ℕ → ℕ → List ℕ → Result (List ℕ)
outcome k size xs = if ltb k size then ok xs else fault Fault.out_of_range

receive_loop_lem :
    (incoming : ℕ → ℕ) (n i : ℕ) (buf : List ℕ)
    → receive_loop incoming n i buf
      ≡ outcome (i + n) (length buf) (fill buf i (arrived incoming (suc n) i))
unfolding receive_loop
receive_loop_lem incoming zero i buf =
    let e : i ≡ i + 0 = omega arith in
    ap (λ k. outcome k (length buf) (set buf i (incoming i % 2 ^ 8))) e
receive_loop_lem incoming (suc n) i buf = elim (Bool-cases (ltb i (length buf))) [
  | inl inside ↦
      let buf' : List ℕ = set buf i (incoming i % 2 ^ 8) in
      let e : suc i + n ≡ i + suc n = omega arith in
      >>=-ok (λ b. receive_loop incoming n (suc i) b)
        (store_lem buf i (incoming i % 2 ^ 8) (ltb→lt i (length buf) inside))
      ∙ receive_loop_lem incoming n (suc i) buf'
      ∙ ap (λ k. outcome k (length buf') (fill buf' (suc i) (arrived incoming (suc n) (suc i)))) e
      ∙ ap (λ k. outcome (i + suc n) k (fill buf' (suc i) (arrived incoming (suc n) (suc i))))
          (length-set buf i (incoming i % 2 ^ 8))
  | inr outside ↦
      let far : length buf ≤ i + suc n = omega (arith, ltb→le i (length buf) outside) in
      rw (outside, le→ltb (i + suc n) (length buf) far) refl
]

-- The buffer is filled with what arrives exactly when it has room for one character more than
-- was asked for, and that one is overwritten too; otherwise the last one is stored outside of it.
pub read_buffer_lem :
    (incoming : ℕ → ℕ) (buf : List ℕ) (len : ℕ) (s : Enc)
    → read_buffer incoming buf len s ≡ (
        if ltb len (length buf)
        then buffer_read len s (arrived incoming (suc len) 0 ++ drop (suc len) buf)
        else fault Fault.out_of_range)
unfolding read_buffer
read_buffer_lem incoming buf len s =
    let e : 0 + len ≡ len = omega arith in
    ap (λ r. r >>= λ b. buffer_read len s b)
      (receive_loop_lem incoming len 0 buf
        ∙ ap (λ k. outcome k (length buf) (fill buf 0 (arrived incoming (suc len) 0))) e)
    ∙ elim (Bool-cases (ltb len (length buf))) [
      | inl inside ↦ rw inside (filled (ltb→lt len (length buf) inside))
      | inr outside ↦ rw outside refl
    ]
  where
    filled :
        len < length buf
        → buffer_read len s (fill buf 0 (arrived incoming (suc len) 0))
          ≡ buffer_read len s (arrived incoming (suc len) 0 ++ drop (suc len) buf)
    filled lt =
        let l : length (arrived incoming (suc len) 0) ≡ suc len =
          length-arrived incoming (suc len) 0 in
        let short : length (arrived incoming (suc len) 0) ≤ length buf = omega arith in
        ap (buffer_read len s) (
          fill_all buf (arrived incoming (suc len) 0) short
          ∙ ap (λ k. arrived incoming (suc len) 0 ++ drop k buf) l)

send_loop_lem :
    (before buf : List ℕ) (n : ℕ)
    → n ≤ length buf
    → send_loop (before ++ buf) n (length before) ≡ ok (take n buf)
unfolding send_loop
send_loop_lem before buf zero h = refl
send_loop_lem before [] (suc n) h = absurd (omega arith)
send_loop_lem before (b ∷ bs) (suc n) h =
    let ih : send_loop ((before ++ b ∷ []) ++ bs) n (length (before ++ b ∷ [])) ≡ ok (take n bs) =
      send_loop_lem (before ++ b ∷ []) bs n (omega arith) in
    let e : length (before ++ b ∷ []) ≡ suc (length before) =
      omega (arith, length-append before (b ∷ [])) in
    let ih' : send_loop (before ++ b ∷ bs) n (suc (length before)) ≡ ok (take n bs) =
      ap (λ k. send_loop (before ++ b ∷ bs) n k) (sym e)
      ∙ ap (λ l. send_loop l n (length (before ++ b ∷ []))) (sym (append_assoc before (b ∷ []) bs))
      ∙ ih in
    >>=-ok (λ x. send_loop (before ++ b ∷ bs) n (suc (length before)) >>= λ xs. ok (x ∷ xs))
      (load-append before b bs)
    ∙ >>=-ok (λ xs. ok (b ∷ xs)) ih'

-- Behind the instruction goes the beginning of the message, of its length modulo 256.
pub write_buffer_lem :
    (buf : List ℕ) (len : ℕ) (s : Enc)
    → len % 2 ^ 8 ≤ length buf
    → write_buffer buf len s ≡ ok (transfer (0x7A ∷ take (len % 2 ^ 8) buf) s)
unfolding write_buffer sercom_write send_loop
write_buffer_lem buf len s h =
    >>=-ok (λ bs. ok (transfer (0x7A ∷ bs) s)) (send_loop_lem [] buf (len % 2 ^ 8) h)
