-- ===== src/Dmx/Rdm/Checksum.antt =====
-- The checksum that is computed and the one that is read.
use samlibs.Base.{
  ℕ, zero, suc, ◌+◌, ◌*◌, ◌%◌, ◌^◌, ◌≤◌, ◌<◌, ◌≡◌, ◌≢◌, refl, ap, ◌∙◌, List, [], ◌∷◌, some, All,
  All-get, get_elem?, get_elem?-set_ne, get_elem?-eq-get_or, get_or, set, length, take, drop, arith,
  ok, in_range, load_lem,
}
use samlibs.Dmx.Port.{DmxBuffer, message_length_index, message_index}
use samlibs.Dmx.Rdm.{get_checksum, sum_loop, compute_checksum}

abbrev pub sum : List ℕ → ℕ
sum [] = 0
sum (x ∷ xs) = x + sum xs

take-drop_next :
    (dmx : List ℕ) (i n : ℕ)
    → i < length dmx
    → take (suc n) (drop i dmx) ≡ get_or dmx i 0 ∷ take n (drop (i + 1) dmx)
take-drop_next [] i n h = absurd (omega arith)
take-drop_next (x ∷ dmx) zero n h = refl
take-drop_next (x ∷ dmx) (suc i) n h = ground (arith, take-drop_next dmx i n)

-- With at most 255 rounds of bytes the 16-bit sum does not wrap.
sum_loop_lem :
    (n i : ℕ) (dmx : List ℕ) (acc : ℕ)
    → i + n ≤ length dmx
    → All (λ v. v < 256) dmx
    → acc + 255 * n < 2 ^ 16
    → sum_loop n i dmx acc ≡ ok (acc + sum (take n (drop i dmx)))
unfolding sum_loop
sum_loop_lem zero i dmx acc inside bytes small = ap ok (omega arith)
sum_loop_lem (suc n) i dmx acc inside bytes small =
    let x = get_or dmx i 0 in
    let byte : x < 256 =
      All-get (λ v. v < 256) dmx i x bytes (get_elem?-eq-get_or dmx i 0 (omega arith)) in
    let exact : (acc + x) % 2 ^ 16 ≡ acc + x = omega arith in
    rw (load_lem dmx i 0 (omega arith), exact)
      (sum_loop_lem n (i + 1) dmx (acc + x) (omega arith) bytes (omega arith)
        ∙ ap ok (omega (arith, ap sum (take-drop_next dmx i n (omega arith)))))

pub compute_checksum_exact :
    (b : DmxBuffer) (len : ℕ)
    → get_elem? b.dmx message_length_index ≡ some len
    → length b.dmx ≡ 513
    → All (λ v. v < 256) b.dmx
    → compute_checksum b ≡ ok (sum (take len b.dmx))
unfolding compute_checksum
compute_checksum_exact b len here sized bytes =
    let byte : len < 256 = All-get (λ v. v < 256) b.dmx 2 len bytes here in
    rw here (sum_loop_lem len 0 b.dmx 0 (omega arith) bytes (omega arith) ∙ ap ok (omega arith))

-- `uRdmGetChecksum` reads no byte of the frame but `messageLength`: whatever stands in the bytes
-- before offset `20 + messageLength`, where the received checksum is, its result is the same.
pub get_checksum_beyond :
    (b : DmxBuffer) (len j v : ℕ)
    → get_elem? b.dmx message_length_index ≡ some len
    → j ≢ message_length_index
    → j < message_index + len
    → get_checksum (record b { dmx = set b.dmx j v }) ≡ get_checksum b
unfolding get_checksum
get_checksum_beyond b len j v here other inside =
    let same = λ (k : ℕ) (ne : j ≢ k). ap in_range (get_elem?-set_ne b.dmx j k v ne) in
    let kept = same 2 other ∙ ap in_range here in
    rw (kept, here, same (20 + len) (omega arith), same (20 + (len + 1)) (omega arith))
