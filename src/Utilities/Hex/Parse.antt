-- ===== src/Utilities/Hex/Parse.antt =====
-- The parsers of utilities.c against positional notation, and their faults.
use samlibs.Base.{
  ℕ, ◌+◌, ◌*◌, ◌≤◌, ◌<◌, ◌^◌, ◌≡◌, ◌↔◌, ◌⊎◌, List, [], ◌∷◌, arith, ok, ◌++◌, ap, inl, inr,
  Result-cases, ok-injective, refl, ◌∙◌, sym, drop,
}
use samlibs.Base.Bits.{bit_or_disjoint}
use samlibs.Utilities.Hex.{hex_char_to_uint, hex_converter, hex_parse_uint16, hex_parse_uint32}

-- The characters that stand for the digit `d`, by the table of ASCII.
abbrev pub IsDigit : ℕ → ℕ → Type 0
IsDigit c d = ((d < 10) × (c ≡ 48 + d)) ⊎ ((10 ≤ d) × (d < 16) × ((c ≡ 55 + d) ⊎ (c ≡ 87 + d)))

-- `cs` holds the digits `ds`, one character for each, and then `rest`.
abbrev pub AreDigits : List ℕ → List ℕ → List ℕ → Type 0
AreDigits cs [] rest = cs ≡ rest
AreDigits [] (d ∷ ds) rest = ⊥
AreDigits (c ∷ cs) (d ∷ ds) rest = IsDigit c d × AreDigits cs ds rest

-- The number that the digits write in base 16, the most significant first.
abbrev pub base16 : ℕ → List ℕ → ℕ
base16 acc [] = acc
base16 acc (d ∷ ds) = base16 (acc * 16 + d) ds

-- A character is accepted exactly as the digits of ASCII, in both cases, and its value is theirs.
pub hex_char_to_uint_iff : (c d : ℕ) → (hex_char_to_uint c ≡ ok d) ↔ IsDigit c d
unfolding hex_char_to_uint
hex_char_to_uint_iff c d = ground arith

hex_char_of : {c d : ℕ} → IsDigit c d → hex_char_to_uint c ≡ ok d
hex_char_of {c} {d} h = (hex_char_to_uint_iff c d).1 h

IsDigit-lt : (c d : ℕ) → IsDigit c d → d < 16
IsDigit-lt c d h = ground arith

-- The value of `hex_converter`, and what stands behind the two characters that it reads.
hex_converter_lem :
    (cs : List ℕ) (x y : ℕ) (ds rest : List ℕ)
    → AreDigits cs (x ∷ y ∷ ds) rest
    → (hex_converter cs ≡ ok (x * 16 + y)) × (x < 16) × (y < 16) × AreDigits (drop 2 cs) ds rest
unfolding hex_converter
hex_converter_lem [] x y ds rest h = elim h [ ]
hex_converter_lem (c ∷ []) x y ds rest h = elim h.1 [ ]
hex_converter_lem (c ∷ e ∷ cs) x y ds rest h = (
  rw (hex_char_of h.0, hex_char_of h.1.0)
      (ground (arith, bit_or_disjoint 4 x y, IsDigit-lt c x h.0, IsDigit-lt e y h.1.0)),
  IsDigit-lt c x h.0,
  IsDigit-lt e y h.1.0,
  h.1.1,
)

hex_parse_uint16_lem :
    (cs : List ℕ) (x y z w : ℕ) (ds rest : List ℕ)
    → AreDigits cs (x ∷ y ∷ z ∷ w ∷ ds) rest
    → (hex_parse_uint16 cs ≡ ok (base16 0 (x ∷ y ∷ z ∷ w ∷ []), drop 2 (drop 2 cs)))
      × (base16 0 (x ∷ y ∷ z ∷ w ∷ []) < 2 ^ 16)
      × AreDigits (drop 2 (drop 2 cs)) ds rest
unfolding hex_parse_uint16
hex_parse_uint16_lem cs x y z w ds rest h =
    let (value, hx, hy, more) = hex_converter_lem cs x y (z ∷ w ∷ ds) rest h in
    let (value', hz, hw, more') = hex_converter_lem (drop 2 cs) z w ds rest more in
    (
      rw (value, value') (ground (arith, bit_or_disjoint 8 (x * 16 + y) (z * 16 + w))),
      omega arith,
      more',
    )

-- The converse: what is accepted are digits.
hex_char_inv : {c d : ℕ} → hex_char_to_uint c ≡ ok d → IsDigit c d
hex_char_inv {c} {d} h = (hex_char_to_uint_iff c d).0 h

hex_converter_inv :
    (cs : List ℕ) (v : ℕ)
    → hex_converter cs ≡ ok v
    → (x y : ℕ) × AreDigits cs (x ∷ y ∷ []) (drop 2 cs) × (x * 16 + y ≡ v)
unfolding hex_converter
hex_converter_inv [] v h = cc
hex_converter_inv (c ∷ []) v h = elim (Result-cases (hex_char_to_uint c)) [
  | inl (x, p) ↦ cc (rw p at h)
  | inr (g, p) ↦ cc (rw p at h)
]
hex_converter_inv (c ∷ e ∷ cs) v h = elim (Result-cases (hex_char_to_uint c)) [
  | inl (x, p) ↦ elim (Result-cases (hex_char_to_uint e)) [
    | inl (y, q) ↦
        let digits : AreDigits (c ∷ e ∷ cs) (x ∷ y ∷ []) cs =
          (hex_char_inv p, (hex_char_inv q, refl)) in
        let (value, _, _, _) = hex_converter_lem (c ∷ e ∷ cs) x y [] cs digits in
        (x, y, digits, ok-injective (sym value ∙ unfold hex_converter in h))
    | inr (g, q) ↦ cc (rw (p, q) at h)
  ]
  | inr (g, p) ↦ cc (rw p at h)
]

AreDigits-append :
    (cs ds mid es rest : List ℕ)
    → AreDigits cs ds mid
    → AreDigits mid es rest
    → AreDigits cs (ds ++ es) rest
AreDigits-append cs [] mid es rest h k = rw h k
AreDigits-append [] (d ∷ ds) mid es rest h k = elim h [ ]
AreDigits-append (c ∷ cs) (d ∷ ds) mid es rest h k = (h.0, AreDigits-append cs ds mid es rest h.1 k)

hex_parse_uint16_inv :
    (cs : List ℕ) (v : ℕ) (rest : List ℕ)
    → hex_parse_uint16 cs ≡ ok (v, rest)
    → (x y z w : ℕ) × AreDigits cs (x ∷ y ∷ z ∷ w ∷ []) rest × (base16 0 (x ∷ y ∷ z ∷ w ∷ []) ≡ v)
unfolding hex_parse_uint16
hex_parse_uint16_inv cs v rest h = elim (Result-cases (hex_converter cs)) [
  | inl (hi, p) ↦ elim (Result-cases (hex_converter (drop 2 cs))) [
    | inl (lo, q) ↦
        let (x, y, first, _) = hex_converter_inv cs hi p in
        let (z, w, second, _) = hex_converter_inv (drop 2 cs) lo q in
        let end = drop 2 (drop 2 cs) in
        let digits = AreDigits-append cs (x ∷ y ∷ []) (drop 2 cs) (z ∷ w ∷ []) end first second in
        let (value, _, _) = hex_parse_uint16_lem cs x y z w [] end digits in
        let same = ok-injective (sym value ∙ unfold hex_parse_uint16 in h) in
        (
          x,
          y,
          z,
          w,
          rw (ap (λ (r : ℕ × List ℕ). r.1) same) at digits,
          ap (λ (r : ℕ × List ℕ). r.0) same,
        )
    | inr (g, q) ↦ cc (rw (p, q) at h)
  ]
  | inr (g, p) ↦ cc (rw p at h)
]

hex_parse_uint32_of_digits :
    (cs : List ℕ) (a b c d e f g h : ℕ) (rest : List ℕ)
    → AreDigits cs (a ∷ b ∷ c ∷ d ∷ e ∷ f ∷ g ∷ h ∷ []) rest
    → hex_parse_uint32 cs ≡ ok (base16 0 (a ∷ b ∷ c ∷ d ∷ e ∷ f ∷ g ∷ h ∷ []), rest)
unfolding hex_parse_uint32
hex_parse_uint32_of_digits cs a b c d e f g h rest q =
    let (value, fits, more) = hex_parse_uint16_lem cs a b c d (e ∷ f ∷ g ∷ h ∷ []) rest q in
    let cs' = drop 2 (drop 2 cs) in
    let (value', fits', end) = hex_parse_uint16_lem cs' e f g h [] rest more in
    let hi = base16 0 (a ∷ b ∷ c ∷ d ∷ []) in
    let lo = base16 0 (e ∷ f ∷ g ∷ h ∷ []) in
    rw (value, value', end) (ground (arith, bit_or_disjoint 16 hi lo))

hex_parse_uint32_inv :
    (cs : List ℕ) (v : ℕ) (rest : List ℕ)
    → hex_parse_uint32 cs ≡ ok (v, rest)
    → (a b c d e f g h : ℕ) × AreDigits cs (a ∷ b ∷ c ∷ d ∷ e ∷ f ∷ g ∷ h ∷ []) rest
      × (base16 0 (a ∷ b ∷ c ∷ d ∷ e ∷ f ∷ g ∷ h ∷ []) ≡ v)
unfolding hex_parse_uint32
hex_parse_uint32_inv cs v rest q = elim (Result-cases (hex_parse_uint16 cs)) [
  | inl (hi, p) ↦ elim (Result-cases (hex_parse_uint16 hi.1)) [
    | inl (lo, p') ↦
        let (a, b, c, d, first, _) = hex_parse_uint16_inv cs hi.0 hi.1 p in
        let (e, f, g, h, second, _) = hex_parse_uint16_inv hi.1 lo.0 lo.1 p' in
        let half = a ∷ b ∷ c ∷ d ∷ [] in
        let digits = AreDigits-append cs half hi.1 (e ∷ f ∷ g ∷ h ∷ []) lo.1 first second in
        let value = hex_parse_uint32_of_digits cs a b c d e f g h lo.1 digits in
        let same = ok-injective (sym value ∙ unfold hex_parse_uint32 in q) in
        let end = ap (λ (r : ℕ × List ℕ). r.1) same in
        (a, b, c, d, e, f, g, h, rw end at digits, ap (λ (r : ℕ × List ℕ). r.0) same)
    | inr (g, p') ↦ cc (rw (p, p') at q)
  ]
  | inr (g, p) ↦ cc (rw p at q)
]

-- `hexParseUint32` accepts exactly the texts that begin with eight digits, in either case; the
-- value is the number that they write in base 16, and the pointer moves past them.
pub hex_parse_uint32_iff :
    (cs : List ℕ) (v : ℕ) (rest : List ℕ)
    → (hex_parse_uint32 cs ≡ ok (v, rest)) ↔ (
        (a b c d e f g h : ℕ) × AreDigits cs (a ∷ b ∷ c ∷ d ∷ e ∷ f ∷ g ∷ h ∷ []) rest
        × (base16 0 (a ∷ b ∷ c ∷ d ∷ e ∷ f ∷ g ∷ h ∷ []) ≡ v))
hex_parse_uint32_iff cs v rest = (
  hex_parse_uint32_inv cs v rest,
  λ (a, b, c, d, e, f, g, h, digits, value).
      hex_parse_uint32_of_digits cs a b c d e f g h rest digits
      ∙ ap (λ (n : ℕ). ok (n, rest)) value,
)
