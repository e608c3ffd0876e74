-- ===== src/DebugInterface/Lines.antt =====
-- What a string looks like on the line.
use samlibs.Base.{
  ℕ, ◌==◌, Bool, true, false, if◌then◌else◌, List, [], ◌∷◌, ◌++◌, append_assoc, append-nil, ok, ◌≡◌,
  ◌≢◌, refl, sym, ap, ◌∙◌, Bool-cases, inl, inr, ==-ne, ==_iff, arith,
}
use samlibs.DebugInterface.{debug_putchar, debug_putstring, newline, carriage_return}

-- A text without its end: no character is 0.
pub data IsText : List ℕ → Type 0 where
  done : IsText []
  more : {c : ℕ} {cs : List ℕ} → c ≢ 0 → IsText cs → IsText (c ∷ cs)

-- Every newline with a carriage return before it.
pub crlf : List ℕ → List ℕ
crlf [] = []
crlf (c ∷ cs) = let rest = crlf cs in if c == newline then carriage_return ∷ c ∷ rest else c ∷ rest

putchar-crlf : (c : ℕ) (cs log : List ℕ) → debug_putchar c log ++ crlf cs ≡ log ++ crlf (c ∷ cs)
unfolding crlf debug_putchar
putchar-crlf c cs log = elim (Bool-cases (c == newline)) [
  | inl e ↦ rw (e) (
      append_assoc (log ++ carriage_return ∷ []) (c ∷ []) (crlf cs)
      ∙ append_assoc log (carriage_return ∷ []) (c ∷ crlf cs))
  | inr e ↦ rw (e) (append_assoc log (c ∷ []) (crlf cs))
]

-- A string of characters that are not 0, with its 0, goes out with a carriage return before each
-- newline, and nothing of what lies behind it.
pub putstring-crlf :
    (cs behind log : List ℕ)
    → IsText cs
    → debug_putstring (cs ++ (0 ∷ behind)) log ≡ ok (log ++ crlf cs)
unfolding debug_putstring crlf
putstring-crlf [] behind log text = ap ok (sym (append-nil log))
putstring-crlf (c ∷ cs) behind log (more nonzero text) =
    rw (==-ne c 0 nonzero)
      (putstring-crlf cs behind (debug_putchar c log) text ∙ ap ok (putchar-crlf c cs log))

-- The carriage returns that stand before a newline are taken out.
pub plain : List ℕ → List ℕ
plain [] = []
plain (c ∷ []) = c ∷ []
plain (c ∷ d ∷ cs) =
    let rest = plain (d ∷ cs) in
    if c == carriage_return then (if d == newline then rest else c ∷ rest) else c ∷ rest

-- The text does not begin with a newline.
starts_other : List ℕ → Bool
starts_other [] = true
starts_other (c ∷ cs) = if c == newline then false else true

crlf-starts_other : (cs : List ℕ) → starts_other (crlf cs) ≡ true
unfolding crlf starts_other
crlf-starts_other [] = refl
crlf-starts_other (c ∷ cs) = elim (Bool-cases (c == newline)) [
  | inl e ↦ rw (e) refl
  | inr e ↦ rw (e) (rw (e) refl)
]

if-same : (b : Bool) (x : List ℕ) → (if b then x else x) ≡ x
if-same true x = refl
if-same false x = refl

plain-kept : (c : ℕ) (cs : List ℕ) → starts_other cs ≡ true → plain (c ∷ cs) ≡ c ∷ plain cs
unfolding plain starts_other
plain-kept c [] h = refl
plain-kept c (d ∷ cs) h = elim (Bool-cases (d == newline)) [
  | inl e ↦ absurd (ground arith)
  | inr e ↦ rw (e) (if-same (c == carriage_return) (c ∷ plain (d ∷ cs)))
]

plain-newline : (c : ℕ) (cs : List ℕ) → c ≡ newline → plain (c ∷ cs) ≡ c ∷ plain cs
unfolding plain
plain-newline c [] h = refl
plain-newline c (d ∷ cs) h = ground arith

-- Taking the carriage returns before the newlines out gives the text back, one that has carriage
-- returns of its own included.
pub plain-crlf : (cs : List ℕ) → plain (crlf cs) ≡ cs
unfolding plain crlf
plain-crlf [] = refl
plain-crlf (c ∷ cs) = elim (Bool-cases (c == newline)) [
  | inl e ↦ rw (e) (
      rw (e) (plain-newline c (crlf cs) ((==_iff c newline).0 e) ∙ ap (λ k. c ∷ k) (plain-crlf cs)))
  | inr e ↦ rw (e) (plain-kept c (crlf cs) (crlf-starts_other cs) ∙ ap (λ k. c ∷ k) (plain-crlf cs))
]

-- A string of characters that are not 0 goes out up to its end, and the text can be read back from
-- the line, by taking the carriage return before each newline out.
pub sent_text :
    (cs behind : List ℕ)
    → IsText cs
    → (out : List ℕ) × (debug_putstring (cs ++ (0 ∷ behind)) [] ≡ ok out) × (plain out ≡ cs)
sent_text cs behind text = (crlf cs, putstring-crlf cs behind [] text, plain-crlf cs)
