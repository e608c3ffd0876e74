-- ===== src/Utilities/Hex/Tests.antt =====
-- The parsers at concrete texts.
use samlibs.Base.{ℕ, ◌≡◌, ◌↔◌, List, [], ◌∷◌, ok}
use samlibs.Utilities.Hex.{hex_parse_uint32}
use samlibs.Utilities.Hex.Parse.{AreDigits, base16, hex_parse_uint32_iff}

-- "1aF00bC9,"
abbrev text : List ℕ
text = b'1' ∷ b'a' ∷ b'F' ∷ b'0' ∷ b'0' ∷ b'b' ∷ b'C' ∷ b'9' ∷ b',' ∷ []

hex_parse_uint32_iff_example : (hex_parse_uint32 text ≡ ok (0x1af00bc9, b',' ∷ [])) ↔ (
    (a b c d e f g h : ℕ) × AreDigits text (a ∷ b ∷ c ∷ d ∷ e ∷ f ∷ g ∷ h ∷ []) (b',' ∷ [])
    × (base16 0 (a ∷ b ∷ c ∷ d ∷ e ∷ f ∷ g ∷ h ∷ []) ≡ 0x1af00bc9))
hex_parse_uint32_iff_example = hex_parse_uint32_iff text 0x1af00bc9 (b',' ∷ [])
