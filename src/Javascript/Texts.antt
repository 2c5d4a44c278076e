-- ===== src/Javascript/Texts.antt =====
-- What a text on the wire stands for: its bytes are UTF-8, a string of a script is code units of
-- UTF-16.
use warpcoil.Base.{
  ℕ, zero, suc, ◌+◌, ◌-◌, ◌*◌, ◌/◌, ◌%◌, ◌<◌, ◌≡◌, refl, true, false, List, [], ◌∷◌, ◌++◌, arith,
  ltb, All, if◌then◌else◌,
}

-- The code units of a code point.
abbrev from_code_point : ℕ → List ℕ
from_code_point c =
    if ltb c 0x10000
    then c ∷ []
    else (0xd800 + (c - 0x10000) / 0x400) ∷ (0xdc00 + (c - 0x10000) % 0x400) ∷ []

-- How many bytes follow the first one of a code point of more than one byte.
abbrev following : ℕ → ℕ
following b = if ltb b 0xe0 then 1 else if ltb b 0xf0 then 2 else 3

-- The bits of that byte.
abbrev first_bits : ℕ → ℕ
first_bits b = if ltb b 0xe0 then b % 32 else if ltb b 0xf0 then b % 16 else b % 8

-- In a code point of which this many bytes follow and these are the bits so far.
decode : (following_bytes : ℕ) → (bits : ℕ) → List ℕ → List ℕ
decode n bits [] = []
decode zero bits (b ∷ bs) = elim (ltb b 0x80) [
  | true ↦ b ∷ decode zero 0 bs
  | false ↦ decode (following b) (first_bits b) bs
]
decode (suc zero) bits (b ∷ bs) = from_code_point (bits * 64 + b % 64) ++ decode zero 0 bs
decode (suc (suc n)) bits (b ∷ bs) = decode (suc n) (bits * 64 + b % 64) bs

-- The code units of a text that is valid UTF-8.
unfoldable pub decode_utf8 : List ℕ → List ℕ
unfolding decode
decode_utf8 bytes = decode 0 0 bytes

abbrev pub IsAscii : ℕ → Type 0
IsAscii b = b < 0x80

ascii-decode : (bytes : List ℕ) → All IsAscii bytes → decode 0 0 bytes ≡ bytes
unfolding decode
ascii-decode [] h = refl
ascii-decode (b ∷ bs) h = ground (arith, h.0, ascii-decode bs h.1)

-- The code units of an ASCII text are its bytes.
pub decode_utf8-ascii : (bytes : List ℕ) → All IsAscii bytes → decode_utf8 bytes ≡ bytes
unfolding decode_utf8
decode_utf8-ascii bytes h = ascii-decode bytes h
