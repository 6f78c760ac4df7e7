-- ===== src/Text/Hex.antt =====
-- Hexadecimal print of bytes.
use fx_quotes.Prelude.{ℕ, ◌*◌, ◌/◌, ◌%◌, ◌<◌, ◌≡◌, true, List, [], ◌∷◌, arith, length, All}
use fx_quotes.Text.{is_hex, hex_digit, hex_encode}

abbrev pub IsByte : ℕ → Type 0
IsByte b = b < 256

abbrev pub IsHex : ℕ → Type 0
IsHex c = is_hex c ≡ true

pub hex_digit-IsHex : (n : ℕ) → n < 16 → IsHex (hex_digit n)
hex_digit-IsHex n h = ground arith

pub hex_encode-All : (bs : List ℕ) → All IsByte bs → All IsHex (hex_encode bs)
unfolding hex_encode
hex_encode-All [] h = tt
hex_encode-All (b ∷ bs) h = (
  hex_digit-IsHex (b / 16) (omega arith),
  (hex_digit-IsHex (b % 16) (omega arith), hex_encode-All bs h.1),
)

pub length-hex_encode : (bs : List ℕ) → length (hex_encode bs) ≡ 2 * length bs
unfolding hex_encode
length-hex_encode [] = omega arith
length-hex_encode (b ∷ bs) = omega (arith, length-hex_encode bs)
