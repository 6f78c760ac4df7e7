-- ===== src/Postgres/UpdateId.antt =====
-- `newUpdateID` of internal/adapter/postgres/store.go: a UUID of version 4 of 16 random bytes.
pub mod Shape
use Prim.Native.Nat.{bit_and, bit_or}
use fx_quotes.Prelude.{ℕ, zero, suc, take, drop, List, [], ◌∷◌, ◌++◌, Option, none, some}
use fx_quotes.Text.{Text, hex_encode}

-- A statement on one byte: `randomBytes[i] = …`.
abbrev pub set_byte : ℕ → (ℕ → ℕ) → List ℕ → List ℕ
set_byte i f [] = []
set_byte zero f (b ∷ bs) = f b ∷ bs
set_byte (suc i) f (b ∷ bs) = b ∷ set_byte i f bs

unfoldable pub version_byte : ℕ → ℕ
version_byte b = bit_or (bit_and b 0x0f) 0x40

unfoldable pub variant_byte : ℕ → ℕ
variant_byte b = bit_or (bit_and b 0x3f) 0x80

-- The bytes from one index to another: `randomBytes[from:to]`.
abbrev pub slice : ℕ → ℕ → List ℕ → List ℕ
slice from to bs = drop from (take to bs)

-- `none` where `rand.Read` fails.
unfoldable pub new_update_id : Option (List ℕ) → Option Text
unfolding hex_encode version_byte variant_byte
new_update_id none = none
new_update_id (some random) =
    let bytes = set_byte 8 variant_byte (set_byte 6 version_byte random) in
    some (
      hex_encode (slice 0 4 bytes)
      ++ (b'-'
          ∷ (hex_encode (slice 4 6 bytes)
              ++ (b'-'
                  ∷ (hex_encode (slice 6 8 bytes)
                      ++ (b'-'
                          ∷ (hex_encode (slice 8 10 bytes)
                              ++ (b'-' ∷ hex_encode (slice 10 16 bytes)))))))))
