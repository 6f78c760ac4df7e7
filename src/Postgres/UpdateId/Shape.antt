-- ===== src/Postgres/UpdateId/Shape.antt =====
-- The ids that `newUpdateID` generates, against the pattern that the handlers accept.
use fx_quotes.Prelude.{
  ℕ, zero, suc, ◌+◌, ◌*◌, ◌/◌, ◌%◌, ◌≤◌, ◌<◌, ◌≡◌, refl, ap, subst, ◌∙◌, Bool, true, ◌&&◌, List, [],
  ◌∷◌, ◌++◌, some, arith, ltb, length, take, drop, All, append-nil,
}
use fx_quotes.Text.{Text, hex_encode}
use fx_quotes.Text.Hex.{IsByte, hex_digit-IsHex}
use fx_quotes.Http.Request.{is_uuid, hex_run}
use fx_quotes.Postgres.UpdateId.{set_byte, version_byte, variant_byte, slice, new_update_id}

-- Every value of a byte, by evaluation.
all_below : ℕ → (ℕ → Bool) → Bool
all_below zero p = true
all_below (suc n) p = p n && all_below n p

all_below_sound : (n : ℕ) (p : ℕ → Bool) (b : ℕ) → all_below n p ≡ true → b < n → p b ≡ true
unfolding all_below
all_below_sound zero p b h lt = absurd (omega arith)
all_below_sound (suc n) p b h lt = ground (arith, all_below_sound n p b)

version_table : all_below 256 (λ b. ltb (version_byte b) 256) ≡ true
unfolding all_below version_byte
version_table = refl

variant_table : all_below 256 (λ b. ltb (variant_byte b) 256) ≡ true
unfolding all_below variant_byte
variant_table = refl

version_byte-IsByte : (b : ℕ) → IsByte b → IsByte (version_byte b)
version_byte-IsByte b h =
    let below = all_below_sound 256 (λ b. ltb (version_byte b) 256) b version_table h in
    ground arith

variant_byte-IsByte : (b : ℕ) → IsByte b → IsByte (variant_byte b)
variant_byte-IsByte b h =
    let below = all_below_sound 256 (λ b. ltb (variant_byte b) 256) b variant_table h in
    ground arith

set_byte-All :
    (i : ℕ) (f : ℕ → ℕ) (bs : List ℕ)
    → ((b : ℕ) → IsByte b → IsByte (f b))
    → All IsByte bs
    → All IsByte (set_byte i f bs)
set_byte-All i f [] keep h = tt
set_byte-All zero f (b ∷ bs) keep h = (keep b h.0, h.1)
set_byte-All (suc i) f (b ∷ bs) keep h = (h.0, set_byte-All i f bs keep h.1)

length-set_byte : (i : ℕ) (f : ℕ → ℕ) (bs : List ℕ) → length (set_byte i f bs) ≡ length bs
length-set_byte i f [] = refl
length-set_byte zero f (b ∷ bs) = refl
length-set_byte (suc i) f (b ∷ bs) = ap suc (length-set_byte i f bs)

All-take : (n : ℕ) (bs : List ℕ) → All IsByte bs → All IsByte (take n bs)
All-take zero bs h = tt
All-take (suc n) [] h = tt
All-take (suc n) (b ∷ bs) h = (h.0, All-take n bs h.1)

All-drop : (n : ℕ) (bs : List ℕ) → All IsByte bs → All IsByte (drop n bs)
All-drop zero bs h = h
All-drop (suc n) [] h = tt
All-drop (suc n) (b ∷ bs) h = All-drop n bs h.1

length-take : (n : ℕ) (bs : List ℕ) → n ≤ length bs → length (take n bs) ≡ n
length-take zero bs h = refl
length-take (suc n) [] h = absurd (omega arith)
length-take (suc n) (b ∷ bs) h = omega (arith, length-take n bs)

length-drop : (n : ℕ) (bs : List ℕ) → n ≤ length bs → length (drop n bs) + n ≡ length bs
length-drop zero bs h = omega arith
length-drop (suc n) [] h = absurd (omega arith)
length-drop (suc n) (b ∷ bs) h = omega (arith, length-drop n bs)

-- A slice is made of bytes, and is as long as its bounds say.
slice-IsByte :
    (from size : ℕ) (bs : List ℕ)
    → from + size ≤ length bs
    → All IsByte bs
    → (length (slice from (from + size) bs) ≡ size) × All IsByte (slice from (from + size) bs)
slice-IsByte from size bs h all =
    let cut = length-take (from + size) bs h in
    (
      omega (arith, length-drop from (take (from + size) bs), cut),
      All-drop from (take (from + size) bs) (All-take (from + size) bs all),
    )

-- The digits of `n` bytes are `2 n` hexadecimal digits.
hex_run-encode :
    (bs : List ℕ) (rest : Text)
    → All IsByte bs
    → hex_run (2 * length bs) (hex_encode bs ++ rest) ≡ some rest
unfolding hex_run hex_encode
hex_run-encode [] rest h = refl
hex_run-encode (b ∷ bs) rest h =
    let twice : 2 * suc (length bs) ≡ suc (suc (2 * length bs)) = omega arith in
    let high = hex_digit-IsHex (b / 16) (omega arith) in
    let low = hex_digit-IsHex (b % 16) (omega arith) in
    rw (twice, high, low) (hex_run-encode bs rest h.1)

hex_group :
    (n : ℕ) (bs : List ℕ) (rest : Text)
    → 2 * length bs ≡ n
    → All IsByte bs
    → hex_run n (hex_encode bs ++ rest) ≡ some rest
hex_group n bs rest e h =
    subst (λ k. hex_run k (hex_encode bs ++ rest) ≡ some rest) e (hex_run-encode bs rest h)

-- Whatever the 16 random bytes are, the id is a text that the pattern of the handlers accepts.
pub new_update_id-is_uuid :
    (random : List ℕ)
    → length random ≡ 16
    → All IsByte random
    → (id : Text) × (new_update_id (some random) ≡ some id) × (is_uuid id ≡ true)
unfolding new_update_id is_uuid
new_update_id-is_uuid random sixteen all =
    let marked = set_byte 6 version_byte random in
    let bytes = set_byte 8 variant_byte marked in
    let long : length bytes ≡ 16 =
      length-set_byte 8 variant_byte marked ∙ (length-set_byte 6 version_byte random ∙ sixteen) in
    let ok_bytes =
      set_byte-All 8 variant_byte marked variant_byte-IsByte
        (set_byte-All 6 version_byte random version_byte-IsByte all) in
    let (a, a_bytes) = slice-IsByte 0 4 bytes (omega arith) ok_bytes in
    let (b, b_bytes) = slice-IsByte 4 2 bytes (omega arith) ok_bytes in
    let (c, c_bytes) = slice-IsByte 6 2 bytes (omega arith) ok_bytes in
    let (d, d_bytes) = slice-IsByte 8 2 bytes (omega arith) ok_bytes in
    let (e, e_bytes) = slice-IsByte 10 6 bytes (omega arith) ok_bytes in
    (
      _,
      refl,
      rw (
        hex_group 8 (slice 0 4 bytes) _ (omega arith) a_bytes,
        hex_group 4 (slice 4 6 bytes) _ (omega arith) b_bytes,
        hex_group 4 (slice 6 8 bytes) _ (omega arith) c_bytes,
        hex_group 4 (slice 8 10 bytes) _ (omega arith) d_bytes,
        last_group (slice 10 16 bytes) (omega arith) e_bytes,
      ),
    )
  where
    last_group :
        (bs : List ℕ) → 2 * length bs ≡ 12 → All IsByte bs → hex_run 12 (hex_encode bs) ≡ some []
    last_group bs e h = rw append-nil at (hex_group 12 bs [] e h)
