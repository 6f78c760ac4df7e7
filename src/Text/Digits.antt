-- ===== src/Text/Digits.antt =====
-- The string functions on texts of digits.
use fx_quotes.Prelude.{
  ℕ, zero, suc, ◌≤◌, ◌≡◌, refl, Bool, true, false, ◌⊎◌, inl, inr, [], ◌∷◌, ◌++◌, none, some, arith,
  All, replicate, length, All-append, All-map,
}
use fx_quotes.Text.{
  Text, codes, is_space, trim_space, trim_left_func, trim_right_func, contains_any, count,
  split_two,
}
use fx_quotes.Text.Laws.{trim_space-none}

abbrev pub IsDigit : ℕ → Type 0
IsDigit c = (b'0' ≤ c) × (c ≤ b'9')

-- A digit or the decimal point.
abbrev pub IsPlain : ℕ → Type 0
IsPlain c = (c ≡ b'.') ⊎ IsDigit c

visible_not_space : (c : ℕ) → 33 ≤ c → c ≤ 126 → is_space c ≡ false
unfolding is_space
visible_not_space c lo hi = ground arith

IsPlain-not_space : (c : ℕ) → IsPlain c → is_space c ≡ false
IsPlain-not_space c h = visible_not_space c (omega arith) (omega arith)

pub trim_space-plain : (s : Text) → All IsPlain s → trim_space s ≡ s
trim_space-plain s h = trim_space-none s (All-map IsPlain-not_space s h)

pub contains_any-plain : (s : Text) → All IsPlain s → contains_any s (codes "eE+-") ≡ false
unfolding contains_any
contains_any-plain [] h = refl
contains_any-plain (c ∷ s) h = ground (arith, contains_any-plain s h.1)

pub count-digits : (s : Text) → All IsDigit s → count s b'.' ≡ 0
unfolding count
count-digits [] h = refl
count-digits (c ∷ s) h = ground (arith, count-digits s h.1)

pub count-point : (s t : Text) → All IsDigit s → All IsDigit t → count (s ++ b'.' ∷ t) b'.' ≡ 1
unfolding count
count-point [] t hs ht = ground (arith, count-digits t ht)
count-point (c ∷ s) t hs ht = ground (arith, count-point s t hs.1 ht)

pub split_two-digits : (s : Text) → All IsDigit s → split_two b'.' s ≡ (s, none)
unfolding split_two
split_two-digits [] h = refl
split_two-digits (c ∷ s) h = ground (arith, split_two-digits s h.1)

pub split_two-point : (s t : Text) → All IsDigit s → split_two b'.' (s ++ b'.' ∷ t) ≡ (s, some t)
unfolding split_two
split_two-point [] t h = refl
split_two-point (c ∷ s) t h = ground (arith, split_two-point s t h.1)

pub digits-IsPlain : (s : Text) → All IsDigit s → All IsPlain s
digits-IsPlain s h = All-map (λ c d. inr d) s h

pub point-IsPlain : (s t : Text) → All IsDigit s → All IsDigit t → All IsPlain (s ++ b'.' ∷ t)
point-IsPlain s t hs ht =
    All-append IsPlain s (b'.' ∷ t) (digits-IsPlain s hs) (inl refl, digits-IsPlain t ht)

module _ (p : ℕ → Bool) where
  pub trim_left_func-All {κ} : (P : ℕ → Type κ) (s : Text) → All P s → All P (trim_left_func p s)
  unfolding trim_left_func
  trim_left_func-All P [] h = tt
  trim_left_func-All P (c ∷ s) h = ground (arith, trim_left_func-All P s h.1)

  pub trim_right_func-All {κ} : (P : ℕ → Type κ) (s : Text) → All P s → All P (trim_right_func p s)
  unfolding trim_right_func
  trim_right_func-All P [] h = tt
  trim_right_func-All P (c ∷ s) h = ground (arith, trim_right_func-All P s h.1)

  pub length-trim_left_func : (s : Text) → length (trim_left_func p s) ≤ length s
  unfolding trim_left_func
  length-trim_left_func [] = omega arith
  length-trim_left_func (c ∷ s) = ground (arith, length-trim_left_func s)

  pub length-trim_right_func : (s : Text) → length (trim_right_func p s) ≤ length s
  unfolding trim_right_func
  length-trim_right_func [] = omega arith
  length-trim_right_func (c ∷ s) = ground (arith, length-trim_right_func s)

  pub trim_left_func_twice : (s : Text) → trim_left_func p (trim_left_func p s) ≡ trim_left_func p s
  unfolding trim_left_func
  trim_left_func_twice [] = refl
  trim_left_func_twice (c ∷ s) = ground (arith, trim_left_func_twice s)

  pub trim_right_func_twice :
      (s : Text) → trim_right_func p (trim_right_func p s) ≡ trim_right_func p s
  unfolding trim_right_func
  trim_right_func_twice [] = refl
  trim_right_func_twice (c ∷ s) = ground (arith, trim_right_func_twice s)

  -- What is trimmed on the right is a run of trimmed characters.
  pub trim_right_func-padded :
      (s : Text) (n c : ℕ)
      → p c ≡ true
      → trim_right_func p (s ++ replicate n c) ≡ trim_right_func p s
  unfolding trim_right_func
  trim_right_func-padded [] zero c h = refl
  trim_right_func-padded [] (suc n) c h = ground (arith, trim_right_func-padded [] n c h)
  trim_right_func-padded (d ∷ s) n c h = ground (arith, trim_right_func-padded s n c h)
