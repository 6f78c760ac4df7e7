-- ===== src/Text/Laws.antt =====
-- Laws of the string functions.
use fx_quotes.Prelude.{ℕ, ◌≡◌, ◌↔◌, refl, true, false, arith, [], ◌∷◌, All, Bool}
use fx_quotes.Text.{Text, text_eq, trim_left_func, trim_right_func, trim_space, is_space}

pub text_eq_iff : (s t : Text) → (text_eq s t ≡ true) ↔ (s ≡ t)
unfolding text_eq
text_eq_iff [] [] = ground arith
text_eq_iff [] (d ∷ t) = ground arith
text_eq_iff (c ∷ s) [] = ground arith
text_eq_iff (c ∷ s) (d ∷ t) = ground (arith, text_eq_iff s t)

pub text_eq_refl : (s : Text) → text_eq s s ≡ true
text_eq_refl s = (text_eq_iff s s).1 refl

pub trim_left_func-none :
    (p : ℕ → Bool) (s : Text) → All (λ c. p c ≡ false) s → trim_left_func p s ≡ s
unfolding trim_left_func
trim_left_func-none p [] h = refl
trim_left_func-none p (c ∷ s) h = ground arith

pub trim_right_func-none :
    (p : ℕ → Bool) (s : Text) → All (λ c. p c ≡ false) s → trim_right_func p s ≡ s
unfolding trim_right_func
trim_right_func-none p [] h = refl
trim_right_func-none p (c ∷ s) h = ground (arith, trim_right_func-none p s h.1)

-- A text with no space in it is left as it is.
pub trim_space-none : (s : Text) → All (λ c. is_space c ≡ false) s → trim_space s ≡ s
unfolding trim_space
trim_space-none s h = rw (trim_left_func-none is_space s h) (trim_right_func-none is_space s h)
