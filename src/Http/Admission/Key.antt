-- ===== src/Http/Admission/Key.antt =====
-- Which idempotency key the headers give.
use fx_quotes.Prelude.{
  ℕ, ◌≤◌, ◌≡◌, refl, inl, inr, true, List, [], ◌∷◌, none, some, arith, All, Bool-cases, length,
}
use fx_quotes.Text.{Text, utf8}
use fx_quotes.Http.Request.{visible_ascii, all_visible}
use fx_quotes.Http.Handler.{key_of}

-- From 1 to 128 bytes, each a visible ASCII character.
abbrev pub IsVisible : Text → Type 0
IsVisible key =
    (1 ≤ length (utf8 key))
    × (length (utf8 key) ≤ 128)
    × All (λ b. (0x21 ≤ b) × (b ≤ 0x7e)) (utf8 key)

-- No header gives the empty key, one header its value, where that is visible, and several give none.
abbrev pub IsKeyOf : List Text → Text → Type 0
IsKeyOf [] key = key ≡ []
IsKeyOf (value ∷ []) key = (key ≡ value) × IsVisible value
IsKeyOf (value ∷ value' ∷ values) key = ⊥

all_visible-All : (bs : List ℕ) → all_visible bs ≡ true → All (λ b. (0x21 ≤ b) × (b ≤ 0x7e)) bs
unfolding all_visible
all_visible-All [] h = tt
all_visible-All (b ∷ bs) h = (ground (arith, h), all_visible-All bs (ground (arith, h)))

All-all_visible : (bs : List ℕ) → All (λ b. (0x21 ≤ b) × (b ≤ 0x7e)) bs → all_visible bs ≡ true
unfolding all_visible
All-all_visible [] h = refl
All-all_visible (b ∷ bs) h = ground (arith, h.0, All-all_visible bs h.1)

visible_ascii-IsVisible : (key : Text) → visible_ascii key ≡ true → IsVisible key
unfolding visible_ascii
visible_ascii-IsVisible key h =
    let all : all_visible (utf8 key) ≡ true = ground (arith, h) in
    (ground (arith, h), ground (arith, h), all_visible-All (utf8 key) all)

IsVisible-visible_ascii : (key : Text) → IsVisible key → visible_ascii key ≡ true
unfolding visible_ascii
IsVisible-visible_ascii key (low, high, all) =
    ground (arith, low, high, All-all_visible (utf8 key) all)

pub key_of-IsKeyOf : (keys : List Text) {key : Text} → key_of keys ≡ some key → IsKeyOf keys key
unfolding key_of
key_of-IsKeyOf [] h = cc h
key_of-IsKeyOf (k ∷ []) h = elim (Bool-cases (visible_ascii k)) [
  | inl visible ↦ (cc (rw visible at h), visible_ascii-IsVisible k visible)
  | inr hidden ↦ cc (rw hidden at h)
]
key_of-IsKeyOf (k ∷ l ∷ ls) h = cc h

pub key_of-none : (keys : List Text) → key_of keys ≡ none → (key : Text) → ¬ IsKeyOf keys key
unfolding key_of
key_of-none [] h key given = cc h
key_of-none (k ∷ []) h key (same, visible) = cc (rw (IsVisible-visible_ascii k visible) at h)
key_of-none (k ∷ l ∷ ls) h key given = given
