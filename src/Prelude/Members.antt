-- ===== src/Prelude/Members.antt =====
-- Membership in the lists that `filter`, `take` and `map` give. `In` is the library's family.
use mathlib.Core.Path.{◌≡◌, refl, ap}
use mathlib.Core.List.{List, [], ◌∷◌, ◌++◌, map, Memᴰ}
use mathlib.Core.Bool.{Bool, true}
use mathlib.Core.Logic.{◌⊎◌, inl, inr}
use fx_quotes.Prelude.Tests.{Bool-cases}
use fx_quotes.Prelude.Lists.{take, filter, All}
use Prim.Native.Nat.{ℕ, zero, suc}

module _ {ℓ} {A : Type ℓ} where
  pub not-In-nil {κ} : {B : Type κ} {x : A} → Memᴰ x [] → B
  not-In-nil h = elim h [ ]

  pub In-take : (n : ℕ) (xs : List A) {x : A} → Memᴰ x (take n xs) → Memᴰ x xs
  In-take zero xs h = elim h [ ]
  In-take (suc n) [] h = h
  In-take (suc n) (y ∷ ys) (Memᴰ.head e) = Memᴰ.head e
  In-take (suc n) (y ∷ ys) (Memᴰ.tail h) = Memᴰ.tail (In-take n ys h)

  pub In-cases : {x y : A} {ys : List A} → Memᴰ x (y ∷ ys) → (x ≡ y) ⊎ Memᴰ x ys
  In-cases (Memᴰ.head e) = inl e
  In-cases (Memᴰ.tail h) = inr h

module _ {ℓ} {A : Type ℓ} where
  pub In-filter :
      (p : A → Bool) (xs : List A) {x : A} → Memᴰ x (filter p xs) → Memᴰ x xs × (p x ≡ true)
  In-filter p [] h = elim h [ ]
  In-filter p (y ∷ ys) {x} h = elim (Bool-cases (p y)) [
    | inl pass ↦ elim (In-cases (rw pass at h)) [
      | inl e ↦ (Memᴰ.head e, rw e pass)
      | inr k ↦ let (m, q) = In-filter p ys k in (Memᴰ.tail m, q)
    ]
    | inr fails ↦ let (m, q) = In-filter p ys (rw fails at h) in (Memᴰ.tail m, q)
  ]

  pub filter-In :
      (p : A → Bool) (xs : List A) {x : A} → Memᴰ x xs → p x ≡ true → Memᴰ x (filter p xs)
  filter-In p [] h q = elim h [ ]
  filter-In p (y ∷ ys) (Memᴰ.head e) q = rw (rw e at q) (Memᴰ.head e)
  filter-In p (y ∷ ys) (Memᴰ.tail h) q = elim (Bool-cases (p y)) [
    | inl pass ↦ rw pass (Memᴰ.tail (filter-In p ys h q))
    | inr fails ↦ rw fails (filter-In p ys h q)
  ]

  pub In-append_left : (xs ys : List A) {x : A} → Memᴰ x xs → Memᴰ x (xs ++ ys)
  In-append_left [] ys h = elim h [ ]
  In-append_left (y ∷ xs) ys (Memᴰ.head e) = Memᴰ.head e
  In-append_left (y ∷ xs) ys (Memᴰ.tail h) = Memᴰ.tail (In-append_left xs ys h)

  pub In-append_right : (xs ys : List A) {x : A} → Memᴰ x ys → Memᴰ x (xs ++ ys)
  In-append_right [] ys h = h
  In-append_right (y ∷ xs) ys h = Memᴰ.tail (In-append_right xs ys h)

  pub append-In : (xs ys : List A) {x : A} → Memᴰ x (xs ++ ys) → Memᴰ x xs ⊎ Memᴰ x ys
  append-In [] ys h = inr h
  append-In (y ∷ xs) ys (Memᴰ.head e) = inl (Memᴰ.head e)
  append-In (y ∷ xs) ys (Memᴰ.tail h) = elim (append-In xs ys h) [
    | inl k ↦ inl (Memᴰ.tail k)
    | inr k ↦ inr k
  ]

  pub In-map {κ} :
      {B : Type κ} (f : A → B) (xs : List A) {x : A} → Memᴰ x xs → Memᴰ (f x) (map f xs)
  In-map f [] h = elim h [ ]
  In-map f (y ∷ xs) (Memᴰ.head e) = Memᴰ.head (ap f e)
  In-map f (y ∷ xs) (Memᴰ.tail h) = Memᴰ.tail (In-map f xs h)

  pub map-In {κ} :
      {B : Type κ} (f : A → B) (xs : List A) {b : B}
      → Memᴰ b (map f xs)
      → (x : A) × Memᴰ x xs × (b ≡ f x)
  map-In f [] h = elim h [ ]
  map-In f (y ∷ xs) (Memᴰ.head e) = (y, Memᴰ.head refl, e)
  map-In f (y ∷ xs) (Memᴰ.tail h) = let (x, m, e) = map-In f xs h in (x, Memᴰ.tail m, e)

  pub All-In {κ} : {P : A → Type κ} (xs : List A) → ((x : A) → Memᴰ x xs → P x) → All P xs
  All-In [] h = tt
  All-In (x ∷ xs) h = (h x (Memᴰ.head refl), All-In xs (λ y k. h y (Memᴰ.tail k)))

  pub In-All {κ} : (P : A → Type κ) (xs : List A) {x : A} → All P xs → Memᴰ x xs → P x
  In-All P [] h m = elim m [ ]
  In-All P (y ∷ ys) h (Memᴰ.head e) = rw e h.0
  In-All P (y ∷ ys) h (Memᴰ.tail k) = In-All P ys h.1 k
