-- ===== src/Base/Member.antt =====
-- Membership in a list, against the Boolean tests on lists.
use Prim.Native.Nat.{ℕ, zero, suc}
use mathlib.Core.Path.{◌≡◌, refl, sym, subst, ◌∙◌}
use mathlib.Core.List.{List, [], ◌∷◌, map, Memᴰ}
use mathlib.Core.Logic.{inl, inr}
use mathlib.Core.Bool.{Bool, true, false}
use mathlib.Core.Option.{none}
use native.Mathlib.Omega.{arith}
use anzdrop.Base.Tests.{Bool-cases}
use anzdrop.Base.Lists.{exists, find, find-head, find-tail, keep, keep-true, keep-false, take, All}

module _ {A : Type 0} where
  pub Memᴰ-exists :
      (p : A → Bool) (x : A) (xs : List A) → Memᴰ x xs → p x ≡ true → exists p xs ≡ true
  Memᴰ-exists p x [] m h = elim m [ ]
  Memᴰ-exists p x (y ∷ ys) (Memᴰ.head e) h = let g : p y ≡ true = rw (← e) h in rw (exists, g) refl
  Memᴰ-exists p x (y ∷ ys) (Memᴰ.tail m) h = elim (Bool-cases (p y)) [
    | inl g ↦ rw (exists, g) refl
    | inr g ↦ rw (exists, g) (Memᴰ-exists p x ys m h)
  ]

  pub exists-Memᴰ :
      (p : A → Bool) (xs : List A) → exists p xs ≡ true → (x : A) × Memᴰ x xs × (p x ≡ true)
  exists-Memᴰ p [] h = cc
  exists-Memᴰ p (y ∷ ys) h = elim (Bool-cases (p y)) [
    | inl g ↦ (y, Memᴰ.head refl, g)
    | inr g ↦ let (x, m, e) = exists-Memᴰ p ys (ground (arith, g, h)) in (x, Memᴰ.tail m, e)
  ]

  pub All-of-Memᴰ {κ} : (P : A → Type κ) (xs : List A) → ((x : A) → Memᴰ x xs → P x) → All P xs
  All-of-Memᴰ P [] h = tt
  All-of-Memᴰ P (x ∷ xs) h = (h x (Memᴰ.head refl), All-of-Memᴰ P xs (λ y m. h y (Memᴰ.tail m)))

  pub find-none : (p : A → Bool) (x : A) (xs : List A) → find p xs ≡ none → Memᴰ x xs → p x ≡ false
  find-none p x [] h m = elim m [ ]
  find-none p x (y ∷ ys) h m = elim (Bool-cases (p y)) [
    | inl g ↦ absurd (cc (find-head p y ys g, h))
    | inr g ↦ at_head g (find-none p x ys (sym (find-tail p y ys g) ∙ h)) m
  ]
    where
      at_head : p y ≡ false → (Memᴰ x ys → p x ≡ false) → Memᴰ x (y ∷ ys) → p x ≡ false
      at_head g rest (Memᴰ.head e) = rw e g
      at_head g rest (Memᴰ.tail n) = rest n

  pub Memᴰ-keep : (p : A → Bool) (x : A) (xs : List A) → Memᴰ x xs → p x ≡ true → Memᴰ x (keep p xs)
  Memᴰ-keep p x [] m h = elim m [ ]
  Memᴰ-keep p x (y ∷ ys) (Memᴰ.head e) h = rw (keep-true p y ys (rw (← e) h)) (Memᴰ.head e)
  Memᴰ-keep p x (y ∷ ys) (Memᴰ.tail m) h = elim (Bool-cases (p y)) [
    | inl g ↦ rw (keep-true p y ys g) (Memᴰ.tail (Memᴰ-keep p x ys m h))
    | inr g ↦ rw (keep-false p y ys g) (Memᴰ-keep p x ys m h)
  ]

  pub keep-Memᴰ :
      (p : A → Bool) (x : A) (xs : List A) → Memᴰ x (keep p xs) → Memᴰ x xs × (p x ≡ true)
  keep-Memᴰ p x [] m = elim m [ ]
  keep-Memᴰ p x (y ∷ ys) m = elim (Bool-cases (p y)) [
    | inl g ↦ split (keep-Memᴰ p x ys) g (rw (keep-true p y ys g) at m)
    | inr g ↦ let (n, e) = keep-Memᴰ p x ys (rw (keep-false p y ys g) at m) in (Memᴰ.tail n, e)
  ]
    where
      split :
          (Memᴰ x (keep p ys) → Memᴰ x ys × (p x ≡ true))
          → p y ≡ true
          → Memᴰ x (y ∷ keep p ys)
          → Memᴰ x (y ∷ ys) × (p x ≡ true)
      split ih g (Memᴰ.head e) = (Memᴰ.head e, rw e g)
      split ih g (Memᴰ.tail n) = let (k, e) = ih n in (Memᴰ.tail k, e)

  pub take-Memᴰ : (n : ℕ) (x : A) (xs : List A) → Memᴰ x (take n xs) → Memᴰ x xs
  take-Memᴰ zero x xs m = elim m [ ]
  take-Memᴰ (suc n) x [] m = elim m [ ]
  take-Memᴰ (suc n) x (y ∷ ys) (Memᴰ.head e) = Memᴰ.head e
  take-Memᴰ (suc n) x (y ∷ ys) (Memᴰ.tail m) = Memᴰ.tail (take-Memᴰ n x ys m)

  pub All-Memᴰ {κ} : (P : A → Type κ) (x : A) (xs : List A) → All P xs → Memᴰ x xs → P x
  All-Memᴰ P x [] h m = elim m [ ]
  All-Memᴰ P x (y ∷ ys) h (Memᴰ.head e) = subst P (sym e) h.0
  All-Memᴰ P x (y ∷ ys) h (Memᴰ.tail m) = All-Memᴰ P x ys h.1 m

module _ {A B : Type 0} where
  pub Memᴰ-map : (f : A → B) (x : A) (xs : List A) → Memᴰ x xs → Memᴰ (f x) (map f xs)
  Memᴰ-map f x [] m = elim m [ ]
  Memᴰ-map f x (y ∷ ys) (Memᴰ.head e) = Memᴰ.head (rw e refl)
  Memᴰ-map f x (y ∷ ys) (Memᴰ.tail m) = Memᴰ.tail (Memᴰ-map f x ys m)

  pub map-Memᴰ :
      (f : A → B) (y : B) (xs : List A) → Memᴰ y (map f xs) → (x : A) × Memᴰ x xs × (f x ≡ y)
  map-Memᴰ f y [] m = elim m [ ]
  map-Memᴰ f y (x ∷ xs) (Memᴰ.head e) = (x, Memᴰ.head refl, sym e)
  map-Memᴰ f y (x ∷ xs) (Memᴰ.tail m) = let (z, n, e) = map-Memᴰ f y xs m in (z, Memᴰ.tail n, e)
