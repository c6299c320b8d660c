-- ===== src/Base/Lists.antt =====
-- Lists measured by native numbers, under the library's names, and the laws the components share.
use Prim.Native.Nat.{ℕ, zero, suc, ◌+◌, ◌-◌, ◌≤◌, min}
use mathlib.Core.Path.{◌≡◌, refl, sym, ap, ◌∙◌}
use mathlib.Core.List.{List, [], ◌∷◌, ◌++◌, map, append_assoc}
use mathlib.Core.Logic.{inl, inr}
use anzdrop.Base.Tests.{Bool-cases}
use mathlib.Core.Bool.{Bool, true, false}
use mathlib.Core.Option.{Option, none, some}
use native.Mathlib.Omega.{arith}

module _ {ℓ} {A : Type ℓ} where
  abbrev pub length : List A → ℕ
  length [] = 0
  length (x ∷ xs) = suc (length xs)

  abbrev pub take : ℕ → List A → List A
  take zero xs = []
  take (suc n) [] = []
  take (suc n) (x ∷ xs) = x ∷ take n xs

  abbrev pub drop : ℕ → List A → List A
  drop zero xs = xs
  drop (suc n) [] = []
  drop (suc n) (x ∷ xs) = drop n xs

  -- Lists of pieces joined end to end.
  abbrev pub concat : List (List A) → List A
  concat [] = []
  concat (xs ∷ xss) = xs ++ concat xss

  -- The items that pass a Boolean test, in order.
  abbrev pub keep : (A → Bool) → List A → List A
  keep p [] = []
  keep p (x ∷ xs) = elim (p x) [ true ↦ x ∷ keep p xs | false ↦ keep p xs ]

  abbrev pub exists : (A → Bool) → List A → Bool
  exists p [] = false
  exists p (x ∷ xs) = elim (p x) [ true ↦ true | false ↦ exists p xs ]

  -- The first item that passes a Boolean test.
  abbrev pub find : (A → Bool) → List A → Option A
  find p [] = none
  find p (x ∷ xs) = elim (p x) [ true ↦ some x | false ↦ find p xs ]

  abbrev pub All {κ} : (A → Type κ) → List A → Type κ
  All P [] = Unit
  All P (x ∷ xs) = P x × All P xs

module _ {ℓ} {A : Type ℓ} where
  pub length-append : (xs ys : List A) → length (xs ++ ys) ≡ length xs + length ys
  length-append [] ys = omega arith
  length-append (x ∷ xs) ys = omega (arith, length-append xs ys)

  pub take-append-drop : (n : ℕ) (xs : List A) → take n xs ++ drop n xs ≡ xs
  take-append-drop zero xs = refl
  take-append-drop (suc n) [] = refl
  take-append-drop (suc n) (x ∷ xs) = rw (take-append-drop n xs)

  pub length-take : (n : ℕ) (xs : List A) → length (take n xs) ≡ min n (length xs)
  length-take zero xs = omega arith
  length-take (suc n) [] = omega arith
  length-take (suc n) (x ∷ xs) = omega (arith, length-take n xs)

  pub length-drop : (n : ℕ) (xs : List A) → length (drop n xs) ≡ length xs - n
  length-drop zero xs = omega arith
  length-drop (suc n) [] = omega arith
  length-drop (suc n) (x ∷ xs) = omega (arith, length-drop n xs)

  pub take-append_of_length : (xs ys : List A) → take (length xs) (xs ++ ys) ≡ xs
  take-append_of_length [] ys = refl
  take-append_of_length (x ∷ xs) ys = rw (take-append_of_length xs ys)

  pub drop-append_of_length : (xs ys : List A) → drop (length xs) (xs ++ ys) ≡ ys
  drop-append_of_length [] ys = refl
  drop-append_of_length (x ∷ xs) ys = drop-append_of_length xs ys

  pub take-append_of_le : (n : ℕ) (xs ys : List A) → n ≤ length xs → take n (xs ++ ys) ≡ take n xs
  take-append_of_le zero xs ys h = refl
  take-append_of_le (suc n) [] ys h = absurd (omega arith)
  take-append_of_le (suc n) (x ∷ xs) ys h = rw (take-append_of_le n xs ys (omega arith))

  pub drop-append_of_le :
      (n : ℕ) (xs ys : List A) → n ≤ length xs → drop n (xs ++ ys) ≡ drop n xs ++ ys
  drop-append_of_le zero xs ys h = refl
  drop-append_of_le (suc n) [] ys h = absurd (omega arith)
  drop-append_of_le (suc n) (x ∷ xs) ys h = drop-append_of_le n xs ys (omega arith)

  pub take_all : (n : ℕ) (xs : List A) → length xs ≤ n → take n xs ≡ xs
  take_all zero [] h = refl
  take_all zero (x ∷ xs) h = absurd (omega arith)
  take_all (suc n) [] h = refl
  take_all (suc n) (x ∷ xs) h = rw (take_all n xs (omega arith))

  pub drop_all : (n : ℕ) (xs : List A) → length xs ≤ n → drop n xs ≡ []
  drop_all zero [] h = refl
  drop_all zero (x ∷ xs) h = absurd (omega arith)
  drop_all (suc n) [] h = refl
  drop_all (suc n) (x ∷ xs) h = drop_all n xs (omega arith)

  pub eq-nil_of_length : (xs : List A) → length xs ≡ 0 → xs ≡ []
  eq-nil_of_length [] h = refl
  eq-nil_of_length (x ∷ xs) h = absurd (omega arith)

  pub concat-append : (xss yss : List (List A)) → concat (xss ++ yss) ≡ concat xss ++ concat yss
  concat-append [] yss = refl
  concat-append (xs ∷ xss) yss = simp (concat-append xss yss, append_assoc)

  pub take-append :
      (n : ℕ) (xs ys : List A)
      → take n (xs ++ ys) ≡ take (min (length xs) n) xs ++ take (n - min (length xs) n) ys
  take-append zero xs ys = let e : min (length xs) 0 ≡ 0 = omega arith in rw e
  take-append (suc n) [] ys =
      let e : min 0 (suc n) ≡ 0 = omega arith in
      let f : suc n - 0 ≡ suc n = omega arith in rw (e, f)
  take-append (suc n) (x ∷ xs) ys =
      let e : min (suc (length xs)) (suc n) ≡ suc (min (length xs) n) = omega arith in
      let f : suc n - suc (min (length xs) n) ≡ n - min (length xs) n = omega arith in
      rw (e, f) (ap (λ r. x ∷ r) (take-append n xs ys))

  pub drop-append :
      (n : ℕ) (xs ys : List A) → drop n (xs ++ ys) ≡ drop n xs ++ drop (n - length xs) ys
  drop-append zero xs ys = let e : 0 - length xs ≡ 0 = omega arith in rw e
  drop-append (suc n) [] ys = let e : suc n - 0 ≡ suc n = omega arith in rw e
  drop-append (suc n) (x ∷ xs) ys =
      let e : suc n - suc (length xs) ≡ n - length xs = omega arith in rw e (drop-append n xs ys)

  pub take-append_of_eq : (n : ℕ) (xs ys : List A) → length xs ≡ n → take n (xs ++ ys) ≡ xs
  take-append_of_eq n xs ys e = rw (← e) (take-append_of_length xs ys)

  pub drop-append_of_eq : (n : ℕ) (xs ys : List A) → length xs ≡ n → drop n (xs ++ ys) ≡ ys
  drop-append_of_eq n xs ys e = rw (← e) (drop-append_of_length xs ys)

module _ {ℓ} {A : Type ℓ} where
  -- An update that a test does not see leaves what the test finds, updated.
  pub find-map :
      (p : A → Bool) (f : A → A)
      → ((x : A) → p (f x) ≡ p x)
      → (xs : List A) → find p (map f xs) ≡ elim (find p xs) [ none ↦ none | some x ↦ some (f x) ]
  find-map p f same_test [] = refl
  find-map p f same_test (x ∷ xs) = elim (Bool-cases (p x)) [
    | inl h ↦ rw (same_test x, h) refl
    | inr h ↦ rw (same_test x, h) (find-map p f same_test xs)
  ]

  -- What is found passes the test.
  pub find-passes : (p : A → Bool) (xs : List A) (x : A) → find p xs ≡ some x → p x ≡ true
  find-passes p [] x h = cc
  find-passes p (y ∷ ys) x h = elim (Bool-cases (p y)) [
    | inl e ↦ let same_item : y ≡ x = ground (arith, h, e) in rw (← same_item) e
    | inr e ↦ find-passes p ys x (ground (arith, h, e))
  ]

  pub keep-true :
      (p : A → Bool) (x : A) (xs : List A) → p x ≡ true → keep p (x ∷ xs) ≡ x ∷ keep p xs
  keep-true p x xs h = rw (h, keep) refl

  pub keep-false : (p : A → Bool) (x : A) (xs : List A) → p x ≡ false → keep p (x ∷ xs) ≡ keep p xs
  keep-false p x xs h = rw (h, keep) refl

  pub find-head : (p : A → Bool) (x : A) (xs : List A) → p x ≡ true → find p (x ∷ xs) ≡ some x
  find-head p x xs h = rw (h, find) refl

  pub find-tail : (p : A → Bool) (x : A) (xs : List A) → p x ≡ false → find p (x ∷ xs) ≡ find p xs
  find-tail p x xs h = rw (h, find) refl

  -- Removing items that a test does not look for leaves what the test finds.
  pub find-keep :
      (p q : A → Bool)
      → ((x : A) → p x ≡ true → q x ≡ true)
      → (xs : List A) → find p (keep q xs) ≡ find p xs
  find-keep p q kept [] = refl
  find-keep p q kept (x ∷ xs) = elim (Bool-cases (q x)) [
    | inl b ↦ elim (Bool-cases (p x)) [
      | inl a ↦ rw (keep-true q x xs b, find-head p x (keep q xs) a, find-head p x xs a) refl
      | inr a ↦
          ap (find p) (keep-true q x xs b)
          ∙ find-tail p x (keep q xs) a
          ∙ find-keep p q kept xs
          ∙ sym (find-tail p x xs a)
    ]
    | inr b ↦ elim (Bool-cases (p x)) [
      | inl a ↦ absurd (ground (arith, kept x a, b))
      | inr a ↦ ap (find p) (keep-false q x xs b) ∙ find-keep p q kept xs ∙ sym (find-tail p x xs a)
    ]
  ]

module _ {ℓ κ μ} {A : Type ℓ} where
  pub All-imp :
      (P : A → Type κ) (Q : A → Type μ)
      → ((x : A) → P x → Q x)
      → (xs : List A) → All P xs
      → All Q xs
  All-imp P Q step [] h = tt
  All-imp P Q step (x ∷ xs) (h, hs) = (step x h, All-imp P Q step xs hs)
