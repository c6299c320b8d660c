-- ===== src/Auth/TimingSafeEqual.antt =====
-- lib/timingSafeEqual.ts. `TextEncoder` is modelled by the code points of the text: like UTF-8 they
-- determine it, and nothing else of the encoding is used.
use Prim.Native.Char.{code}
use text.Mathlib.TextEquality.{Char-path}
use Prim.Native.Nat.{bit_or, bit_xor}
use Prim.Native.String.{String}
use anzdrop.Base.{
  ℕ, ◌≡◌, refl, ap, Bool, true, false, List, [], ◌∷◌, arith, length, ◌==◌, if◌then◌else◌, ◌↔◌,
  truthy, ◌&&◌, Option, none, some,
}
use anzdrop.Base.Bits.{bit_or_zero, bit_xor_zero, bit_xor_self}

-- The loop: `diff |= a[i] ^ b[i]`.
fold_diff : ℕ → List ℕ → List ℕ → ℕ
fold_diff diff (x ∷ xs) (y ∷ ys) = fold_diff (bit_or diff (bit_xor x y)) xs ys
fold_diff diff _ _ = diff

unfoldable pub timing_safe_equal : List ℕ → List ℕ → Bool
unfolding fold_diff
timing_safe_equal a b = if length a == length b then fold_diff 0 a b == 0 else false

fold_diff_zero :
    (diff : ℕ) (a b : List ℕ) → length a ≡ length b → fold_diff diff a b ≡ 0 → (diff ≡ 0) × (a ≡ b)
unfolding fold_diff
fold_diff_zero diff [] [] h e = (e, refl)
fold_diff_zero diff [] (y ∷ ys) h e = absurd (omega arith)
fold_diff_zero diff (x ∷ xs) [] h e = absurd (omega arith)
fold_diff_zero diff (x ∷ xs) (y ∷ ys) h e =
    let rest = fold_diff_zero (bit_or diff (bit_xor x y)) xs ys (omega arith) e in
    let parts = bit_or_zero diff (bit_xor x y) rest.0 in
    (parts.0, cc (bit_xor_zero x y parts.1, rest.1))

fold_diff_self : (a : List ℕ) → fold_diff 0 a a ≡ 0
unfolding fold_diff
fold_diff_self [] = refl
fold_diff_self (x ∷ xs) = rw (bit_xor_self x) (fold_diff_self xs)

-- The comparison without early exit decides equality.
pub timing_safe_equal_iff : (a b : List ℕ) → (timing_safe_equal a b ≡ true) ↔ (a ≡ b)
unfolding timing_safe_equal
timing_safe_equal_iff a b = (equal, λ e. rw e refl_case)
  where
    equal : timing_safe_equal a b ≡ true → a ≡ b
    equal h =
        let n : length a ≡ length b = ground arith in
        let z : fold_diff 0 a b ≡ 0 = ground arith in (fold_diff_zero 0 a b n z).1

    refl_case : timing_safe_equal b b ≡ true
    refl_case = ground (arith, fold_diff_self b)

-- `new TextEncoder().encode(text)`
abbrev pub encode : String → List ℕ
encode String.[] = []
encode (String.◌∷◌ c s) = code c ∷ encode s

encode_injective : (s t : String) → encode s ≡ encode t → s ≡ t
encode_injective String.[] String.[] e = refl
encode_injective String.[] (String.◌∷◌ d t) e = cc
encode_injective (String.◌∷◌ c s) String.[] e = cc
encode_injective (String.◌∷◌ c s) (String.◌∷◌ d t) e =
    let heads : code c ≡ code d = cc in
    let tails : encode s ≡ encode t = cc in cc (Char-path c d heads, encode_injective s t tails)

-- `!!stored && timingSafeEqual(encode(stored), encode(provided))`, as share-auth.ts,
-- uploadSessionAuth.ts and upload/complete write it.
unfoldable pub token_matches : Option String → String → Bool
token_matches none provided = false
token_matches (some stored) provided =
    truthy stored && timing_safe_equal (encode stored) (encode provided)

-- A token is accepted exactly when one is stored, it is not empty, and it is the one provided.
pub token_matches_iff :
    (stored : Option String) (provided : String)
    → (token_matches stored provided ≡ true) ↔ ((stored ≡ some provided) × (truthy provided ≡ true))
unfolding token_matches
token_matches_iff none provided = (λ h. cc, λ h. cc)
token_matches_iff (some stored) provided = (accepted, matched)
  where
    matched :
        (some stored ≡ some provided) × (truthy provided ≡ true)
        → token_matches (some stored) provided ≡ true
    matched h =
        let e : stored ≡ provided = cc in
        rw e
          (ground (arith, h.1, (timing_safe_equal_iff (encode provided) (encode provided)).1 refl))

    accepted :
        token_matches (some stored) provided ≡ true
        → (some stored ≡ some provided) × (truthy provided ≡ true)
    accepted h =
        let equal : timing_safe_equal (encode stored) (encode provided) ≡ true = ground arith in
        let full : truthy stored ≡ true = ground arith in
        let e =
          encode_injective stored provided
            ((timing_safe_equal_iff (encode stored) (encode provided)).0 equal) in
        (ap some e, rw (← e) full)
