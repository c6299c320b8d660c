-- ===== src/Crypto/Bytes.antt =====
-- The `Uint8Array` operations that the program uses: a zero-filled array and `set`.
use anzdrop.Base.{
  ℕ, zero, suc, ◌+◌, ◌≤◌, ◌≡◌, refl, List, [], ◌∷◌, ◌++◌, Option, none, some, arith, length, take,
  drop, leb, if◌then◌else◌,
}

abbrev pub Bytes : Type 0
Bytes = List ℕ

abbrev pub zeros : ℕ → Bytes
zeros zero = []
zeros (suc n) = 0 ∷ zeros n

-- `target.set(source, offset)`; `none` is the RangeError of a source that does not fit.
unfoldable pub set_bytes : Bytes → Bytes → ℕ → Option Bytes
set_bytes target source offset =
    if leb (offset + length source) (length target)
    then some (take offset target ++ (source ++ drop (offset + length source) target))
    else none

pub length-zeros : (n : ℕ) → length (zeros n) ≡ n
length-zeros zero = refl
length-zeros (suc n) = omega (arith, length-zeros n)

pub take-zeros : (n m : ℕ) → n ≤ m → take n (zeros m) ≡ zeros n
take-zeros zero m h = refl
take-zeros (suc n) zero h = absurd (omega arith)
take-zeros (suc n) (suc m) h = rw (take-zeros n m (omega arith))

pub drop-zeros : (n k : ℕ) → drop n (zeros (n + k)) ≡ zeros k
drop-zeros zero k = let e : zero + k ≡ k = omega arith in rw e
drop-zeros (suc n) k = let e : suc n + k ≡ suc (n + k) = omega arith in rw e (drop-zeros n k)
