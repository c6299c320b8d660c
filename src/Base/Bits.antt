-- ===== src/Base/Bits.antt =====
-- When `|` and `^` give 0. The native operations stand for a recursion on binary digits.
use Prim.Native.Nat.{max, digits, differ, bit_or, bit_xor, bit_or-bitwise, bit_xor-bitwise}
use anzdrop.Base.{ℕ, zero, suc, ◌/◌, ◌%◌, ◌≤◌, ◌≡◌, refl, ap, arith}

differ_zero : (x y : ℕ) → differ x y ≡ 0 → x ≡ y
differ_zero zero y h = omega arith
differ_zero (suc x) zero h = omega arith
differ_zero (suc x) (suc y) h = ap suc (differ_zero x y h)

differ_self : (x : ℕ) → differ x x ≡ 0
differ_self zero = refl
differ_self (suc x) = differ_self x

or_digits_zero : (n a b : ℕ) → a ≤ n → digits (λ b. b) max n a b ≡ 0 → (a ≡ 0) × (b ≡ 0)
or_digits_zero zero zero b h e = (refl, e)
or_digits_zero zero (suc a) b h e = absurd (omega arith)
or_digits_zero (suc n) zero b h e = (refl, e)
or_digits_zero (suc n) (suc a) b h e =
    let halves = or_digits_zero n (suc a / 2) (b / 2) (omega arith) (omega arith) in
    (omega (arith, halves), omega (arith, halves))

xor_digits_zero : (n a b : ℕ) → a ≤ n → digits (λ b. b) differ n a b ≡ 0 → a ≡ b
xor_digits_zero zero zero b h e = omega arith
xor_digits_zero zero (suc a) b h e = absurd (omega arith)
xor_digits_zero (suc n) zero b h e = omega arith
xor_digits_zero (suc n) (suc a) b h e =
    let halves = xor_digits_zero n (suc a / 2) (b / 2) (omega arith) (omega arith) in
    let lowest = differ_zero (suc a % 2) (b % 2) (omega arith) in omega (arith, halves, lowest)

xor_digits_self : (n a : ℕ) → a ≤ n → digits (λ b. b) differ n a a ≡ 0
xor_digits_self zero zero h = refl
xor_digits_self zero (suc a) h = absurd (omega arith)
xor_digits_self (suc n) zero h = refl
xor_digits_self (suc n) (suc a) h =
    omega (arith, xor_digits_self n (suc a / 2) (omega arith), differ_self (suc a % 2))

pub bit_or_zero : (a b : ℕ) → bit_or a b ≡ 0 → (a ≡ 0) × (b ≡ 0)
bit_or_zero a b e = or_digits_zero a a b (omega arith) (omega (arith, bit_or-bitwise a b))

pub bit_xor_zero : (a b : ℕ) → bit_xor a b ≡ 0 → a ≡ b
bit_xor_zero a b e = xor_digits_zero a a b (omega arith) (omega (arith, bit_xor-bitwise a b))

pub bit_xor_self : (a : ℕ) → bit_xor a a ≡ 0
bit_xor_self a = omega (arith, bit_xor-bitwise a a, xor_digits_self a a (omega arith))
