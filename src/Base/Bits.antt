-- ===== src/Base/Bits.antt =====
-- Bit operations that give zero.
use Prim.Native.Nat.{
  ℕ, zero, suc, ◌/◌, ◌%◌, ◌≤◌, max, digits, differ, bit_or, bit_xor, bit_or-bitwise,
  bit_xor-bitwise,
}
use mathlib.Core.Path.{◌≡◌, refl, ap, sym}
use mathlib.Core.Logic.{◌↔◌}
use native.Mathlib.Omega.{arith}

differ-same : (x : ℕ) → differ x x ≡ 0
differ-same zero = refl
differ-same (suc x) = differ-same x

differ_zero : (x y : ℕ) → differ x y ≡ 0 → x ≡ y
differ_zero zero y e = sym e
differ_zero (suc x) zero e = absurd (omega arith)
differ_zero (suc x) (suc y) e = ap suc (differ_zero x y e)

xor_zero : (n a b : ℕ) → a ≤ n → digits (λ b. b) differ n a b ≡ 0 → a ≡ b
xor_zero zero zero b h e = omega arith
xor_zero zero (suc a) b h e = absurd (omega arith)
xor_zero (suc n) zero b h e = omega arith
xor_zero (suc n) (suc a) b h e = omega (
  arith,
  xor_zero n (suc a / 2) (b / 2) (omega arith) (omega arith),
  differ_zero (suc a % 2) (b % 2) (omega arith),
)

xor_same : (n a : ℕ) → a ≤ n → digits (λ b. b) differ n a a ≡ 0
xor_same zero zero h = refl
xor_same zero (suc a) h = absurd (omega arith)
xor_same (suc n) zero h = refl
xor_same (suc n) (suc a) h =
    omega (arith, xor_same n (suc a / 2) (omega arith), differ-same (suc a % 2))

pub bit_xor-zero : (a b : ℕ) → bit_xor a b ≡ 0 ↔ a ≡ b
bit_xor-zero a b = (
  λ e. xor_zero a a b (omega arith) (omega (arith, bit_xor-bitwise a b)),
  λ e. rw e (omega (arith, bit_xor-bitwise b b, xor_same b b (omega arith))),
)

max_zero : (x y : ℕ) → max x y ≡ 0 → (x ≡ 0) × (y ≡ 0)
max_zero x y e = (omega arith, omega arith)

or_zero : (n a b : ℕ) → a ≤ n → digits (λ b. b) max n a b ≡ 0 → (a ≡ 0) × (b ≡ 0)
or_zero zero zero b h e = (refl, e)
or_zero zero (suc a) b h e = absurd (omega arith)
or_zero (suc n) zero b h e = (refl, e)
or_zero (suc n) (suc a) b h e =
    let (p, q) = or_zero n (suc a / 2) (b / 2) (omega arith) (omega arith) in
    let (r, s) = max_zero (suc a % 2) (b % 2) (omega arith) in (omega arith, omega arith)

pub bit_or-zero : (a b : ℕ) → bit_or a b ≡ 0 ↔ ((a ≡ 0) × (b ≡ 0))
bit_or-zero a b = (
  λ e. or_zero a a b (omega arith) (omega (arith, bit_or-bitwise a b)),
  λ (p, q). rw (p, q) (bit_or-bitwise 0 0),
)
