-- ===== src/Prelude/Bits.antt =====
-- `|` of a value shifted past the bits of the other operand is a sum, at every width.
use Prim.Native.Nat.{
  ℕ, zero, suc, ◌+◌, ◌*◌, ◌/◌, ◌%◌, ◌^◌, ◌≤◌, ◌<◌, max, bit_or, digits, bit_or-bitwise,
}
use mathlib.Core.Path.{◌≡◌, refl, ap}
use native.Mathlib.Nat.{pow-suc}
use native.Mathlib.Omega.{arith}

-- The recursion on binary digits that `bit_or` stands for, with its fuel.
abbrev joined : ℕ → ℕ → ℕ → ℕ
joined = digits (λ b. b) max

joined_fuel : (i j x y : ℕ) → x ≤ i → x ≤ j → joined i x y ≡ joined j x y
joined_fuel zero zero x y p q = refl
joined_fuel (suc i) (suc j) zero y p q = refl
joined_fuel zero (suc j) zero y p q = refl
joined_fuel (suc i) zero zero y p q = refl
joined_fuel zero (suc j) (suc x) y p q = absurd (omega arith)
joined_fuel (suc i) zero (suc x) y p q = absurd (omega arith)
joined_fuel (suc i) (suc j) (suc x) y p q =
    omega (arith, joined_fuel i j (suc x / 2) (y / 2) (omega arith) (omega arith))

zero-bit_or : (y : ℕ) → bit_or 0 y ≡ y
zero-bit_or y = bit_or-bitwise 0 y

-- The lowest digit, and the rest.
bit_or_low : (x y : ℕ) → bit_or x y ≡ bit_or (x / 2) (y / 2) * 2 + max (x % 2) (y % 2)
bit_or_low zero y = omega (arith, zero-bit_or y, zero-bit_or (y / 2))
bit_or_low (suc x) y = omega (
  arith,
  bit_or-bitwise (suc x) y,
  bit_or-bitwise (suc x / 2) (y / 2),
  joined_fuel x (suc x / 2) (suc x / 2) (y / 2) (omega arith) (omega arith),
)

bit_or-zero_fuel : (n x : ℕ) → x ≤ n → bit_or x 0 ≡ x
bit_or-zero_fuel n zero h = refl
bit_or-zero_fuel zero (suc x) h = absurd (omega arith)
bit_or-zero_fuel (suc n) (suc x) h =
    omega (arith, bit_or_low (suc x) 0, bit_or-zero_fuel n (suc x / 2) (omega arith))

pub bit_or-shifted : (k x y : ℕ) → y < 2 ^ k → bit_or (x * 2 ^ k) y ≡ x * 2 ^ k + y
bit_or-shifted zero x y h = ground (arith, bit_or-zero_fuel (x * 1) (x * 1))
bit_or-shifted (suc k) x y h =
    let p : x * 2 ^ suc k ≡ 2 * (x * 2 ^ k) = omega (arith, ap (λ (t : ℕ). x * t) (pow-suc 2 k)) in
    ground (arith, p, pow-suc 2 k, bit_or_low (x * 2 ^ suc k) y, bit_or-shifted k x (y / 2))
