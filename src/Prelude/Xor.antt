-- ===== src/Prelude/Xor.antt =====
-- Exclusive or, digit by digit.
use Prim.Native.Nat.{ℕ, zero, suc, ◌+◌, ◌*◌, ◌/◌, ◌%◌, ◌^◌, ◌<◌}
use Prim.Native.Nat.{bit_xor, differ, bit_xor-bitwise}
use mathlib.Core.Path.{◌≡◌, refl}
use native.Mathlib.Nat.{pow-suc}
use native.Mathlib.Omega.{arith}
use beamforming_software.Prelude.Bits.{halve}

differ_digit : (x y : ℕ) → x < 2 → y < 2 → differ x y ≡ (x + y) % 2
differ_digit zero y h k = omega arith
differ_digit (suc zero) zero h k = refl
differ_digit (suc zero) (suc zero) h k = refl
differ_digit x y h k = absurd (omega arith)

pub bit_xor_step : (a b : ℕ) → bit_xor a b ≡ bit_xor (a / 2) (b / 2) * 2 + (a % 2 + b % 2) % 2
bit_xor_step zero b = omega (arith, bit_xor-bitwise zero b, bit_xor-bitwise zero (b / 2))
bit_xor_step (suc a) b = omega (
  arith,
  differ_digit (suc a % 2) (b % 2) (omega arith) (omega arith),
  halve (λ y. y) differ a (b / 2),
  bit_xor-bitwise (suc a) b,
  bit_xor-bitwise (suc a / 2) (b / 2),
)

pub bit_xor-lt : (k a b : ℕ) → a < 2 ^ k → b < 2 ^ k → bit_xor a b < 2 ^ k
bit_xor-lt zero a b h l =
    let left : a ≡ 0 = omega arith in
    let right : b ≡ 0 = omega arith in rw (left, right) (omega (arith, bit_xor-bitwise 0 0))
bit_xor-lt (suc k) a b h l = omega (
  arith,
  pow-suc 2 k,
  bit_xor_step a b,
  bit_xor-lt k (a / 2) (b / 2) (omega (arith, pow-suc 2 k)) (omega (arith, pow-suc 2 k)),
)

-- The second operand is determined by the first and the result.
pub bit_xor_cancel : (k h a b : ℕ) → a < 2 ^ k → b < 2 ^ k → bit_xor h a ≡ bit_xor h b → a ≡ b
bit_xor_cancel zero h a b la lb e = omega arith
bit_xor_cancel (suc k) h a b la lb e =
    let halves : bit_xor (h / 2) (a / 2) ≡ bit_xor (h / 2) (b / 2) =
      omega (arith, bit_xor_step h a, bit_xor_step h b) in
    let same =
      bit_xor_cancel k (h / 2) (a / 2) (b / 2) (omega (arith, pow-suc 2 k))
        (omega (arith, pow-suc 2 k)) halves in
    omega (arith, bit_xor_step h a, bit_xor_step h b)
