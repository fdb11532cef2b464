-- ===== src/Prelude/Bits.antt =====
-- The bit operations on fields: `|` of disjoint fields is a sum, `&` with a low mask a remainder.
-- The native operations are specified by a recursion on digits with fuel; the fuel goes first.
use Prim.Native.Nat.{ℕ, zero, suc, ◌+◌, ◌-◌, ◌*◌, ◌/◌, ◌%◌, ◌^◌, ◌≤◌, ◌<◌, min, max}
use Prim.Native.Nat.{bit_and, bit_or, digits, bit_and-bitwise, bit_or-bitwise}
use mathlib.Core.Path.{◌≡◌, refl, ap, ◌∙◌}
use native.Mathlib.Nat.{pow-suc, one-le-pow, div-div-eq-div-mul}
use native.Mathlib.Omega.{arith}

module _ (default : ℕ → ℕ) (join : ℕ → ℕ → ℕ) where
  -- A unit of fuel beyond the number itself is not used,
  spare_unit :
      (fuel x y : ℕ) → x ≤ fuel → digits default join (suc fuel) x y ≡ digits default join fuel x y
  spare_unit zero x y h = let empty : x ≡ 0 = omega arith in rw empty refl
  spare_unit (suc fuel) zero y h = refl
  spare_unit (suc fuel) (suc x) y h =
      ap (λ (t : ℕ). t * 2 + join (suc x % 2) (y % 2))
        (spare_unit fuel (suc x / 2) (y / 2) (omega arith))

  -- and neither are several.
  spare_fuel :
      (extra fuel x y : ℕ)
      → fuel ≡ extra + x
      → digits default join fuel x y ≡ digits default join x x y
  spare_fuel zero fuel x y e = ap (λ (t : ℕ). digits default join t x y) (omega arith)
  spare_fuel (suc extra) fuel x y e =
      let one_more : fuel ≡ suc (extra + x) = omega arith in
      ap (λ (t : ℕ). digits default join t x y) one_more
      ∙ (spare_unit (extra + x) x y (omega arith) ∙ spare_fuel extra (extra + x) x y refl)

  pub halve :
      (x y : ℕ)
      → digits default join x (suc x / 2) y ≡ digits default join (suc x / 2) (suc x / 2) y
  halve x y = spare_fuel (x - suc x / 2) x (suc x / 2) y (omega arith)

-- The lowest digit of each operation, and the rest.
pub bit_or_step : (a b : ℕ) → bit_or a b ≡ bit_or (a / 2) (b / 2) * 2 + max (a % 2) (b % 2)
bit_or_step zero b = omega (arith, bit_or-bitwise zero b, bit_or-bitwise zero (b / 2))
bit_or_step (suc a) b = omega (
  arith,
  halve (λ y. y) max a (b / 2),
  bit_or-bitwise (suc a) b,
  bit_or-bitwise (suc a / 2) (b / 2),
)

pub bit_and_step : (a b : ℕ) → bit_and a b ≡ bit_and (a / 2) (b / 2) * 2 + min (a % 2) (b % 2)
bit_and_step zero b = omega (arith, bit_and-bitwise zero b, bit_and-bitwise zero (b / 2))
bit_and_step (suc a) b = omega (
  arith,
  halve (λ y. 0) min a (b / 2),
  bit_and-bitwise (suc a) b,
  bit_and-bitwise (suc a / 2) (b / 2),
)

-- Zero on the right, by halving.
zero_right : (bound a : ℕ) → a ≤ bound → (bit_or a 0 ≡ a) × (bit_and a 0 ≡ 0)
zero_right zero a h = let empty : a ≡ 0 = omega arith in rw empty (refl, refl)
zero_right (suc bound) a h =
    let (joined, masked) = zero_right bound (a / 2) (omega arith) in
    (omega (arith, bit_or_step a 0), omega (arith, bit_and_step a 0))

bit_or-zero : (a : ℕ) → bit_or a 0 ≡ a
bit_or-zero a = (zero_right a a (omega arith)).0

bit_and-zero : (a : ℕ) → bit_and a 0 ≡ 0
bit_and-zero a = (zero_right a a (omega arith)).1

mul-pow-suc : (q k : ℕ) → q * 2 ^ suc k ≡ 2 * (q * 2 ^ k)
mul-pow-suc q k = omega (arith, ap (λ (t : ℕ). q * t) (pow-suc 2 k))

-- `(q << k) | r` is a sum where `r` fits into the `k` low bits.
pub bit_or_disjoint : (k q r : ℕ) → r < 2 ^ k → bit_or (q * 2 ^ k) r ≡ q * 2 ^ k + r
bit_or_disjoint zero q r h = ground (arith, bit_or-zero q)
bit_or_disjoint (suc k) q r h = ground (
  arith,
  bit_or_step (q * 2 ^ suc k) r,
  mul-pow-suc q k,
  bit_or_disjoint k q (r / 2) (omega arith),
)

bit_and_low : (k q r : ℕ) → r < 2 ^ k → bit_and (q * 2 ^ k + r) (2 ^ k - 1) ≡ r
bit_and_low zero q r h = omega (arith, bit_and-zero (q * 2 ^ 0 + r))
bit_and_low (suc k) q r h = ground (
  arith,
  bit_and_step (q * 2 ^ suc k + r) (2 ^ suc k - 1),
  mul-pow-suc q k,
  pow-suc 2 k,
  one-le-pow k 2,
  bit_and_low k q (r / 2) (omega arith),
)

-- `a & (2^k - 1)` is the remainder by `2^k`.
pub bit_and_mask : (k a : ℕ) → bit_and a (2 ^ k - 1) ≡ a % 2 ^ k
bit_and_mask k a = ground (arith, one-le-pow k 2, bit_and_low k (a / 2 ^ k) (a % 2 ^ k))

-- `a & (1 << k)` keeps the one bit where it is.
pub bit_and_single : (k a : ℕ) → bit_and a (2 ^ k) ≡ a / 2 ^ k % 2 * 2 ^ k
bit_and_single zero a = omega (arith, bit_and_mask 1 a)
bit_and_single (suc k) a =
    let twice : 2 ^ suc k ≡ 2 ^ k * 2 = pow-suc 2 k in
    let half : a / 2 ^ suc k ≡ a / 2 / 2 ^ k =
      rw (twice, div-div-eq-div-mul a 2 (2 ^ k)) (ap (λ (t : ℕ). a / t) (omega arith)) in
    let halved : bit_and (a / 2) (2 ^ suc k / 2) ≡ bit_and (a / 2) (2 ^ k) =
      ap (bit_and (a / 2)) (omega (arith, twice)) in
    rw half (
      omega (
        arith,
        bit_and_step a (2 ^ suc k),
        halved,
        bit_and_single k (a / 2),
        ap (λ (t : ℕ). a / 2 / 2 ^ k % 2 * t) twice,
      ))

-- `&` works on the high and on the low bits apart.
pub bit_and_split :
    (k a b c d : ℕ)
    → b < 2 ^ k
    → d < 2 ^ k
    → bit_and (a * 2 ^ k + b) (c * 2 ^ k + d) ≡ bit_and a c * 2 ^ k + bit_and b d
bit_and_split zero a b c d hb hd =
    let b0 : b ≡ 0 = omega arith in
    let d0 : d ≡ 0 = omega arith in
    let a1 : a * 2 ^ 0 + 0 ≡ a = omega arith in
    let c1 : c * 2 ^ 0 + 0 ≡ c = omega arith in rw (b0, d0, a1, c1) (omega (arith, bit_and-zero 0))
bit_and_split (suc k) a b c d hb hd =
    let ea : (a * 2 ^ suc k + b) / 2 ≡ a * 2 ^ k + b / 2 = omega (arith, mul-pow-suc a k) in
    let ec : (c * 2 ^ suc k + d) / 2 ≡ c * 2 ^ k + d / 2 = omega (arith, mul-pow-suc c k) in
    let halves =
      bit_and_split k a (b / 2) c (d / 2) (omega (arith, pow-suc 2 k))
        (omega (arith, pow-suc 2 k)) in
    omega (
      arith,
      bit_and_step (a * 2 ^ suc k + b) (c * 2 ^ suc k + d),
      ap (λ (t : ℕ). bit_and t ((c * 2 ^ suc k + d) / 2)) ea,
      ap (λ (t : ℕ). bit_and (a * 2 ^ k + b / 2) t) ec,
      halves,
      bit_and_step b d,
      mul-pow-suc a k,
      mul-pow-suc c k,
      mul-pow-suc (bit_and a c) k,
    )
