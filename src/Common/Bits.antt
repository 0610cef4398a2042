-- ===== src/Common/Bits.antt =====
-- `&` and `|` at every width: the step from a number to its half, masks, single bits, and fields
-- that are put side by side.
use Prim.Native.Nat.{
  ℕ, zero, suc, ◌+◌, ◌-◌, ◌*◌, ◌/◌, ◌%◌, ◌^◌, ◌≤◌, ◌<◌, min, max, digits, bitwise, bit_and, bit_or,
  bit_and-bitwise, bit_or-bitwise,
}
use mathlib.Core.Path.{◌≡◌, refl, ap}
use mathlib.Core.Bool.{Bool, not}
use native.Mathlib.Nat.{le_refl, pow-suc, one-le-pow, div-div-eq-div-mul}
use native.Mathlib.Omega.{arith}
use openwrt_wattline.Common.Tests.{◌==◌, nat_eq}

-- The digit recursion behind the native operations gives the same with any fuel that suffices.
module _ (tail : ℕ → ℕ) (join : ℕ → ℕ → ℕ) where
  enough_fuel : (a b k l : ℕ) → a ≤ k → a ≤ l → digits tail join k a b ≡ digits tail join l a b
  enough_fuel zero b zero zero hk hl = refl
  enough_fuel zero b zero (suc l) hk hl = refl
  enough_fuel zero b (suc k) zero hk hl = refl
  enough_fuel zero b (suc k) (suc l) hk hl = refl
  enough_fuel (suc a) b zero l hk hl = absurd (omega arith)
  enough_fuel (suc a) b (suc k) zero hk hl = absurd (omega arith)
  enough_fuel (suc a) b (suc k) (suc l) hk hl =
      rw (enough_fuel (suc a / 2) (b / 2) k l (omega arith) (omega arith))

  from_half :
      (a b : ℕ)
      → bitwise tail join (suc a) b
        ≡ bitwise tail join (suc a / 2) (b / 2) * 2 + join (suc a % 2) (b % 2)
  from_half a b =
      omega (arith, enough_fuel (suc a / 2) (b / 2) a (suc a / 2) (omega arith) (le_refl _))

bit_and_half : (a b : ℕ) → bit_and a b ≡ bit_and (a / 2) (b / 2) * 2 + min (a % 2) (b % 2)
bit_and_half zero b = simp bit_and-bitwise (omega arith)
bit_and_half (suc a) b = simp bit_and-bitwise (from_half (λ d. 0) min a b)

bit_or_half : (a b : ℕ) → bit_or a b ≡ bit_or (a / 2) (b / 2) * 2 + max (a % 2) (b % 2)
bit_or_half zero b = simp bit_or-bitwise (omega arith)
bit_or_half (suc a) b = simp bit_or-bitwise (from_half (λ d. d) max a b)

-- Induction is on a width that holds the left operand.
bit_and-zero : (w a : ℕ) → a < 2 ^ w → bit_and a 0 ≡ 0
bit_and-zero zero a h = let e : a ≡ 0 = omega arith in rw e (bit_and-bitwise 0 0)
bit_and-zero (suc w) a h =
    omega
      (arith, pow-suc 2 w, bit_and_half a 0, bit_and-zero w (a / 2) (omega (arith, pow-suc 2 w)))

bit_or-zero : (w a : ℕ) → a < 2 ^ w → bit_or a 0 ≡ a
bit_or-zero zero a h = let e : a ≡ 0 = omega arith in rw e (bit_or-bitwise 0 0)
bit_or-zero (suc w) a h =
    omega (arith, pow-suc 2 w, bit_or_half a 0, bit_or-zero w (a / 2) (omega (arith, pow-suc 2 w)))

half_mask : (w : ℕ) → (2 ^ suc w - 1) / 2 ≡ 2 ^ w - 1
half_mask w = omega (arith, pow-suc 2 w, one-le-pow w 2)

-- A mask of the whole width keeps everything.
pub bit_and_full : (w a : ℕ) → a < 2 ^ w → bit_and a (2 ^ w - 1) ≡ a
bit_and_full zero a h = let e : a ≡ 0 = omega arith in rw e (bit_and-bitwise 0 0)
bit_and_full (suc w) a h = omega (
  arith,
  pow-suc 2 w,
  one-le-pow w 2,
  bit_and_half a (2 ^ suc w - 1),
  ap (bit_and (a / 2)) (half_mask w),
  bit_and_full w (a / 2) (omega (arith, pow-suc 2 w)),
)

half_pow : (k : ℕ) → 2 ^ suc k / 2 ≡ 2 ^ k
half_pow k = omega (arith, pow-suc 2 k)

div_halved : (a k : ℕ) → a / 2 ^ suc k ≡ a / 2 / 2 ^ k
div_halved a k = rw div-div-eq-div-mul (ap (λ (t : ℕ). a / t) (omega (arith, pow-suc 2 k)))

-- `x & (1 << k)` is bit k at its place.
bit_and_single : (w k a : ℕ) → a < 2 ^ w → bit_and a (2 ^ k) ≡ a / 2 ^ k % 2 * 2 ^ k
bit_and_single w zero a h = omega (arith, bit_and_half a 1, bit_and-zero w (a / 2) (omega arith))
bit_and_single w (suc k) a h = omega (
  arith,
  pow-suc 2 k,
  bit_and_half a (2 ^ suc k),
  ap (bit_and (a / 2)) (half_pow k),
  bit_and_single w k (a / 2) (omega arith),
  ap (λ (t : ℕ). t % 2 * 2 ^ suc k) (div_halved a k),
  ap (λ (t : ℕ). a / 2 / 2 ^ k % 2 * t) (pow-suc 2 k),
)

-- `x & (1 << k) != 0`
pub has_bit : ℕ → ℕ → Bool
has_bit x k = not (bit_and x (2 ^ k) == 0)

pub has_bit_lem : (w k x : ℕ) → x < 2 ^ w → has_bit x k ≡ (x / 2 ^ k % 2 == 1)
unfolding has_bit
has_bit_lem w k x h = ground (arith, bit_and_single w k x h, one-le-pow k 2)

-- `(q << k) | r` is a sum where `r` fits below.
pub bit_or_fields : (w k q r : ℕ) → q < 2 ^ w → r < 2 ^ k → bit_or (q * 2 ^ k) r ≡ q * 2 ^ k + r
bit_or_fields w zero q r hq hr = ground (arith, bit_or-zero w q hq)
bit_or_fields w (suc k) q r hq hr = ground (
  arith,
  pow-suc 2 k,
  bit_or_half (q * 2 ^ suc k) r,
  ap (λ (t : ℕ). q * t) (pow-suc 2 k),
  bit_or_fields w k q (r / 2) hq (omega (arith, pow-suc 2 k)),
)

mul_pow_halved : (m k : ℕ) → m * 2 ^ suc k ≡ 2 * (m * 2 ^ k)
mul_pow_halved m k = omega (arith, ap (λ (t : ℕ). m * t) (pow-suc 2 k))

bit_and_double : (a m : ℕ) → bit_and a (2 * m) ≡ bit_and (a / 2) m * 2
bit_and_double a m =
    omega (
      arith,
      bit_and_half a (2 * m),
      ap (bit_and (a / 2)) (let e : 2 * m / 2 ≡ m = omega arith in e),
    )

bit_and_shift : (k a m : ℕ) → bit_and a (m * 2 ^ k) ≡ bit_and (a / 2 ^ k) m * 2 ^ k
bit_and_shift zero a m = ground arith
bit_and_shift (suc k) a m =
    rw (mul_pow_halved m k, div_halved a k, mul_pow_halved (bit_and (a / 2 / 2 ^ k) m) k)
      (omega (arith, bit_and_double a (m * 2 ^ k), bit_and_shift k (a / 2) m))

-- A mask that leaves out bits 1 to 7 of a word of 32 bits.
pub bit_and_skip_byte : (x : ℕ) → x < 2 ^ 32 → bit_and x 0xffffff01 ≡ x / 256 * 256 + x % 2
bit_and_skip_byte x h = omega (
  arith,
  bit_and_half x 0xffffff01,
  bit_and_shift 7 (x / 2) 0xffffff,
  bit_and_full 24 (x / 2 / 128) (omega arith),
)

-- `x & 1`
pub bit_and_one : (x : ℕ) → x < 2 ^ 32 → bit_and x 1 ≡ x % 2
bit_and_one x h = omega (arith, bit_and_single 32 0 x h)
