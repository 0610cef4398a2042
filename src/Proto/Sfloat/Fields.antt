-- ===== src/Proto/Sfloat/Fields.antt =====
-- The two fields of an SFLOAT.
use openwrt_wattline.Common.{ℕ, ◌+◌, ◌*◌, ◌/◌, ◌%◌, ◌^◌, ◌<◌, ◌≡◌, arith}
use openwrt_wattline.Common.Bits.{has_bit_lem, bit_or_fields}
use openwrt_wattline.Common.Int.{ℤ, pos, negsuc, ◌≤ℤ◌, low_bits}
use openwrt_wattline.Proto.Sfloat.{mantissa, exponent, fields}

abbrev pub IsMantissa : ℤ → Type 0
IsMantissa m = (negsuc 2047 ≤ℤ m) × (m ≤ℤ pos 2047)

abbrev pub IsExponent : ℤ → Type 0
IsExponent e = (negsuc 7 ≤ℤ e) × (e ≤ℤ pos 7)

pub low_bits-lt_16 : (e : ℤ) → low_bits 4 e < 16
low_bits-lt_16 (pos n) = omega arith
low_bits-lt_16 (negsuc n) = omega arith

pub low_bits-lt_4096 : (m : ℤ) → low_bits 12 m < 4096
low_bits-lt_4096 (pos n) = omega arith
low_bits-lt_4096 (negsuc n) = omega arith

pub fields-sum : (e m : ℤ) → fields e m ≡ low_bits 4 e * 4096 + low_bits 12 m
unfolding fields
fields-sum e m = bit_or_fields 4 12 _ _ (low_bits-lt_16 e) (low_bits-lt_4096 m)

-- What is packed is read back.
pub mantissa-fields : (e m : ℤ) → IsMantissa m → mantissa (fields e m) ≡ m
unfolding mantissa
mantissa-fields e m h =
    ground (
      arith,
      fields-sum e m,
      low_bits-lt_16 e,
      has_bit_lem 12 11 (fields e m % 2 ^ 12) (omega arith),
    )

pub exponent-fields : (e m : ℤ) → IsExponent e → exponent (fields e m) ≡ e
unfolding exponent
exponent-fields e m h = ground (
  arith,
  fields-sum e m,
  low_bits-lt_4096 m,
  has_bit_lem 4 3 (fields e m / 2 ^ 12)
      (omega (arith, fields-sum e m, low_bits-lt_16 e, low_bits-lt_4096 m)),
)

-- The exponent and the mantissa of any code of 16 bits are packed back into that code.
pub fields-parts : (raw : ℕ) → raw < 2 ^ 16 → fields (exponent raw) (mantissa raw) ≡ raw
unfolding exponent mantissa
fields-parts raw h = ground (
  arith,
  fields-sum (exponent raw) (mantissa raw),
  has_bit_lem 4 3 (raw / 2 ^ 12) (omega arith),
  has_bit_lem 12 11 (raw % 2 ^ 12) (omega arith),
)
