-- ===== src/Proto/Sfloat.antt =====
-- sfloat.go: the IEEE-11073 16-bit SFLOAT. The float operations are those of `Float64`.
pub mod Fields
pub mod Encoding
use openwrt_wattline.Common.{
  ℕ, zero, suc, ◌+◌, ◌*◌, ◌/◌, ◌%◌, ◌^◌, Bool, ◌&&◌, ◌||◌, bit_or, ◌==◌, nat_eq, if◌then◌else◌,
}
use openwrt_wattline.Common.Bits.{has_bit}
use openwrt_wattline.Common.Int.{ℤ, pos, negsuc, ◌+ℤ◌, ◌-ℤ◌, low_bits}
use openwrt_wattline.Common.Float64.{Float64}

-- The four codes that stand for no number.
unfoldable pub is_special : ℕ → Bool
is_special raw = raw == 0x07FF || raw == 0x0800 || raw == 0x07FE || raw == 0x0802

-- `raw & 0x0FFF`, less 0x1000 where its top bit is set
unfoldable pub mantissa : ℕ → ℤ
mantissa raw =
    let mant = raw % 2 ^ 12 in if has_bit mant 11 then pos mant -ℤ pos 0x1000 else pos mant

-- `raw >> 12`, less 0x10 where its top bit is set
unfoldable pub exponent : ℕ → ℤ
exponent raw = let exp = raw / 2 ^ 12 in if has_bit exp 3 then pos exp -ℤ pos 0x10 else pos exp

-- uint16((exp&0x0F)<<12) | uint16(m&0x0FFF)
unfoldable pub fields : ℤ → ℤ → ℕ
fields exp m = bit_or (low_bits 4 exp * 2 ^ 12) (low_bits 12 m)

module _ {F : Type 0} (fl : Float64 F) where
  open fl use {nan, is_nan, le, mul, div, of_int, to_int, pow10, round}

  unfoldable pub decode_sfloat : ℕ → F
  decode_sfloat raw =
      if is_special raw then nan else mul (of_int (mantissa raw)) (pow10 (exponent raw))

  -- math.Round(v / math.Pow(10, exp))
  unfoldable pub scaled : F → ℤ → F
  scaled v exp = round (div v (pow10 exp))

  -- m >= -2048 && m <= 2047
  unfoldable pub fits : F → Bool
  fits m = le (of_int (negsuc 2047)) m && le m (of_int (pos 2047))

  -- the loop over exp, with the rounds that are left
  unfoldable pub encode_from : ℕ → ℤ → F → ℕ
  encode_from zero exp v = 0x07FF
  encode_from (suc rounds) exp v =
      let rest = encode_from rounds (exp +ℤ pos 1) v in
      let m = scaled v exp in if fits m then fields exp (to_int m) else rest

  unfoldable pub encode_sfloat : F → ℕ
  encode_sfloat v = if is_nan v then 0x07FF else encode_from 10 (negsuc 1) v
