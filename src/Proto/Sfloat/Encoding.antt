-- ===== src/Proto/Sfloat/Encoding.antt =====
-- Which exponent and mantissa EncodeSFloat chooses, and what DecodeSFloat reads back.
use openwrt_wattline.Common.{
  ℕ, zero, suc, ◌+◌, ◌<◌, ◌≤◌, ◌≡◌, ◌⊎◌, refl, true, false, arith, dec_lt, Bool-cases, ap, inl, inr,
}
use openwrt_wattline.Common.Int.{ℤ, pos, negsuc, ◌+ℤ◌, low_bits}
use openwrt_wattline.Common.Float64.{Float64}
use openwrt_wattline.Proto.Sfloat.{
  is_special, fields, decode_sfloat, scaled, fits, encode_from, encode_sfloat,
}
use openwrt_wattline.Proto.Sfloat.Fields.{
  IsMantissa, IsExponent, fields-sum, low_bits-lt_16, low_bits-lt_4096, mantissa-fields,
  exponent-fields,
}

-- The exponent of round j of the loop.
unfoldable pub exp_at : ℕ → ℤ
exp_at j = negsuc 1 +ℤ pos j

exp_at-suc : (j : ℕ) → exp_at j +ℤ pos 1 ≡ exp_at (suc j)
unfolding exp_at
exp_at-suc j = ground arith

-- The mantissas that at exponent 0 spell one of the special codes.
abbrev pub IsReserved : ℤ → Type 0
IsReserved m = (m ≡ pos 2047) ⊎ (m ≡ pos 2046) ⊎ (m ≡ negsuc 2047) ⊎ (m ≡ negsuc 2045)

special-fields :
    (e m : ℤ) → IsMantissa m → is_special (fields e m) ≡ true → (low_bits 4 e ≡ 0) × IsReserved m
unfolding is_special
special-fields e m h s = ground (arith, fields-sum e m, low_bits-lt_16 e, low_bits-lt_4096 m)

fields-special : (m : ℤ) → IsReserved m → is_special (fields (pos 0) m) ≡ true
unfolding is_special
fields-special m h = ground (arith, fields-sum (pos 0) m)

exp_at-IsExponent : (j : ℕ) → j < 10 → IsExponent (exp_at j)
unfolding exp_at
exp_at-IsExponent j h = ground arith

low_exp_at : (j : ℕ) → j < 10 → low_bits 4 (exp_at j) ≡ 0 → j ≡ 2
unfolding exp_at
low_exp_at j h e = ground arith

module _ {F : Type 0} (fl : Float64 F) (v : F) where
  open fl use {nan, is_nan, le, mul, of_int, to_int, pow10}

  -- Round j is the first whose mantissa fits.
  pub record FirstFit (j : ℕ) : Type 0 where
    pub in_loop : j < 10
    pub fitting : fits fl (scaled fl v (exp_at j)) ≡ true
    pub earlier : (i : ℕ) → i < j → fits fl (scaled fl v (exp_at i)) ≡ false

  encode_from-first :
      (rounds n j : ℕ)
      → n ≤ j
      → j < n + rounds
      → fits fl (scaled fl v (exp_at j)) ≡ true
      → ((i : ℕ) → i < j → fits fl (scaled fl v (exp_at i)) ≡ false)
      → encode_from fl rounds (exp_at n) v ≡ fields (exp_at j) (to_int (scaled fl v (exp_at j)))
  unfolding encode_from
  encode_from-first zero n j lo hi f g = absurd (omega arith)
  encode_from-first (suc rounds) n j lo hi f g = elim (dec_lt n j) [
    | yes later ↦
        rw (g n later, exp_at-suc n) (encode_from-first rounds (suc n) j later (omega arith) f g)
    | no here ↦ let e : n ≡ j = omega arith in rw (e, f)
  ]

  encode_from-none :
      (rounds n : ℕ)
      → ((i : ℕ) → i < n + rounds → fits fl (scaled fl v (exp_at i)) ≡ false)
      → encode_from fl rounds (exp_at n) v ≡ 0x07FF
  unfolding encode_from
  encode_from-none zero n g = refl
  encode_from-none (suc rounds) n g =
      rw (g n (omega arith), exp_at-suc n)
        (encode_from-none rounds (suc n) (λ i h. g i (omega arith)))

  -- A number that fits at no exponent becomes the code of NaN.
  pub encode_sfloat-overflow :
      is_nan v ≡ false
      → ((i : ℕ) → i < 10 → fits fl (scaled fl v (exp_at i)) ≡ false)
      → encode_sfloat fl v ≡ 0x07FF
  unfolding encode_sfloat exp_at
  encode_sfloat-overflow number g = rw number (encode_from-none 10 0 g)

  -- The first exponent from -2 up at which the rounded quotient fits is the one that is packed.
  pub encode_sfloat-first :
      is_nan v ≡ false
      → (j : ℕ) → FirstFit j
      → encode_sfloat fl v ≡ fields (exp_at j) (to_int (scaled fl v (exp_at j)))
  unfolding encode_sfloat exp_at
  encode_sfloat-first number j first =
      rw number (encode_from-first 10 0 j (omega arith) first.in_loop first.fitting first.earlier)

  module _ (to_int_bounds : (x : F) → fits fl x ≡ true → IsMantissa (to_int x))
      (number : is_nan v ≡ false) (j : ℕ) (first : FirstFit j) where
    fitted-IsMantissa : IsMantissa (to_int (scaled fl v (exp_at j)))
    fitted-IsMantissa = to_int_bounds _ first.fitting

    -- Where v is a number that fits first in round j, and a float that fits converts to an integer
    -- of the mantissa's range: decoding the encoded v gives the rounded mantissa times the power of
    -- ten, unless the exponent is 0 and the mantissa is one of the four reserved ones.
    pub decode_sfloat-encode_sfloat :
        ¬ ((j ≡ 2) × IsReserved (to_int (scaled fl v (exp_at j))))
        → decode_sfloat fl (encode_sfloat fl v)
          ≡ mul (of_int (to_int (scaled fl v (exp_at j)))) (pow10 (exp_at j))
    unfolding decode_sfloat
    decode_sfloat-encode_sfloat usable =
        let m : ℤ = to_int (scaled fl v (exp_at j)) in
        elim (Bool-cases (is_special (fields (exp_at j) m))) [
          | inl special ↦
              let (low, reserved) = special-fields (exp_at j) m fitted-IsMantissa special in
              absurd (usable (low_exp_at j first.in_loop low, reserved))
          | inr plain ↦ rw (
            encode_sfloat-first number j first,
            plain,
            mantissa-fields (exp_at j) m fitted-IsMantissa,
            exponent-fields (exp_at j) m (exp_at-IsExponent j first.in_loop),
          )
        ]

    -- Where v is a number that fits first at exponent 0, with a reserved mantissa, it is encoded as
    -- a special code, which decodes to NaN.
    pub decode_sfloat-reserved :
        j ≡ 2
        → IsReserved (to_int (scaled fl v (exp_at j)))
        → decode_sfloat fl (encode_sfloat fl v) ≡ nan
    unfolding decode_sfloat exp_at
    decode_sfloat-reserved zero_exp reserved = rw (
      encode_sfloat-first number j first,
      ap (λ (e : ℤ). fields e (to_int (scaled fl v (exp_at j)))) (ap exp_at zero_exp),
      fields-special (to_int (scaled fl v (exp_at j))) reserved,
    )
