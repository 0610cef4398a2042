-- ===== src/Tests/Floats.antt =====
-- The float codes and the status frames at concrete values.
use openwrt_wattline.Common.{
  zero, suc, ◌||◌, dec_lt, ℕ, Bool, true, false, [], ◌∷◌, ◌++◌, ◌≡◌, ◌↔◌, refl, arith, inl, take,
  ◌<◌, suc,
}
use openwrt_wattline.Common.Int.{pos, negsuc}
use openwrt_wattline.Common.Result.{ok, err}
use openwrt_wattline.Common.Bytes.{Bytes}
use openwrt_wattline.Proto.Error.{battery_short, dc_short, typec_short}
use openwrt_wattline.Proto.Sfloat.{fields, encode_sfloat, decode_sfloat, fits, scaled}
use openwrt_wattline.Proto.Sfloat.Fields.{IsMantissa}
use openwrt_wattline.Proto.Sfloat.Encoding.{
  exp_at, FirstFit, IsReserved, encode_sfloat-first, decode_sfloat-encode_sfloat,
  decode_sfloat-reserved,
}
use openwrt_wattline.Proto.Telemetry.{
  Battery, DcPort, TypeCPort, parse_battery, parse_dc, parse_type_c,
}
use openwrt_wattline.Proto.Telemetry.Layout.{type_c_bytes, parse_type_c-type_c_bytes, short_frames}
use openwrt_wattline.Tests.Data.{fixed}

abbrev dc_answer : Bytes
dc_answer = 0x01 ∷ 0x81 ∷ 0x00 ∷ 0x07 ∷ []

-- Whether a test passes at some number below `n`.
some_below : (ℕ → Bool) → ℕ → Bool
some_below f zero = false
some_below f (suc n) = f n || some_below f n

none_below : (f : ℕ → Bool) (n : ℕ) → some_below f n ≡ false → (i : ℕ) → i < n → f i ≡ false
unfolding some_below
none_below f zero h i lt = absurd (omega arith)
none_below f (suc n) h i lt = elim (dec_lt i n) [
  | yes below ↦ none_below f n (ground arith) i below
  | no last ↦ let e : i ≡ n = omega arith in rw e (ground arith)
]

to_int_bounds : (x : ℕ) → fits fixed x ≡ true → IsMantissa (fixed.to_int x)
unfolding fits
to_int_bounds x h = ground arith

-- 5.12 fits at exponent -2
fit_512 : FirstFit fixed 512 0
unfolding fits scaled exp_at
fit_512 = record { in_loop = omega arith; fitting = refl; earlier = λ i h. absurd (omega arith) }

abbrev Same : ℕ → ℕ → Type 0
Same a b = a ≡ b

not-IsReserved_512 : ¬ ((Same 0 2) × IsReserved (fixed.to_int (scaled fixed 512 (exp_at 0))))
not-IsReserved_512 h = omega arith

encode_sfloat-first_example :
    encode_sfloat fixed 512 ≡ fields (exp_at 0) (fixed.to_int (scaled fixed 512 (exp_at 0)))
encode_sfloat-first_example = encode_sfloat-first fixed 512 refl 0 fit_512

decode_sfloat-encode_sfloat_example :
    decode_sfloat fixed (encode_sfloat fixed 512)
    ≡ fixed.mul (fixed.of_int (fixed.to_int (scaled fixed 512 (exp_at 0)))) (fixed.pow10 (exp_at 0))
decode_sfloat-encode_sfloat_example =
    decode_sfloat-encode_sfloat fixed 512 to_int_bounds refl 0 fit_512 not-IsReserved_512

-- 2047 fits at exponent 0, and at no exponent before
earlier_2047 : (i : ℕ) → i < 2 → fits fixed (scaled fixed 204700 (exp_at i)) ≡ false
unfolding fits scaled exp_at some_below
earlier_2047 = none_below (λ i. fits fixed (scaled fixed 204700 (exp_at i))) 2 refl

fit_2047 : FirstFit fixed 204700 2
unfolding fits scaled exp_at
fit_2047 = record { in_loop = omega arith; fitting = refl; earlier = earlier_2047 }

IsReserved-2047 : IsReserved (fixed.to_int (scaled fixed 204700 (exp_at 2)))
unfolding scaled exp_at
IsReserved-2047 = inl refl

decode_sfloat-reserved_example : decode_sfloat fixed (encode_sfloat fixed 204700) ≡ fixed.nan
decode_sfloat-reserved_example =
    decode_sfloat-reserved fixed 204700 to_int_bounds refl 2 fit_2047 refl IsReserved-2047

abbrev battery_codes : Battery ℕ
battery_codes = record {
  enabled = true;
  status = negsuc 0;
  full = false;
  max_wh = 0xF064;
  wh = 0x0032;
  level = 50;
  volts = 0xE4D2;
  amps = 0xF00A;
  watts = 0x000C;
  remain_min = 90;
}

abbrev dc_codes : DcPort ℕ
dc_codes = record {
  enabled = true;
  status = pos 1;
  volts = 0xE4D2;
  amps = 0xF00A;
  watts = 0x000C;
  bypass = true;
}

abbrev dc_read : Bool → DcPort ℕ
dc_read bypass = record {
  enabled = true;
  status = pos 1;
  volts = decode_sfloat fixed 0xE4D2;
  amps = decode_sfloat fixed 0xF00A;
  watts = decode_sfloat fixed 0x000C;
  bypass = bypass;
}

abbrev usbc_codes : TypeCPort ℕ
usbc_codes = record {
  enabled = true;
  status = negsuc 0;
  volts = 0xE4D2;
  amps = 0xF00A;
  watts = 0x000C;
  temp_c = 0xF0FA;
  mode = 2;
  dc_input = true;
}

abbrev usbc_read : ℕ → Bool → TypeCPort ℕ
usbc_read mode dc_input = record {
  enabled = true;
  status = negsuc 0;
  volts = decode_sfloat fixed 0xE4D2;
  amps = decode_sfloat fixed 0xF00A;
  watts = decode_sfloat fixed 0x000C;
  temp_c = decode_sfloat fixed 0xF0FA;
  mode = mode;
  dc_input = dc_input;
}

parse_type_c-type_c_bytes_example :
    (parse_type_c fixed (type_c_bytes 0 usbc_codes ++ []) ≡ ok (usbc_read 2 true))
    × (parse_type_c fixed (take 12 (type_c_bytes 0 usbc_codes)) ≡ ok (usbc_read 2 false))
    × (parse_type_c fixed (take 11 (type_c_bytes 0 usbc_codes)) ≡ ok (usbc_read 0 false))
    × (parse_type_c fixed (take 10 (type_c_bytes 0 usbc_codes)) ≡ ok (usbc_read 0 false))
parse_type_c-type_c_bytes_example = parse_type_c-type_c_bytes fixed usbc_codes 0 [] (record {
  status = omega arith;
  volts = omega arith;
  amps = omega arith;
  watts = omega arith;
  temp_c = omega arith;
})

short_frames_example :
    ((parse_battery fixed dc_answer ≡ err (battery_short 4)) ↔ (4 < 16))
    × ((parse_dc fixed dc_answer ≡ err (dc_short 4)) ↔ (4 < 8))
    × ((parse_type_c fixed dc_answer ≡ err (typec_short 4)) ↔ (4 < 10))
short_frames_example = short_frames fixed dc_answer
