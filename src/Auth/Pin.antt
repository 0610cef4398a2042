-- ===== src/Auth/Pin.antt =====
-- generatePairingPIN of pairing.go. The reader is the list of what its next reads of three bytes
-- give; `none` is a read that fails, and so is the end of the list.
pub mod Sampling
use openwrt_wattline.Common.{
  ℕ, ◌+◌, ◌*◌, ◌/◌, ◌%◌, ◌^◌, Option, none, some, List, [], ◌∷◌, bit_or, ltb, if◌then◌else◌,
}
use openwrt_wattline.Common.Bytes.{Bytes}

abbrev pub Sample : Type 0
Sample = ℕ × ℕ × ℕ

abbrev pub Random : Type 0
Random = List (Option Sample)

abbrev pub pin_possibilities : ℕ
pin_possibilities = 1_000_000

abbrev pub rejection_ceiling : ℕ
rejection_ceiling = 16_000_000

-- int(sample[0])<<16 | int(sample[1])<<8 | int(sample[2])
unfoldable pub sample_value : Sample → ℕ
sample_value (b0, b1, b2) = bit_or (bit_or (b0 * 2 ^ 16) (b1 * 2 ^ 8)) b2

-- fmt.Sprintf("%06d", n) of a number below a million, as bytes
unfoldable pub six_digits : ℕ → Bytes
six_digits n =
    (b'0' + n / 100000 % 10)
    ∷ (b'0' + n / 10000 % 10)
    ∷ (b'0' + n / 1000 % 10)
    ∷ (b'0' + n / 100 % 10)
    ∷ (b'0' + n / 10 % 10)
    ∷ (b'0' + n % 10)
    ∷ []

-- The PIN, or `none` for an error of the reader, and what is left to read.
unfoldable pub generate_pin : Random → Option Bytes × Random
generate_pin [] = (none, [])
generate_pin (none ∷ random) = (none, random)
generate_pin (some s ∷ random) =
    let again = generate_pin random in
    if ltb (sample_value s) rejection_ceiling
    then (some (six_digits (sample_value s % pin_possibilities)), random)
    else again
