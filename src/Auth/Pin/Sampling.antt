-- ===== src/Auth/Pin/Sampling.antt =====
-- Rejection sampling of the PIN.
use openwrt_wattline.Common.{
  ℕ, ◌+◌, ◌*◌, ◌%◌, ◌^◌, ◌≤◌, ◌<◌, ◌≡◌, none, some, [], ◌∷◌, All, length, bit_or, arith, ap, ltb,
  if◌then◌else◌, Bool-cases, inl, inr, subst, ◌-◌, ◌∙◌,
}
use openwrt_wattline.Common.Bits.{bit_or_fields}
use openwrt_wattline.Common.Bytes.{Bytes}
use openwrt_wattline.Auth.Pin.{
  Sample, Random, pin_possibilities, rejection_ceiling, sample_value, six_digits, generate_pin,
}

abbrev pub IsSample : Sample → Type 0
IsSample s = (s.0 < 256) × (s.1 < 256) × (s.2 < 256)

sum_of_two : (a b : ℕ) → a < 256 → b < 256 → bit_or (a * 2 ^ 16) (b * 2 ^ 8) ≡ (a * 256 + b) * 2 ^ 8
sum_of_two a b ha hb = omega (arith, bit_or_fields 8 16 a (b * 256) ha (omega arith))

-- The sample is a number of 24 bits, each of them from one of its bytes.
pub sample_value_sum : (s : Sample) → IsSample s → sample_value s ≡ s.0 * 65536 + s.1 * 256 + s.2
unfolding sample_value
sample_value_sum (a, b, c) h = omega (
  arith,
  bit_or_fields 16 8 (a * 256 + b) c (omega arith) h.2,
  ap (λ (t : ℕ). bit_or t c) (sum_of_two a b h.0 h.1),
)

-- A PIN is six ASCII digits.
abbrev pub IsPin : Bytes → Type 0
IsPin p = (length p ≡ 6) × All (λ (d : ℕ). (b'0' ≤ d) × (d ≤ b'9')) p

-- The number that digits spell, after `n`.
unfoldable pub pin_number : ℕ → Bytes → ℕ
pin_number n [] = n
pin_number n (d ∷ ds) = pin_number (n * 10 + (d - b'0')) ds

-- Six digits spell the number that they print, so no two PINs are the same text.
pub pin_number-six_digits : (n : ℕ) → n < pin_possibilities → pin_number 0 (six_digits n) ≡ n
unfolding pin_number six_digits
pin_number-six_digits n h = omega arith

six_digits-IsPin : (n : ℕ) → IsPin (six_digits n)
unfolding six_digits
six_digits-IsPin n = omega arith

-- Whatever the reader gives, a PIN that is generated is six ASCII digits.
pub generate_pin-IsPin :
    (random : Random) (pin : Bytes) → (generate_pin random).0 ≡ some pin → IsPin pin
unfolding generate_pin
generate_pin-IsPin [] pin h = cc
generate_pin-IsPin (none ∷ random) pin h = cc
generate_pin-IsPin (some s ∷ random) pin h =
    elim (Bool-cases (ltb (sample_value s) rejection_ceiling)) [
      | inl low ↦ subst IsPin (ground arith) (six_digits-IsPin (sample_value s % pin_possibilities))
      | inr high ↦ generate_pin-IsPin random pin (ground arith)
    ]

-- No PIN is likelier than another: the sample that is the number n + k * 1000000, for n below a
-- million, gives the PIN of n where k is below 16, and is drawn again otherwise.
pub generate_pin-uniform :
    (n k : ℕ) (s : Sample) (random : Random)
    → n < pin_possibilities
    → IsSample s
    → s.0 * 65536 + s.1 * 256 + s.2 ≡ n + k * pin_possibilities
    → generate_pin (some s ∷ random)
      ≡ (if ltb k 16 then (some (six_digits n), random) else generate_pin random)
unfolding generate_pin
generate_pin-uniform n k s random hn hs e =
    let v : sample_value s ≡ n + k * pin_possibilities = sample_value_sum s hs ∙ e in
    let m : sample_value s % pin_possibilities ≡ n = omega arith in rw m (ground arith)
