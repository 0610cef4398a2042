-- ===== src/Common/Bytes.antt =====
-- Byte slices and encoding/binary's little-endian words.
use openwrt_wattline.Common.Lists.{get_or, All}
use openwrt_wattline.Common.Tests.{Comparable, ◌==◌, nat_eq, nat_beq_iff}
use Prim.Native.String.{String}
use mathlib.Core.Bool.{Bool, true, false, ◌&&◌}
use mathlib.Core.Logic.{◌↔◌}
use Prim.Native.Char.{code}
use Prim.Native.Nat.{ℕ, ◌+◌, ◌*◌, ◌/◌, ◌%◌, ◌^◌, ◌<◌}
use mathlib.Core.Path.{◌≡◌, refl}
use mathlib.Core.List.{List, [], ◌∷◌}
use native.Mathlib.Omega.{arith}

abbrev pub Bytes : Type 0
Bytes = List ℕ

abbrev pub IsBytes : Bytes → Type 0
IsBytes = All (λ b. b < 256)

-- `b[i]`. Go panics out of range: each use stands behind a test of the length.
abbrev pub at : Bytes → ℕ → ℕ
at b i = get_or b i 0

-- binary.LittleEndian.Uint16(b[i:]) and Uint32(b[i:])
abbrev pub uint16_at : Bytes → ℕ → ℕ
uint16_at b i = at b i + at b (1 + i) * 256

abbrev pub uint32_at : Bytes → ℕ → ℕ
uint32_at b i = at b i + at b (1 + i) * 256 + at b (2 + i) * 65536 + at b (3 + i) * 16777216

-- binary.LittleEndian.PutUint16 and PutUint32, the bytes that they write
abbrev pub put_uint16 : ℕ → Bytes
put_uint16 v = v % 256 ∷ v / 256 % 256 ∷ []

abbrev pub put_uint32 : ℕ → Bytes
put_uint32 v = v % 256 ∷ v / 256 % 256 ∷ v / 65536 % 256 ∷ v / 16777216 % 256 ∷ []

pub uint16_at-put_uint16 : (v : ℕ) → v < 2 ^ 16 → uint16_at (put_uint16 v) 0 ≡ v
uint16_at-put_uint16 v h = omega arith

pub uint32_at-put_uint32 : (v : ℕ) → v < 2 ^ 32 → uint32_at (put_uint32 v) 0 ≡ v
uint32_at-put_uint32 v h = omega arith

-- `==` on strings that are held as bytes.
unfoldable pub equal : Bytes → Bytes → Bool
equal [] [] = true
equal [] (y ∷ ys) = false
equal (x ∷ xs) [] = false
equal (x ∷ xs) (y ∷ ys) = x == y && equal xs ys

pub equal_iff : (a b : Bytes) → (equal a b ≡ true) ↔ (a ≡ b)
unfolding equal
equal_iff [] [] = (λ _. refl, λ _. refl)
equal_iff [] (y ∷ ys) = (λ e. cc, λ e. ground arith)
equal_iff (x ∷ xs) [] = (λ e. cc, λ e. ground arith)
equal_iff (x ∷ xs) (y ∷ ys) = (
  λ e. ground (arith, nat_beq_iff x y, equal_iff xs ys),
  λ e. ground (arith, nat_beq_iff x y, equal_iff xs ys),
)

instance abbrev pub bytes_eq : Comparable Bytes
bytes_eq = record { same = equal; same_iff = equal_iff }

-- The bytes of a literal, which is ASCII wherever this is used.
abbrev pub ascii : String → Bytes
ascii String.[] = []
ascii (String.◌∷◌ c s) = code c ∷ ascii s
