-- ===== src/Common/Distinct.antt =====
-- How often an element stands in a list, and the keys of a map.
use openwrt_wattline.Common.Tests.{Comparable, nat_eq, ◌==◌, if◌then◌else◌}
use openwrt_wattline.Common.Dict.{Dict, find, insert, erase}
use Prim.Native.Nat.{ℕ, ◌+◌, ◌≤◌}
use mathlib.Core.Path.{◌≡◌, refl}
use mathlib.Core.List.{List, [], ◌∷◌, ◌++◌}
use mathlib.Core.Option.{none}
use native.Mathlib.Omega.{arith}

module _ {ℓ} {K : Type ℓ} ⦃e : Comparable K⦄ where
  abbrev pub count : K → List K → ℕ
  count j [] = 0
  count j (k ∷ ks) = (if k == j then 1 else 0) + count j ks

  -- No element twice.
  abbrev pub IsDistinct : List K → Type 0
  IsDistinct [] = Unit
  IsDistinct (k ∷ ks) = (count k ks ≡ 0) × IsDistinct ks

  pub count-IsDistinct : (j : K) (ks : List K) → IsDistinct ks → count j ks ≤ 1
  count-IsDistinct j [] h = omega arith
  count-IsDistinct j (k ∷ ks) h = ground (arith, e.same_iff k j, count-IsDistinct j ks h.1)

  pub IsDistinct-count : (ks : List K) → ((j : K) → count j ks ≤ 1) → IsDistinct ks
  IsDistinct-count [] h = tt
  IsDistinct-count (k ∷ ks) h =
      (ground (arith, e.same_iff k k, h k), IsDistinct-count ks (λ j. ground (arith, h j)))

  pub count-append : (j : K) (xs ys : List K) → count j (xs ++ ys) ≡ count j xs + count j ys
  count-append j [] ys = omega arith
  count-append j (x ∷ xs) ys = omega (arith, count-append j xs ys)

module _ {ℓ κ} {K : Type ℓ} {V : Type κ} ⦃e : Comparable K⦄ where
  abbrev pub keys_of : Dict K V → List K
  keys_of [] = []
  keys_of ((k, v) ∷ m) = k ∷ keys_of m

  -- A key that is not there is not found, and one that is not found is not there.
  pub find-none : (j : K) (m : Dict K V) → count j (keys_of m) ≡ 0 → find j m ≡ none
  unfolding find
  find-none j [] h = refl
  find-none j ((k, v) ∷ m) h = ground (arith, find-none j m)

  pub count-none : (j : K) (m : Dict K V) → find j m ≡ none → count j (keys_of m) ≡ 0
  unfolding find
  count-none j [] h = refl
  count-none j ((k, w) ∷ m) h = ground (arith, count-none j m)

  pub count-erase :
      (j k : K) (m : Dict K V)
      → count j (keys_of (erase k m)) ≡ (if k == j then 0 else count j (keys_of m))
  unfolding erase
  count-erase j k [] = ground arith
  count-erase j k ((i, w) ∷ m) =
      ground (arith, e.same_iff k j, e.same_iff i k, e.same_iff i j, count-erase j k m)

  pub count-insert :
      (j k : K) (v : V) (m : Dict K V)
      → count j (keys_of (insert k v m)) ≡ (
          if k == j
          then (if count k (keys_of m) == 0 then 1 else count k (keys_of m))
          else count j (keys_of m))
  unfolding insert
  count-insert j k v [] = ground arith
  count-insert j k v ((i, w) ∷ m) =
      ground (arith, e.same_iff k j, e.same_iff i k, e.same_iff i j, count-insert j k v m)

  pub erase-none : (k : K) (m : Dict K V) → find k m ≡ none → erase k m ≡ m
  unfolding find erase
  erase-none k [] h = refl
  erase-none k ((i, w) ∷ m) h = ground (arith, erase-none k m)

  pub erase-insert : (k : K) (v : V) (m : Dict K V) → find k m ≡ none → erase k (insert k v m) ≡ m
  unfolding find erase insert
  erase-insert k v [] h = ground (arith, e.same_iff k k)
  erase-insert k v ((i, w) ∷ m) h = ground (arith, e.same_iff k k, erase-insert k v m)

  pub erase-IsDistinct :
      (k : K) (m : Dict K V) → IsDistinct (keys_of m) → IsDistinct (keys_of (erase k m))
  erase-IsDistinct k m h =
      IsDistinct-count (keys_of (erase k m))
        (λ j. ground (arith, count-erase j k m, count-IsDistinct j (keys_of m) h))

  pub insert-IsDistinct :
      (k : K) (v : V) (m : Dict K V) → IsDistinct (keys_of m) → IsDistinct (keys_of (insert k v m))
  insert-IsDistinct k v m h = IsDistinct-count (keys_of (insert k v m)) (λ j. ground (
    arith,
    count-insert j k v m,
    count-IsDistinct j (keys_of m) h,
    count-IsDistinct k (keys_of m) h,
  ))
