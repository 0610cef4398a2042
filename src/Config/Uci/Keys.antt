-- ===== src/Config/Uci/Keys.antt =====
-- The keys that Serialize sorts: the same keys, each as often.
use openwrt_wattline.Common.{
  All, true, false, Bool, ℕ, zero, suc, ◌+◌, ◌==◌, if◌then◌else◌, List, [], ◌∷◌, ◌≡◌, refl, ◌∙◌,
  arith, length, ap, Bool,
}
use openwrt_wattline.Common.Bytes.{Bytes, bytes_eq}
use openwrt_wattline.Common.Dict.{Dict}
use openwrt_wattline.Common.Distinct.{count, keys_of}
use openwrt_wattline.Config.Uci.Writer.{exchange_least, sort_keys, sorted_keys, less}

count-exchange_least :
    (j x : Bytes) (ys : List Bytes)
    → (if (exchange_least x ys).0 == j then 1 else 0) + count j (exchange_least x ys).1
      ≡ (if x == j then 1 else 0) + count j ys
unfolding exchange_least
count-exchange_least j x [] = refl
count-exchange_least j x (y ∷ ys) =
    ground (arith, count-exchange_least j x ys, count-exchange_least j y ys)

count-sort_keys :
    (j : Bytes) (n : ℕ) (keys : List Bytes) → count j (sort_keys n keys) ≡ count j keys
unfolding sort_keys
count-sort_keys j zero keys = refl
count-sort_keys j (suc n) [] = refl
count-sort_keys j (suc n) (x ∷ keys) =
    ap (λ (r : ℕ). (if (exchange_least x keys).0 == j then 1 else 0) + r)
      (count-sort_keys j n (exchange_least x keys).1)
    ∙ count-exchange_least j x keys

pub count-sorted_keys :
    {V : Type 0} (j : Bytes) (m : Dict Bytes V) → count j (sorted_keys m) ≡ count j (keys_of m)
unfolding sorted_keys
count-sorted_keys j m = count-sort_keys j (length (keys_of m)) (keys_of m)

all_pick :
    (P : Bytes → Type 0) (b : Bool) (x y : Bytes)
    → P x
    → P y
    → P (if b then x else y) × P (if b then y else x)
all_pick P true x y h k = (h, k)
all_pick P false x y h k = (k, h)

All-exchange_least :
    (P : Bytes → Type 0) (x : Bytes) (ys : List Bytes)
    → P x
    → All P ys
    → P (exchange_least x ys).0 × All P (exchange_least x ys).1
unfolding exchange_least
All-exchange_least P x [] h k = (h, k)
All-exchange_least P x (y ∷ ys) h k =
    let picked = all_pick P (less y x) y x k.0 h in
    let rest = All-exchange_least P (if less y x then y else x) ys picked.0 k.1 in
    (rest.0, (picked.1, rest.1))

All-sort_keys :
    (P : Bytes → Type 0) (n : ℕ) (keys : List Bytes) → All P keys → All P (sort_keys n keys)
unfolding sort_keys
All-sort_keys P zero keys h = h
All-sort_keys P (suc n) [] h = h
All-sort_keys P (suc n) (x ∷ keys) h =
    let moved = All-exchange_least P x keys h.0 h.1 in
    (moved.0, All-sort_keys P n (exchange_least x keys).1 moved.1)

pub All-sorted_keys :
    {V : Type 0} (P : Bytes → Type 0) (m : Dict Bytes V) → All P (keys_of m) → All P (sorted_keys m)
unfolding sorted_keys
All-sorted_keys P m h = All-sort_keys P (length (keys_of m)) (keys_of m) h
