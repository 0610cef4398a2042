-- ===== src/Auth/Store/Matching.antt =====
-- The records under the changes that the store makes to them.
use openwrt_wattline.Common.{
  ◌+◌, ◌≤◌, false, ◌==◌, nat_eq, if◌then◌else◌, none, some, List, [], ◌∷◌, All, ◌≡◌, refl, sym,
  subst, arith, is_some, Option-cases, inl, inr, Bool-cases,
}
use openwrt_wattline.Common.Bytes.{Bytes, bytes_eq, equal_iff, equal}
use openwrt_wattline.Common.Dict.{Dict, find, insert, erase, find-insert}
use openwrt_wattline.Common.Distinct.{
  erase-none, find-none, count, keys_of, IsDistinct, IsDistinct-count, count-IsDistinct,
}
use openwrt_wattline.Auth.Tokens.{TokenRecord, unique_hashes, validate_unique_hashes}
use openwrt_wattline.Auth.Store.{matching}

abbrev pub hashes_of : Dict Bytes TokenRecord → List Bytes
hashes_of [] = []
hashes_of ((id, r) ∷ m) = r.hash ∷ hashes_of m

pub count-hashes_of-insert :
    (h k : Bytes) (r : TokenRecord) (m : Dict Bytes TokenRecord)
    → find k m ≡ none
    → count h (hashes_of (insert k r m)) ≡ (if r.hash == h then 1 else 0) + count h (hashes_of m)
unfolding find insert
count-hashes_of-insert h k r [] e = refl
count-hashes_of-insert h k r ((i, w) ∷ m) e = ground (arith, count-hashes_of-insert h k r m)

pub count-hashes_of-erase :
    (h k : Bytes) (r : TokenRecord) (m : Dict Bytes TokenRecord)
    → IsDistinct (keys_of m)
    → find k m ≡ some r
    → (if r.hash == h then 1 else 0) + count h (hashes_of (erase k m)) ≡ count h (hashes_of m)
unfolding find erase
count-hashes_of-erase h k r [] d e = ground arith
count-hashes_of-erase h k r ((i, w) ∷ m) d e = elim (Bool-cases (equal i k)) [
  | inl t ↦
      let gone : erase k m ≡ m = erase-none k m (
        find-none k m (subst (λ (x : Bytes). count x (keys_of m) ≡ 0) ((equal_iff i k).0 t) d.0)) in
      ground (arith, gone, e, t)
  | inr t ↦ ground (arith, count-hashes_of-erase h k r m d.1, e, t)
]

pub hashes_of-insert :
    (k : Bytes) (r r' : TokenRecord) (m : Dict Bytes TokenRecord)
    → find k m ≡ some r
    → r'.hash ≡ r.hash
    → hashes_of (insert k r' m) ≡ hashes_of m
unfolding find insert
hashes_of-insert k r r' [] e h = ground arith
hashes_of-insert k r r' ((i, w) ∷ m) e h = ground (arith, hashes_of-insert k r r' m)

pub keys_of-insert :
    {V : Type 0} (k : Bytes) (r r' : V) (m : Dict Bytes V)
    → find k m ≡ some r
    → keys_of (insert k r' m) ≡ keys_of m
unfolding find insert
keys_of-insert k r r' [] e = ground arith
keys_of-insert k r r' ((i, w) ∷ m) e = ground (arith, keys_of-insert k r r' m)

module _ {V : Type 0} (P : Bytes × V → Type 0) where
  pub All-find : (k : Bytes) (r : V) (m : Dict Bytes V) → find k m ≡ some r → All P m → P (k, r)
  unfolding find
  All-find k r [] e h = absurd (ground arith)
  All-find k r ((i, w) ∷ m) e h = elim (Bool-cases (equal i k)) [
    | inl t ↦ let found : (i, w) ≡ (k, r) = ground (arith, equal_iff i k, e, t) in subst P found h.0
    | inr t ↦ All-find k r m (ground (arith, e, t)) h.1
  ]

  pub All-insert :
      (k : Bytes) (r : V) (m : Dict Bytes V) → P (k, r) → All P m → All P (insert k r m)
  unfolding insert
  All-insert k r [] p h = (p, tt)
  All-insert k r ((i, w) ∷ m) p h = elim (Bool-cases (equal i k)) [
    | inl t ↦ rw t (subst (λ (x : Bytes). P (x, r)) (sym ((equal_iff i k).0 t)) p, h.1)
    | inr t ↦ rw t (h.0, All-insert k r m p h.1)
  ]

  pub All-erase : (k : Bytes) (m : Dict Bytes V) → All P m → All P (erase k m)
  unfolding erase
  All-erase k [] h = h
  All-erase k ((i, w) ∷ m) h = elim (Bool-cases (equal i k)) [
    | inl t ↦ rw t (All-erase k m h.1)
    | inr t ↦ rw t (h.0, All-erase k m h.1)
  ]

-- validateUniqueHashes has no error exactly where no hash stands twice.
unique_hashes-none :
    (seen : Dict Bytes Bytes) (m : Dict Bytes TokenRecord) (h : Bytes)
    → unique_hashes seen m ≡ none
    → (if is_some (find h seen) then 1 else 0) + count h (hashes_of m) ≤ 1
unfolding unique_hashes
unique_hashes-none seen [] h e = ground arith
unique_hashes-none seen ((id, r) ∷ m) h e = ground (
  arith,
  equal_iff r.hash h,
  unique_hashes-none (insert r.hash id seen) m h,
  find-insert r.hash h id seen,
)

pub validate_unique_hashes-IsDistinct :
    (m : Dict Bytes TokenRecord) → validate_unique_hashes m ≡ none → IsDistinct (hashes_of m)
unfolding validate_unique_hashes find
validate_unique_hashes-IsDistinct m e =
    IsDistinct-count (hashes_of m) (λ h. ground (arith, unique_hashes-none [] m h e))

unique_hashes_some :
    (seen : Dict Bytes Bytes) (m : Dict Bytes TokenRecord)
    → ((h : Bytes) → (if is_some (find h seen) then 1 else 0) + count h (hashes_of m) ≤ 1)
    → unique_hashes seen m ≡ none
unfolding unique_hashes
unique_hashes_some seen [] b = refl
unique_hashes_some seen ((id, r) ∷ m) b = elim (Option-cases (find r.hash seen)) [
  | inl e ↦ ground (
    arith,
    e,
    unique_hashes_some (insert r.hash id seen) m
        (λ h. ground (arith, equal_iff r.hash h, b h, e, find-insert r.hash h id seen)),
  )
  | inr (x, e) ↦ absurd (ground (arith, equal_iff r.hash r.hash, b r.hash, e))
]

pub validate_unique_hashes-none :
    (m : Dict Bytes TokenRecord) → IsDistinct (hashes_of m) → validate_unique_hashes m ≡ none
unfolding validate_unique_hashes find
validate_unique_hashes-none m d =
    unique_hashes_some [] m (λ h. ground (arith, count-IsDistinct h (hashes_of m) d))

-- Authenticate finds a record with the hash, under its key.
pub matching_found :
    (h k : Bytes) (r : TokenRecord) (m : Dict Bytes TokenRecord)
    → IsDistinct (keys_of m)
    → matching h m ≡ some (k, r)
    → (find k m ≡ some r) × (r.hash ≡ h)
unfolding matching find
matching_found h k r [] d e = absurd (ground arith)
matching_found h k r ((i, w) ∷ m) d e = elim (Option-cases (matching h m)) [
  | inl n ↦ (
    ground (arith, e, n, equal_iff i k, equal_iff h w.hash),
    ground (arith, e, n, equal_iff i k, equal_iff h w.hash),
  )
  | inr (x, n) ↦
      let same : matching h m ≡ some (k, r) = ground (arith, e, n) in
      let rest = matching_found h k r m d.1 same in
      let other : equal i k ≡ false = ground (arith, equal_iff i k, find-none i m d.0, rest.0) in
      (rw other rest.0, rest.1)
]

pub matching-none :
    (h : Bytes) (m : Dict Bytes TokenRecord) → count h (hashes_of m) ≡ 0 → matching h m ≡ none
unfolding matching
matching-none h [] e = refl
matching-none h ((i, w) ∷ m) e =
    ground (arith, equal_iff h w.hash, equal_iff w.hash h, matching-none h m)

pub matching-find :
    (k : Bytes) (r : TokenRecord) (m : Dict Bytes TokenRecord)
    → IsDistinct (hashes_of m)
    → find k m ≡ some r
    → matching r.hash m ≡ some (k, r)
unfolding matching find
matching-find k r [] d e = ground arith
matching-find k r ((i, w) ∷ m) d e = elim (Bool-cases (equal i k)) [
  | inl t ↦
      let name : i ≡ k = (equal_iff i k).0 t in
      let found : w ≡ r = ground (arith, e, t) in
      let hash : w.hash ≡ r.hash = rw found refl in
      let rest : matching r.hash m ≡ none =
        matching-none r.hash m (subst (λ (x : Bytes). count x (hashes_of m) ≡ 0) hash d.0) in
      ground (arith, rest, name, found, equal_iff r.hash w.hash, hash)
  | inr t ↦ ground (arith, t, e, matching-find k r m d.1)
]
