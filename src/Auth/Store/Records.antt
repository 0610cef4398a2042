-- ===== src/Auth/Store/Records.antt =====
-- What holds of the records of the store between two calls, and that each change keeps it.
use openwrt_wattline.Common.{
  true, false, ◌==◌, nat_eq, bool_eq, none, some, [], ◌∷◌, All, ◌≡◌, refl, ◌∙◌, sym, subst, ap,
  arith, is_some,
}
use openwrt_wattline.Common.Bytes.{Bytes, bytes_eq, equal_iff}
use openwrt_wattline.Common.Dict.{Dict, find, insert, erase, find-insert, find-erase}
use openwrt_wattline.Common.Distinct.{
  keys_of, IsDistinct, IsDistinct-count, count-IsDistinct, erase-IsDistinct, insert-IsDistinct,
}
use openwrt_wattline.Auth.Tokens.{TokenRecord, bootstrap_id, validate_unique_hashes}
use openwrt_wattline.Auth.Store.{mark_persisted}
use openwrt_wattline.Auth.Store.Matching.{
  hashes_of, count-hashes_of-insert, count-hashes_of-erase, hashes_of-insert, All-find, All-insert,
  All-erase, validate_unique_hashes-IsDistinct,
}

-- A record stands under its ID, and the bootstrap flag is on the bootstrap ID alone.
abbrev pub EntryValid : Bytes × TokenRecord → Type 0
EntryValid (id, r) = (r.meta.id ≡ id) × (r.meta.bootstrap ≡ (id == bootstrap_id))

pub record RecordsValid (m : Dict Bytes TokenRecord) : Type 0 where
  pub keys : IsDistinct (keys_of m)
  pub hashes : IsDistinct (hashes_of m)
  pub entries : All EntryValid m
  pub bootstrap : is_some (find bootstrap_id m) ≡ true

-- Issue: a new record, where the hashes were found to be distinct
pub insert-RecordsValid :
    (k : Bytes) (r : TokenRecord) (m : Dict Bytes TokenRecord)
    → validate_unique_hashes (insert k r m) ≡ none
    → EntryValid (k, r)
    → RecordsValid m
    → RecordsValid (insert k r m)
insert-RecordsValid k r m u e v = record {
  keys = insert-IsDistinct k r m v.keys;
  hashes = validate_unique_hashes-IsDistinct (insert k r m) u;
  entries = All-insert EntryValid k r m e v.entries;
  bootstrap = ground (arith, v.bootstrap, find-insert k bootstrap_id r m);
}

-- Authenticate: a record with the ID and the hash of the one that it replaces
pub replace-RecordsValid :
    (k : Bytes) (r r' : TokenRecord) (m : Dict Bytes TokenRecord)
    → find k m ≡ some r
    → r'.hash ≡ r.hash
    → EntryValid (k, r')
    → RecordsValid m
    → RecordsValid (insert k r' m)
replace-RecordsValid k r r' m f h e v = record {
  keys = insert-IsDistinct k r' m v.keys;
  hashes = subst IsDistinct (sym (hashes_of-insert k r r' m f h)) v.hashes;
  entries = All-insert EntryValid k r' m e v.entries;
  bootstrap = ground (arith, v.bootstrap, find-insert k bootstrap_id r' m);
}

-- Revoke: a record that is not the bootstrap record is dropped
pub erase-RecordsValid :
    (k : Bytes) (r : TokenRecord) (m : Dict Bytes TokenRecord)
    → find k m ≡ some r
    → (k == bootstrap_id) ≡ false
    → RecordsValid m
    → RecordsValid (erase k m)
erase-RecordsValid k r m f n v = record {
  keys = erase-IsDistinct k m v.keys;
  hashes = IsDistinct-count (hashes_of (erase k m)) (λ h.
      ground
        (arith, count-hashes_of-erase h k r m v.keys f, count-IsDistinct h (hashes_of m) v.hashes));
  entries = All-erase EntryValid k m v.entries;
  bootstrap = ground (arith, v.bootstrap, n, find-erase k bootstrap_id m);
}

-- Revoke: the dropped record is put back
pub restore-RecordsValid :
    (k : Bytes) (r : TokenRecord) (m : Dict Bytes TokenRecord)
    → find k m ≡ some r
    → RecordsValid m
    → RecordsValid (insert k r (erase k m))
restore-RecordsValid k r m f v =
    let gone : find k (erase k m) ≡ none = ground (arith, find-erase k k m, equal_iff k k) in
    record {
      keys = insert-IsDistinct k r (erase k m) (erase-IsDistinct k m v.keys);
      hashes = IsDistinct-count (hashes_of (insert k r (erase k m))) (λ h. ground (
        arith,
        count-hashes_of-insert h k r (erase k m) gone,
        count-hashes_of-erase h k r m v.keys f,
        count-IsDistinct h (hashes_of m) v.hashes,
      ));
      entries =
          All-insert EntryValid k r (erase k m) (All-find EntryValid k r m f v.entries)
            (All-erase EntryValid k m v.entries);
      bootstrap = ground (
        arith,
        v.bootstrap,
        f,
        find-insert k bootstrap_id r (erase k m),
        find-erase k bootstrap_id m,
        equal_iff k bootstrap_id,
      );
    }

keys_of-mark_persisted : (m : Dict Bytes TokenRecord) → keys_of (mark_persisted m) ≡ keys_of m
unfolding mark_persisted
keys_of-mark_persisted [] = refl
keys_of-mark_persisted ((k, r) ∷ m) = ap (◌∷◌ k) (keys_of-mark_persisted m)

hashes_of-mark_persisted : (m : Dict Bytes TokenRecord) → hashes_of (mark_persisted m) ≡ hashes_of m
unfolding mark_persisted
hashes_of-mark_persisted [] = refl
hashes_of-mark_persisted ((k, r) ∷ m) = ap (◌∷◌ r.hash) (hashes_of-mark_persisted m)

All-mark_persisted :
    (m : Dict Bytes TokenRecord) → All EntryValid m → All EntryValid (mark_persisted m)
unfolding mark_persisted
All-mark_persisted [] h = h
All-mark_persisted ((k, r) ∷ m) h = (h.0, All-mark_persisted m h.1)

pub is_some-mark_persisted :
    (k : Bytes) (m : Dict Bytes TokenRecord)
    → is_some (find k (mark_persisted m)) ≡ is_some (find k m)
unfolding mark_persisted find
is_some-mark_persisted k [] = refl
is_some-mark_persisted k ((j, r) ∷ m) = ground (arith, is_some-mark_persisted k m)

pub mark-RecordsValid :
    (m : Dict Bytes TokenRecord) → RecordsValid m → RecordsValid (mark_persisted m)
mark-RecordsValid m v = record {
  keys = subst IsDistinct (sym (keys_of-mark_persisted m)) v.keys;
  hashes = subst IsDistinct (sym (hashes_of-mark_persisted m)) v.hashes;
  entries = All-mark_persisted m v.entries;
  bootstrap = is_some-mark_persisted bootstrap_id m ∙ v.bootstrap;
}
