-- ===== src/Auth/Store/Durable.antt =====
-- The file of the tokens behind the calls that write it.
use openwrt_wattline.Common.{
  true, false, none, some, [], ◌∷◌, ◌++◌, ◌≡◌, arith, is_some, Bool-cases, Option-cases, inl, inr,
  ◌⊎◌,
}
use openwrt_wattline.Common.Bytes.{Bytes, bytes_eq, equal}
use openwrt_wattline.Common.Dict.{Dict, find, erase}
use openwrt_wattline.Common.Sort.{sort_by}
use openwrt_wattline.Auth.Files.{FileSystem, save}
use openwrt_wattline.Auth.Files.Atomic.{IsPosix, save-Saves}
use openwrt_wattline.Auth.Tokens.{Codec, TokenRecord, bootstrap_id}
use openwrt_wattline.Auth.Store.{Store, persist, disk_records, disk_before, revoke, notify_revoked}

module _ {W F D : Type 0} (codec : Codec) (fs : FileSystem W F D) (posix : IsPosix fs) where
  -- The file has these records, with the last-seen times that were written before.
  abbrev pub Stored : Dict Bytes TokenRecord → W → Type 0
  Stored m w =
      (raw : Bytes) × (codec.encode (sort_by disk_before (disk_records false m)) ≡ some raw)
      × (fs.at_path w ≡ some (raw ++ b'\n' ∷ []))

  -- A write that is committed leaves the records in the file, one that is not has an error and leaves
  -- the file alone.
  persist-Stored :
      (s : Store W)
      → ((persist codec fs false s).1.committed ≡ true
          × Stored s.records (persist codec fs false s).0.world)
        ⊎ ((persist codec fs false s).1.committed ≡ false
            × is_some (persist codec fs false s).1.error ≡ true
            × fs.at_path (persist codec fs false s).0.world ≡ fs.at_path s.world)
  unfolding persist
  persist-Stored s =
      elim (Option-cases (codec.encode (sort_by disk_before (disk_records false s.records)))) [
        | inl e ↦ inr (ground (arith, e), ground (arith, e), ground (arith, e))
        | inr (raw, e) ↦
            let saved = save-Saves fs posix (raw ++ b'\n' ∷ []) s.world in
            elim (Bool-cases (save fs (raw ++ b'\n' ∷ []) s.world).1.committed) [
              | inl c ↦ inl (ground (arith, e, c), (raw, e, ground (arith, e, c, saved.0)))
              | inr c ↦ inr (
                ground (arith, e, c),
                ground (arith, e, c, saved.1),
                ground (arith, e, c, saved.0),
              )
            ]
      ]

  -- Revoke returns no error only when the file has the records without the token; where it returns
  -- one, the file is as it was.
  pub revoke-Stored :
      (id : Bytes) (s : Store W)
      → ((revoke codec fs id s).1 ≡ none
          × Stored (erase id s.records) (revoke codec fs id s).0.world)
        ⊎ (is_some (revoke codec fs id s).1 ≡ true
            × fs.at_path (revoke codec fs id s).0.world ≡ fs.at_path s.world)
  unfolding revoke notify_revoked
  revoke-Stored id s =
      let kept : Store W = record s { records = erase id s.records } in
      elim (Bool-cases (equal id bootstrap_id)) [
        | inl b ↦ inr (ground (arith, b), ground (arith, b))
        | inr b ↦ elim (Option-cases (find id s.records)) [
          | inl f ↦ inr (ground (arith, b, f), ground (arith, b, f))
          | inr (r, f) ↦ elim (Bool-cases r.meta.bootstrap) [
            | inl m ↦ inr (ground (arith, b, f, m), ground (arith, b, f, m))
            | inr m ↦ elim (persist-Stored kept) [
              | inl (c, (raw, e, at)) ↦
                  inl (ground (arith, b, f, m, c), (raw, e, ground (arith, b, f, m, c, at)))
              | inr (c, x, at) ↦
                  inr (ground (arith, b, f, m, c, x), ground (arith, b, f, m, c, x, at))
            ]
          ]
        ]
      ]
