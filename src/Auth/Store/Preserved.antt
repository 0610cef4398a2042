-- ===== src/Auth/Store/Preserved.antt =====
-- The calls that write the file keep the invariant of the store.
use openwrt_wattline.Common.{
  ℕ, ◌%◌, ◌<◌, take, Bool, true, false, ◌||◌, ◌==◌, nat_eq, bool_eq, Option, none, some, [], ◌∷◌,
  ◌≡◌, refl, ◌∙◌, sym, subst, arith, is_some, Bool-cases, Option-cases, inl, inr, ◌⊎◌,
}
use openwrt_wattline.Common.Bytes.{Bytes, bytes_eq, equal, equal_iff}
use openwrt_wattline.Common.Clock.{Time, is_zero, since, hour}
use openwrt_wattline.Common.Int.{pos, leb_ℤ}
use openwrt_wattline.Common.Result.{Result, ok, err}
use openwrt_wattline.Common.Dict.{Dict, find, insert, erase, find-insert, find-erase}
use openwrt_wattline.Common.Distinct.{erase-insert, count-erase}
use openwrt_wattline.Auth.Tokens.{
  hex_encode, hex_digit, Codec, TokenRecord, TokenMeta, StoreError, bootstrap_id, duplicate_id,
  bootstrap_token, token_not_found, hash_secret, valid_label, validate_unique_hashes,
}
use openwrt_wattline.Auth.Files.{FileSystem}
use openwrt_wattline.Auth.Store.{
  Store, persist, flush_last_seen, authenticate, add_record, issue, revoke, notify_revoked,
  matching, seen_at, mark_persisted, new_secret, new_record,
}
use openwrt_wattline.Auth.Store.Matching.{matching_found, All-find}
use openwrt_wattline.Auth.Store.Records.{
  EntryValid, RecordsValid, insert-RecordsValid, replace-RecordsValid, erase-RecordsValid,
  restore-RecordsValid, mark-RecordsValid, is_some-mark_persisted,
}
use openwrt_wattline.Auth.Store.Invariant.{IsValid, owned_other, owned-All, notify_revoked-IsValid}

hex_digit-below : (n : ℕ) → n < 16 → (hex_digit n == b'o') ≡ false
hex_digit-below n h = ground arith

-- No sixteen hexadecimal digits spell the bootstrap ID.
hex_id : (raw : Bytes) → equal (take 16 (hex_encode raw)) bootstrap_id ≡ false
unfolding hex_encode equal
hex_id [] = refl
hex_id (b ∷ bs) =
    let low : b % 16 < 16 = omega arith in ground (arith, hex_digit-below (b % 16) low)

new_record-EntryValid :
    (codec : Codec) (raw label : Bytes) (now : Time)
    → EntryValid ((new_record codec raw label now).meta.id, new_record codec raw label now)
unfolding new_record
new_record-EntryValid codec raw label now = (refl, sym (hex_id raw))

module _ {W F D : Type 0} (codec : Codec) (fs : FileSystem W F D) where
  -- persistLocked touches nothing but the files.
  pub persist_frame :
      (flush : Bool) (s : Store W)
      → (persist codec fs flush s).0 ≡ record s { world = (persist codec fs flush s).0.world }
  unfolding persist
  persist_frame flush s = ground arith

  -- A change of the records that loses none of them.
  records-IsValid :
      (m : Dict Bytes TokenRecord) (s : Store W)
      → RecordsValid m
      → ((j : Bytes) → is_some (find j s.records) ≡ true → is_some (find j m) ≡ true)
      → IsValid s
      → IsValid (record s { records = m })
  records-IsValid m s r k v = record {
    tokens = r;
    channels = v.channels;
    owned = owned-All s.records m s.subscribers k v.owned;
    quiet = v.quiet;
  }

  flush_last_seen-IsValid :
      (now : Time) (s : Store W) → IsValid s → IsValid (flush_last_seen codec fs now s)
  unfolding flush_last_seen
  flush_last_seen-IsValid now s v =
      let w = (persist codec fs true s).0.world in
      let e = (persist codec fs true s).1.error in
      let frame = persist_frame true s in
      let due =
        is_zero s.last_seen_persisted_at || leb_ℤ (pos hour) (since now s.last_seen_persisted_at) in
      elim (Bool-cases due) [
        | inr b ↦
            let same : flush_last_seen codec fs now s ≡ s = ground (arith, b) in
            subst IsValid (sym same) v
        | inl b ↦ elim (Bool-cases (persist codec fs true s).1.committed) [
          | inr c ↦
              let same : flush_last_seen codec fs now s ≡ record s { world = w; last_error = e } =
                ground (arith, b, c, frame) in
              subst IsValid (sym same) v
          | inl c ↦
              let marked : Store W = record s { records = mark_persisted s.records } in
              let same : flush_last_seen codec fs now s
                  ≡ record marked { world = w; last_error = e; last_seen_persisted_at = now } =
                ground (arith, b, c, frame) in
              subst IsValid (sym same) (
                records-IsValid (mark_persisted s.records) s (mark-RecordsValid s.records v.tokens)
                  (λ j h. is_some-mark_persisted j s.records ∙ h) v)
        ]
      ]

  pub authenticate-IsValid :
      (secret : Bytes) (now : Time) (s : Store W)
      → IsValid s
      → IsValid (authenticate codec fs secret now s).0
  unfolding authenticate
  authenticate-IsValid secret now s v =
      elim (Option-cases (matching (hash_secret codec secret) s.records)) [
        | inl e ↦
            let same : (authenticate codec fs secret now s).0 ≡ s = ground (arith, e) in
            subst IsValid (sym same) v
        | inr ((id, r), e) ↦
            let seen = seen_at now r.meta in
            let r' : TokenRecord = record r { meta = record r.meta { last_seen_at = some seen } } in
            let t : Store W = record s { records = insert id r' s.records } in
            let found =
              (matching_found (hash_secret codec secret) id r s.records v.tokens.keys e).0 in
            let same : (authenticate codec fs secret now s).0 ≡ flush_last_seen codec fs seen t =
              ground (arith, e) in
            subst IsValid (sym same) (
              flush_last_seen-IsValid seen t (
                records-IsValid (insert id r' s.records) s
                  (replace-RecordsValid id r r' s.records found refl
                    (All-find EntryValid id r s.records found v.tokens.entries) v.tokens)
                  (λ j h. ground (arith, h, find-insert id j r' s.records)) v))
      ]

  -- The two ways that Issue ends: the records are as they were, or there is the new one besides.
  pub add_record_cases :
      (secret : Bytes) (r : TokenRecord) (s : Store W)
      → ((x : StoreError) × (w : W) × (l : Option StoreError) × (add_record codec fs secret r s
            ≡ (record s { world = w; last_error = l }, err x)))
        ⊎ ((w : W) × (l : Option StoreError) × (find r.meta.id s.records ≡ none)
            × (validate_unique_hashes (insert r.meta.id r s.records) ≡ none)
            × (add_record codec fs secret r s ≡ (
              record s { records = insert r.meta.id r s.records; world = w; last_error = l },
              ok (secret, r.meta),
            )))
  unfolding add_record
  add_record_cases secret r s =
      let id = r.meta.id in
      let added : Store W = record s { records = insert id r s.records } in
      let w = (persist codec fs false added).0.world in
      let l = (persist codec fs false added).1.error in
      let frame = persist_frame false added in
      elim (Option-cases (find id s.records)) [
        | inr (old, f) ↦ inl (duplicate_id, s.world, s.last_error, ground (arith, f))
        | inl f ↦
            let back : erase id (insert id r s.records) ≡ s.records =
              erase-insert id r s.records f in
            elim (Option-cases (validate_unique_hashes added.records)) [
              | inr (x, u) ↦ inl (x, s.world, s.last_error, ground (arith, f, u, back))
              | inl u ↦ elim (Option-cases (persist codec fs false added).1.error) [
                | inl n ↦ inr (w, l, f, u, ground (arith, f, u, n, frame))
                | inr (x, n) ↦ elim (Bool-cases (persist codec fs false added).1.committed) [
                  | inl c ↦ inr (w, l, f, u, ground (arith, f, u, n, c, frame))
                  | inr c ↦ inl (x, w, l, ground (arith, f, u, n, c, frame, back))
                ]
              ]
            ]
      ]

  add_record-IsValid :
      (secret : Bytes) (r : TokenRecord) (s : Store W)
      → EntryValid (r.meta.id, r)
      → IsValid s
      → IsValid (add_record codec fs secret r s).0
  add_record-IsValid secret r s e v = elim (add_record_cases secret r s) [
    | inl (x, w, l, same) ↦
        subst (λ (p : Store W × Result StoreError (Bytes × TokenMeta)). IsValid p.0) (sym same) v
    | inr (w, l, f, u, same) ↦
        subst (λ (p : Store W × Result StoreError (Bytes × TokenMeta)). IsValid p.0) (sym same)
          (records-IsValid (insert r.meta.id r s.records) s
            (insert-RecordsValid r.meta.id r s.records u e v.tokens)
            (λ j h. ground (arith, h, find-insert r.meta.id j r s.records)) v)
  ]

  -- The three ways that Revoke ends.
  pub revoke_cases :
      (id : Bytes) (s : Store W)
      → ((x : StoreError) × (revoke codec fs id s ≡ (s, some x)))
        ⊎ (((r : TokenRecord) × (x : StoreError) × (w : W) × (l : Option StoreError) × (find id
                  s.records
                ≡ some r)
              × (revoke codec fs id s ≡ (
                record s { records = insert id r (erase id s.records); world = w; last_error = l },
                some x,
              )))
            ⊎ ((r : TokenRecord) × (w : W) × (l : Option StoreError) × (find id s.records ≡ some r)
                × ((id == bootstrap_id) ≡ false)
                × (revoke codec fs id s ≡ (
                  notify_revoked id
                      (record s { records = erase id s.records; world = w; last_error = l }),
                  none,
                ))))
  unfolding revoke
  revoke_cases id s =
      let kept : Store W = record s { records = erase id s.records } in
      let w = (persist codec fs false kept).0.world in
      let l = (persist codec fs false kept).1.error in
      let frame = persist_frame false kept in
      elim (Bool-cases (equal id bootstrap_id)) [
        | inl b ↦ inl (bootstrap_token, ground (arith, b))
        | inr b ↦ elim (Option-cases (find id s.records)) [
          | inl f ↦ inl (token_not_found, ground (arith, b, f))
          | inr (r, f) ↦ elim (Bool-cases r.meta.bootstrap) [
            | inl m ↦ inl (token_not_found, ground (arith, b, f, m))
            | inr m ↦ elim (Option-cases (persist codec fs false kept).1.error) [
              | inl n ↦ inr (inr (r, w, l, f, b, ground (arith, b, f, m, n, frame)))
              | inr (x, n) ↦ elim (Bool-cases (persist codec fs false kept).1.committed) [
                | inl c ↦ inr (inr (r, w, l, f, b, ground (arith, b, f, m, n, c, frame)))
                | inr c ↦ inr (inl (r, x, w, l, f, ground (arith, b, f, m, n, c, frame)))
              ]
            ]
          ]
        ]
      ]

  dropped-IsValid :
      (id : Bytes) (r : TokenRecord) (s : Store W)
      → find id s.records ≡ some r
      → (id == bootstrap_id) ≡ false
      → IsValid s
      → IsValid (notify_revoked id (record s { records = erase id s.records }))
  unfolding notify_revoked
  dropped-IsValid id r s f n v =
      let t = notify_revoked-IsValid id s v in
      record {
        tokens = erase-RecordsValid id r s.records f n v.tokens;
        channels = t.channels;
        owned =
            owned_other s.records (erase id s.records) id (erase id s.subscribers)
              (λ j o h. ground (arith, o, h, find-erase id j s.records))
              (ground (arith, count-erase id id s.subscribers, equal_iff id id)) t.owned;
        quiet = t.quiet;
      }

  pub revoke-IsValid : (id : Bytes) (s : Store W) → IsValid s → IsValid (revoke codec fs id s).0
  unfolding notify_revoked
  revoke-IsValid id s v = elim (revoke_cases id s) [
    | inl (x, same) ↦ subst (λ (p : Store W × Option StoreError). IsValid p.0) (sym same) v
    | inr (inl (r, x, w, l, f, same)) ↦
        subst (λ (p : Store W × Option StoreError). IsValid p.0) (sym same)
          (records-IsValid (insert id r (erase id s.records)) s
            (restore-RecordsValid id r s.records f v.tokens)
            (λ j h.
              ground (arith, h, find-insert id j r (erase id s.records), find-erase id j s.records))
            v)
    | inr (inr (r, w, l, f, n, same)) ↦
        subst (λ (p : Store W × Option StoreError). IsValid p.0) (sym same)
          (dropped-IsValid id r s f n v)
  ]

  pub issue-IsValid :
      (read_full : ℕ → W → W × Option Bytes) (label : Bytes) (now : Time) (s : Store W)
      → IsValid s
      → IsValid (issue codec fs read_full label now s).0
  unfolding issue
  issue-IsValid read_full label now s v = elim (Bool-cases (valid_label codec label)) [
    | inr b ↦ rw b v
    | inl b ↦ elim (Option-cases (read_full 32 s.world).1) [
      | inl e ↦ rw (b, e) v
      | inr (raw, e) ↦
          rw (b, e)
            (add_record-IsValid (new_secret raw) (new_record codec raw label now)
              (record s { world = (read_full 32 s.world).0 })
              (new_record-EntryValid codec raw label now) v)
    ]
  ]
