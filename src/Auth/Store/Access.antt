-- ===== src/Auth/Store/Access.antt =====
-- Who is let in by the store: the principal of each hash, and how the calls change it.
use openwrt_wattline.Common.{
  false, ◌==◌, nat_eq, bool_eq, if◌then◌else◌, Option, none, some, [], ◌∷◌, ◌≡◌, refl, ◌∙◌, sym,
  subst, arith, Bool-cases, Option-cases, inl, inr, ap, ◌↔◌, ◌⊎◌,
}
use openwrt_wattline.Common.Bytes.{Bytes, bytes_eq, equal, equal_iff}
use openwrt_wattline.Common.Dict.{Dict, find, insert, erase, find-erase}
use openwrt_wattline.Common.Distinct.{IsDistinct, keys_of, count, find-none, erase-none}
use openwrt_wattline.Auth.Tokens.{Principal, TokenRecord}
use openwrt_wattline.Auth.Store.{
  matching, principal_of, mark_persisted, Codec, FileSystem, Store, Time, authenticate,
  flush_last_seen, issue, StoreError, hash_secret, true, ℕ, client, revoke, seen_at, Bool,
  valid_label, TokenMeta, add_record, new_record, notify_revoked, new_secret, admin,
}
use openwrt_wattline.Auth.Store.Invariant.{IsValid}
use openwrt_wattline.Auth.Store.Records.{EntryValid, RecordsValid}
use openwrt_wattline.Common.Result.{Result, ok, err}
use openwrt_wattline.Auth.Store.Preserved.{persist_frame, add_record_cases, revoke_cases}
use openwrt_wattline.Auth.Store.Matching.{All-find, matching_found}
use openwrt_wattline.Auth.Store.Matching.{
  matching_found, matching-find, hashes_of, matching-none, count-hashes_of-erase,
}

abbrev principal : Option (Bytes × TokenRecord) → Option Principal
principal none = none
principal (some (id, r)) = some (principal_of r)

-- The principal behind a hash.
abbrev pub grants : Dict Bytes TokenRecord → Bytes → Option Principal
grants m hash = principal (matching hash m)

matching-insert :
    (h k : Bytes) (r : TokenRecord) (m : Dict Bytes TokenRecord)
    → find k m ≡ none
    → matching h (insert k r m) ≡ (if h == r.hash then some (k, r) else matching h m)
unfolding matching insert find
matching-insert h k r [] f = refl
matching-insert h k r ((i, w) ∷ m) f = ground (arith, f, matching-insert h k r m)

matching-erase :
    (h k : Bytes) (r : TokenRecord) (m : Dict Bytes TokenRecord)
    → IsDistinct (keys_of m)
    → IsDistinct (hashes_of m)
    → find k m ≡ some r
    → matching h (erase k m) ≡ (if h == r.hash then none else matching h m)
unfolding matching erase find
matching-erase h k r [] d u f = absurd (ground arith)
matching-erase h k r ((i, w) ∷ m) d u f = elim (Bool-cases (equal i k)) [
  | inl t ↦
      let gone : erase k m ≡ m = erase-none k m (
        find-none k m (subst (λ (x : Bytes). count x (keys_of m) ≡ 0) ((equal_iff i k).0 t) d.0)) in
      ground (arith, t, f, gone, equal_iff h w.hash, matching-none w.hash m u.0)
  | inr t ↦
      let there : find k m ≡ some r = ground (arith, f, t) in
      let other : equal r.hash w.hash ≡ false = ground (
        arith,
        equal_iff r.hash w.hash,
        equal_iff r.hash r.hash,
        u.0,
        count-hashes_of-erase r.hash k r m d.1 there,
      ) in
      ground (arith, t, other, equal_iff h r.hash, matching-erase h k r m d.1 u.1 there)
]

abbrev or_else : Bool → Principal → Option Principal → Option Principal
or_else b p (some q) = some q
or_else b p none = if b then some p else none

grants_cons :
    (h i : Bytes) (w : TokenRecord) (m : Dict Bytes TokenRecord)
    → grants ((i, w) ∷ m) h ≡ or_else (h == w.hash) (principal_of w) (grants m h)
unfolding matching
grants_cons h i w m = ground arith

grants-replace :
    (h k : Bytes) (r r' : TokenRecord) (m : Dict Bytes TokenRecord)
    → find k m ≡ some r
    → r'.hash ≡ r.hash
    → principal_of r' ≡ principal_of r
    → grants (insert k r' m) h ≡ grants m h
unfolding matching insert find
grants-replace h k r r' [] f e p = ground arith
grants-replace h k r r' ((i, w) ∷ m) f e p = elim (Bool-cases (equal i k)) [
  | inl t ↦
      let found : w ≡ r = ground (arith, t, f) in
      let hash : r'.hash ≡ w.hash = ground (arith, e, found) in
      let same : principal_of r' ≡ principal_of w = p ∙ ap principal_of (sym found) in
      rw t (
        grants_cons h i r' m
        ∙ ap (λ (x : Bytes). or_else (h == x) (principal_of r') (grants m h)) hash
        ∙ ap (λ (x : Principal). or_else (h == w.hash) x (grants m h)) same
        ∙ sym (grants_cons h i w m))
  | inr t ↦ rw t (
      grants_cons h i w (insert k r' m)
      ∙ rw (grants-replace h k r r' m (ground (arith, f, t)) e p) (sym (grants_cons h i w m)))
]

grants-mark_persisted :
    (h : Bytes) (m : Dict Bytes TokenRecord) → grants (mark_persisted m) h ≡ grants m h
unfolding matching mark_persisted
grants-mark_persisted h [] = refl
grants-mark_persisted h ((i, w) ∷ m) = ground (arith, grants-mark_persisted h m)

grants-insert :
    (h k : Bytes) (r : TokenRecord) (m : Dict Bytes TokenRecord)
    → find k m ≡ none
    → grants (insert k r m) h ≡ (if h == r.hash then some (principal_of r) else grants m h)
grants-insert h k r m f = ap principal (matching-insert h k r m f) ∙ ground arith

grants-erase :
    (h k : Bytes) (r : TokenRecord) (m : Dict Bytes TokenRecord)
    → RecordsValid m
    → find k m ≡ some r
    → grants (erase k m) h ≡ (if h == r.hash then none else grants m h)
grants-erase h k r m v f = ap principal (matching-erase h k r m v.keys v.hashes f) ∙ ground arith

grants-restore :
    (h k : Bytes) (r : TokenRecord) (m : Dict Bytes TokenRecord)
    → RecordsValid m
    → find k m ≡ some r
    → grants (insert k r (erase k m)) h ≡ grants m h
grants-restore h k r m v f =
    let gone : find k (erase k m) ≡ none = ground (arith, find-erase k k m, equal_iff k k) in
    ap principal (matching-insert h k r (erase k m) gone)
    ∙ ground (
      arith,
      equal_iff h r.hash,
      matching-find k r m v.hashes f,
      matching-erase h k r m v.keys v.hashes f,
    )

module _ {W F D : Type 0} (codec : Codec) (fs : FileSystem W F D) where
  grants-flush_last_seen :
      (h : Bytes) (now : Time) (s : Store W)
      → grants (flush_last_seen codec fs now s).records h ≡ grants s.records h
  unfolding flush_last_seen
  grants-flush_last_seen h now s =
      ground (arith, persist_frame codec fs true s, grants-mark_persisted h s.records)

  -- Authenticate returns the principal of the secret's hash, and changes no hash's principal.
  pub authenticate-grants :
      (secret : Bytes) (now : Time) (s : Store W)
      → IsValid s
      → ((authenticate codec fs secret now s).1 ≡ grants s.records (hash_secret codec secret))
        × ((h : Bytes)
            → grants (authenticate codec fs secret now s).0.records h ≡ grants s.records h)
  unfolding authenticate
  authenticate-grants secret now s v =
      elim (Option-cases (matching (hash_secret codec secret) s.records)) [
        | inl e ↦ (ground (arith, e), λ h. ground (arith, e))
        | inr ((id, r), e) ↦
            let seen = seen_at now r.meta in
            let r' : TokenRecord = record r { meta = record r.meta { last_seen_at = some seen } } in
            let t : Store W = record s { records = insert id r' s.records } in
            let found =
              (matching_found (hash_secret codec secret) id r s.records v.tokens.keys e).0 in
            (
              ground (arith, e),
              λ h.
                  let same : (authenticate codec fs secret now s).0
                      ≡ flush_last_seen codec fs seen t =
                    ground (arith, e) in
                  ap (λ (x : Store W). grants x.records h) same
                  ∙ (grants-flush_last_seen h seen t
                      ∙ grants-replace h id r r' s.records found refl refl),
            )
      ]

  -- A secret is let in exactly where a record has its hash, as the principal of that record.
  pub authenticate_iff :
      (secret : Bytes) (now : Time) (s : Store W) (p : Principal)
      → IsValid s
      → ((authenticate codec fs secret now s).1 ≡ some p) ↔ (
          (r : TokenRecord) × (find p.token_id s.records ≡ some r)
          × (r.hash ≡ hash_secret codec secret)
          × (p ≡ principal_of r))
  unfolding authenticate
  authenticate_iff secret now s p v =
      let hash = hash_secret codec secret in
      (
        λ e. elim (Option-cases (matching hash s.records)) [
          | inl n ↦ absurd (ground (arith, e, n))
          | inr ((id, r), n) ↦
              let found = matching_found hash id r s.records v.tokens.keys n in
              let same : p ≡ principal_of r = ground (arith, e, n) in
              let name = (All-find EntryValid id r s.records found.0 v.tokens.entries).0 in
              (r, ground (arith, same, name, found.0), found.1, same)
        ],
        λ e.
            let found : matching hash s.records ≡ some (p.token_id, e.0) =
              subst (λ (x : Bytes). matching x s.records ≡ some (p.token_id, e.0)) e.2
                (matching-find p.token_id e.0 s.records v.tokens.hashes e.1) in
            (authenticate-grants secret now s v).0 ∙ ap principal found ∙ ap some (sym e.3),
      )

  -- The principal of a hash behind a call of Issue.
  abbrev pub GrantsIssued :
      Dict Bytes TokenRecord → Bytes → Store W × Result StoreError (Bytes × TokenMeta) → Type 0
  GrantsIssued m h (s, err e) = grants s.records h ≡ grants m h
  GrantsIssued m h (s, ok (secret, meta)) = grants s.records h ≡ (
      if h == hash_secret codec secret
      then some (record { token_id = meta.id; role = client })
      else grants m h)

  add_record-grants :
      (secret : Bytes) (r : TokenRecord) (s : Store W) (h : Bytes)
      → r.hash ≡ hash_secret codec secret
      → r.meta.bootstrap ≡ false
      → GrantsIssued s.records h (add_record codec fs secret r s)
  add_record-grants secret r s h e b = elim (add_record_cases codec fs secret r s) [
    | inl (x, w, l, same) ↦ subst (GrantsIssued s.records h) (sym same) refl
    | inr (w, l, f, u, same) ↦ subst (GrantsIssued s.records h) (sym same) (
        grants-insert h r.meta.id r s.records f
        ∙ ap (λ (x : Bytes). if h == x then some (principal_of r) else grants s.records h) e
        ∙ ap
            (λ (c : Bool).
              if h == hash_secret codec secret
              then some (record { token_id = r.meta.id; role = if c then admin else client })
              else grants s.records h)
            b)
  ]

  -- What Issue does to who is let in: nothing where it fails; where it returns a secret, that
  -- secret is let in as a client with the new ID, and every other hash as before.
  pub issue-grants :
      (read_full : ℕ → W → W × Option Bytes) (label : Bytes) (now : Time) (s : Store W) (h : Bytes)
      → GrantsIssued s.records h (issue codec fs read_full label now s)
  unfolding issue new_record
  issue-grants read_full label now s h = elim (Bool-cases (valid_label codec label)) [
    | inr b ↦ ground (arith, b)
    | inl b ↦ elim (Option-cases (read_full 32 s.world).1) [
      | inl e ↦ ground (arith, b, e)
      | inr (raw, e) ↦
          let t : Store W = record s { world = (read_full 32 s.world).0 } in
          let same : issue codec fs read_full label now s
              ≡ add_record codec fs (new_secret raw) (new_record codec raw label now) t =
            ground (arith, b, e) in
          subst (GrantsIssued s.records h) (sym same)
            (add_record-grants (new_secret raw) (new_record codec raw label now) t h refl refl)
    ]
  ]

  -- What Revoke does: nothing where it fails; where it returns no error, the hash of the token is let
  -- in no more, and every other as before.
  pub revoke-grants :
      (id : Bytes) (s : Store W) (h : Bytes)
      → IsValid s
      → ((x : StoreError) × ((revoke codec fs id s).1 ≡ some x)
          × (grants (revoke codec fs id s).0.records h ≡ grants s.records h))
        ⊎ ((r : TokenRecord) × ((revoke codec fs id s).1 ≡ none)
            × (find id s.records ≡ some r)
            × (grants (revoke codec fs id s).0.records h
                ≡ (if h == r.hash then none else grants s.records h)))
  unfolding notify_revoked
  revoke-grants id s h v = elim (revoke_cases codec fs id s) [
    | inl (x, same) ↦ inl (x, ground (arith, same), ground (arith, same))
    | inr (inl (r, x, w, l, f, same)) ↦ inl (
      x,
      ground (arith, same),
      ap (λ (x : Store W × Option StoreError). grants x.0.records h) same
          ∙ grants-restore h id r s.records v.tokens f,
    )
    | inr (inr (r, w, l, f, n, same)) ↦ inr (
      r,
      ground (arith, same),
      f,
      ap (λ (x : Store W × Option StoreError). grants x.0.records h) same
          ∙ grants-erase h id r s.records v.tokens f,
    )
  ]
