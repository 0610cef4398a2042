-- ===== src/Auth/Store/Opened.antt =====
-- The store that OpenStore returns.
use openwrt_wattline.Common.{
  true, false, not, ◌||◌, ◌==◌, nat_eq, bool_eq, none, some, List, [], ◌∷◌, All, ◌≡◌, refl, sym,
  subst, arith, Bool-cases, Option-cases, inl, inr, ◌⊎◌,
}
use openwrt_wattline.Common.Bytes.{Bytes, bytes_eq, equal, equal_iff}
use openwrt_wattline.Common.Clock.{Time}
use openwrt_wattline.Common.Dict.{Dict, find, insert, find-insert}
use openwrt_wattline.Common.Distinct.{IsDistinct, keys_of, insert-IsDistinct}
use openwrt_wattline.Common.Result.{ok, Result-cases}
use openwrt_wattline.Auth.Files.{FileSystem, FileRead, contents, not_exist, unreadable}
use openwrt_wattline.Auth.Tokens.{
  Codec, TokenRecord, bootstrap_id, bootstrap_label, hash_secret, validate_record,
  validate_identity, validate_unique_hashes,
}
use openwrt_wattline.Auth.Store.{all_channels, Store}
use openwrt_wattline.Auth.Store.Matching.{All-find, All-insert, validate_unique_hashes-IsDistinct}
use openwrt_wattline.Auth.Store.Records.{EntryValid}
use openwrt_wattline.Auth.Store.Invariant.{IsValid}
use openwrt_wattline.Auth.Store.Preserved.{persist_frame}
use openwrt_wattline.Auth.Store.Open.{
  Loaded, nothing, later, load_tokens, ensure_bootstrap, check_hashes, new_store, read_tokens,
  first_persist, open_store,
}

-- Behind the loop: what the checks of each record have established.
abbrev LoadedValid : Loaded → Type 0
LoadedValid l = IsDistinct (keys_of l.records) × All EntryValid l.records

-- Behind the bootstrap record: it is there, with the hash of the bootstrap token.
abbrev pub HasAdmin : Bytes → Dict Bytes TokenRecord → Type 0
HasAdmin hash m = (r : TokenRecord) × (find bootstrap_id m ≡ some r) × (r.hash ≡ hash)

validate_record-bootstrap :
    (codec : Codec) (r : TokenRecord)
    → validate_record codec r ≡ none
    → r.meta.bootstrap ≡ (r.meta.id == bootstrap_id)
unfolding validate_record validate_identity
validate_record-bootstrap codec r h = ground arith

load_tokens-LoadedValid :
    (codec : Codec) (hashes : Dict Bytes Bytes) (tokens : List TokenRecord) (l l' : Loaded)
    → load_tokens codec hashes tokens l ≡ ok l'
    → LoadedValid l
    → LoadedValid l'
unfolding load_tokens
load_tokens-LoadedValid codec hashes [] l l' h v =
    let same : l ≡ l' = ground arith in subst LoadedValid same v
load_tokens-LoadedValid codec hashes (r ∷ tokens) l l' h v =
    let id = r.meta.id in
    let r' : TokenRecord = record r { persisted_last_seen = r.meta.last_seen_at } in
    let m : Loaded = record l {
      records = insert id r' l.records;
      last_seen = later r.meta.last_seen_at l.last_seen;
    } in
    let good : validate_record codec r ≡ none = ground (arith, h) in
    let rest : load_tokens codec (insert r.hash id hashes) tokens m ≡ ok l' = ground (arith, h) in
    load_tokens-LoadedValid codec (insert r.hash id hashes) tokens m l' rest (
      insert-IsDistinct id r' l.records v.0,
      All-insert EntryValid id r' l.records (refl, validate_record-bootstrap codec r good) v.1,
    )

abbrev Settled : Bytes → Loaded → Type 0
Settled hash l = LoadedValid l × HasAdmin hash l.records

put_admin :
    (hash : Bytes) (l : Loaded) (r : TokenRecord)
    → LoadedValid l
    → EntryValid (bootstrap_id, r)
    → r.hash ≡ hash
    → Settled hash (record l { records = insert bootstrap_id r l.records; changed = true })
put_admin hash l r v e h = (
  (
    insert-IsDistinct bootstrap_id r l.records v.0,
    All-insert EntryValid bootstrap_id r l.records e v.1,
  ),
  (
    r,
    ground (
      arith,
      find-insert bootstrap_id bootstrap_id r l.records,
      equal_iff bootstrap_id bootstrap_id,
    ),
    h,
  ),
)

ensure_bootstrap-LoadedValid :
    (hash : Bytes) (now : Time) (l l' : Loaded)
    → ensure_bootstrap hash now l ≡ ok l'
    → LoadedValid l
    → Settled hash l'
unfolding ensure_bootstrap equal
ensure_bootstrap-LoadedValid hash now l l' h v = elim (Option-cases (find bootstrap_id l.records)) [
  | inl f ↦
      let r : TokenRecord = record {
        meta = record {
          id = bootstrap_id;
          label = bootstrap_label;
          created_at = now;
          last_seen_at = none;
          bootstrap = true;
        };
        hash = hash;
        persisted_last_seen = none;
      } in
      let same : record l { records = insert bootstrap_id r l.records; changed = true } ≡ l' =
        ground (arith, h, f) in
      subst (Settled hash) same (put_admin hash l r v (refl, refl) refl)
  | inr (r, f) ↦
      let e = All-find EntryValid bootstrap_id r l.records f v.1 in
      elim (Bool-cases (not (equal r.hash hash) || not (equal r.meta.label bootstrap_label))) [
        | inl b ↦
            let r' : TokenRecord = record r {
              hash = hash;
              meta = record r.meta { label = bootstrap_label };
            } in
            let same : record l { records = insert bootstrap_id r' l.records; changed = true }
                ≡ l' =
              ground (arith, h, f, b) in
            subst (Settled hash) same (put_admin hash l r' v e refl)
        | inr b ↦
            let same : l ≡ l' = ground (arith, h, f, b) in
            subst (Settled hash) same (v, (r, f, ground (arith, b, equal_iff r.hash hash)))
      ]
]

FileRead-cases :
    (f : FileRead) → (f ≡ not_exist) ⊎ ((f ≡ unreadable) ⊎ ((raw : Bytes) × (f ≡ contents raw)))
FileRead-cases not_exist = inl refl
FileRead-cases unreadable = inr (inl refl)
FileRead-cases (contents raw) = inr (inr (raw, refl))

read_tokens-LoadedValid :
    {W F D : Type 0} (codec : Codec) (fs : FileSystem W F D) (w : W) (l : Loaded)
    → (read_tokens codec fs w).1 ≡ ok l
    → LoadedValid l
unfolding read_tokens
read_tokens-LoadedValid codec fs w l h = elim (FileRead-cases (fs.read_file w).1) [
  | inl f ↦
      let same : record nothing { changed = true } ≡ l = ground (arith, h, f) in
      subst LoadedValid same (tt, tt)
  | inr (inl f) ↦ absurd (ground (arith, h, f))
  | inr (inr (raw, f)) ↦ elim (Option-cases (codec.decode raw)) [
    | inl d ↦ absurd (ground (arith, h, f, d))
    | inr (tokens, d) ↦ elim (Result-cases (load_tokens codec [] tokens nothing)) [
      | inr (x, k) ↦ absurd (ground (arith, h, f, d, k))
      | inl (l1, k) ↦ elim (Option-cases (fs.stat (fs.read_file w).0).1) [
        | inl m ↦ absurd (ground (arith, h, f, d, k, m))
        | inr (mode, m) ↦
            let same : record l1 { changed = not (mode == 0o600) } ≡ l =
              ground (arith, h, f, d, k, m) in
            subst LoadedValid same (load_tokens-LoadedValid codec [] tokens nothing l1 k (tt, tt))
      ]
    ]
  ]
]

check_hashes_ok :
    (l l' : Loaded) → check_hashes l ≡ ok l' → (validate_unique_hashes l.records ≡ none) × (l ≡ l')
unfolding check_hashes
check_hashes_ok l l' h = (ground (arith, h), ground (arith, h))

first_persist_ok :
    {W F D : Type 0} (codec : Codec) (fs : FileSystem W F D) (w : W) (l : Loaded) (s : Store W)
    → (first_persist codec fs w l).1 ≡ ok s
    → s ≡ new_store s.world l
unfolding first_persist
first_persist_ok codec fs w l s h = ground (arith, h, persist_frame codec fs false (new_store w l))

new_store-IsValid :
    {W : Type 0} (hash : Bytes) (w : W) (l : Loaded)
    → Settled hash l
    → validate_unique_hashes l.records ≡ none
    → IsValid (new_store w l) × HasAdmin hash l.records
unfolding all_channels
new_store-IsValid hash w l v u = (
  record {
    tokens = record {
      keys = v.0.0;
      hashes = validate_unique_hashes-IsDistinct l.records u;
      entries = v.0.1;
      bootstrap = ground (arith, v.1.1);
    };
    channels = record { owners = tt; once = tt; made = tt };
    owned = tt;
    quiet = tt;
  },
  v.1,
)

-- A store that OpenStore returns, whatever file it read, is well formed, and its bootstrap record is
-- an administrator's, with the hash of the bootstrap token that was given.
pub open_store-IsValid :
    {W F D : Type 0} (codec : Codec) (fs : FileSystem W F D) (path bootstrap : Bytes) (now : Time)
    (w : W) (s : Store W)
    → (open_store codec fs path bootstrap now w).1 ≡ ok s
    → IsValid s × HasAdmin (hash_secret codec bootstrap) s.records
unfolding open_store
open_store-IsValid {W = W} codec fs path bootstrap now w s h =
    let hash = hash_secret codec bootstrap in
    let w1 = (read_tokens codec fs w).0 in
    elim (Result-cases (read_tokens codec fs w).1) [
      | inr (x, r) ↦ absurd (ground (arith, h, r))
      | inl (l, r) ↦ elim (Result-cases (ensure_bootstrap hash now l)) [
        | inr (x, b) ↦ absurd (ground (arith, h, r, b))
        | inl (l1, b) ↦ elim (Result-cases (check_hashes l1)) [
          | inr (x, c) ↦ absurd (ground (arith, h, r, b, c))
          | inl (l2, c) ↦
              let settled =
                ensure_bootstrap-LoadedValid hash now l l1 b
                  (read_tokens-LoadedValid codec fs w l r) in
              let kept = check_hashes_ok l1 l2 c in
              let first : (first_persist codec fs w1 l2).1 ≡ ok s = ground (arith, h, r, b, c) in
              let made = first_persist_ok codec fs w1 l2 s first in
              subst (λ (x : Store W). IsValid x × HasAdmin hash x.records) (sym made)
                (new_store-IsValid hash s.world l2 (subst (Settled hash) kept.1 settled)
                  (subst (λ (x : Loaded). validate_unique_hashes x.records ≡ none) kept.1 kept.0))
        ]
      ]
    ]
