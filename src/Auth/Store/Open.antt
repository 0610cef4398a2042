-- ===== src/Auth/Store/Open.antt =====
-- OpenStore: the file that is read, the bootstrap record that is put in, and the new store.
use openwrt_wattline.Common.{
  Bool, true, false, not, ◌||◌, ◌==◌, nat_eq, if◌then◌else◌, Option, none, some, List, [], ◌∷◌,
}
use openwrt_wattline.Common.Bytes.{Bytes, bytes_eq}
use openwrt_wattline.Common.Clock.{Time, zero_time, before}
use openwrt_wattline.Common.Dict.{Dict, find, insert}
use openwrt_wattline.Common.Result.{Result, ok, err, ◌>>=◌}
use openwrt_wattline.Auth.Files.{FileSystem, contents, not_exist, unreadable}
use openwrt_wattline.Auth.Tokens.{
  Codec, TokenRecord, StoreError, bootstrap_id, bootstrap_label, hash_secret, validate_record,
  validate_unique_hashes, duplicate_id, duplicate_hash, empty_path, empty_bootstrap, read_failed,
  decode_failed, stat_failed, managed_bootstrap,
}
use openwrt_wattline.Auth.Store.{Store, persist}

-- The variables of OpenStore: the records, `lastSeenPersistedAt` and `changed`.
pub record Loaded : Type 0 where
  pub records : Dict Bytes TokenRecord
  pub last_seen : Time
  pub changed : Bool

abbrev pub nothing : Loaded
nothing = record { records = []; last_seen = zero_time; changed = false }

unfoldable pub later : Option Time → Time → Time
later none t = t
later (some seen) t = if before t seen then seen else t

-- the loop over `disk.Tokens`, with `hashes` from hashes to IDs
unfoldable pub load_tokens :
    Codec → Dict Bytes Bytes → List TokenRecord → Loaded → Result StoreError Loaded
load_tokens codec hashes [] l = ok l
load_tokens codec hashes (r ∷ tokens) l =
    let id = r.meta.id in
    let r' : TokenRecord = record r { persisted_last_seen = r.meta.last_seen_at } in
    let rest = load_tokens codec (insert r.hash id hashes) tokens (record l {
      records = insert id r' l.records;
      last_seen = later r.meta.last_seen_at l.last_seen;
    }) in
    elim (validate_record codec r) [
      | some e ↦ err e
      | none ↦ elim (find id l.records) [
        | some old ↦ err duplicate_id
        | none ↦ elim (find r.hash hashes) [
          | some existing ↦ err (duplicate_hash existing id)
          | none ↦ rest
        ]
      ]
    ]

-- the bootstrap record, by its new hash
unfoldable pub ensure_bootstrap : Bytes → Time → Loaded → Result StoreError Loaded
ensure_bootstrap hash now l = elim (find bootstrap_id l.records) [
  | some r ↦
      let renewed : TokenRecord = record r {
        hash = hash;
        meta = record r.meta { label = bootstrap_label };
      } in
      if not r.meta.bootstrap
      then err managed_bootstrap
      else if not (r.hash == hash) || not (r.meta.label == bootstrap_label)
      then ok (record l { records = insert bootstrap_id renewed l.records; changed = true })
      else ok l
  | none ↦
      let made : TokenRecord = record {
        meta = record {
          id = bootstrap_id;
          label = bootstrap_label;
          created_at = now;
          last_seen_at = none;
          bootstrap = true;
        };
        hash = hash;
        persisted_last_seen = none;
      } in
      ok (record l { records = insert bootstrap_id made l.records; changed = true })
]

unfoldable pub check_hashes : Loaded → Result StoreError Loaded
check_hashes l = elim (validate_unique_hashes l.records) [ some e ↦ err e | none ↦ ok l ]

abbrev pub new_store : {W : Type 0} → W → Loaded → Store W
new_store w l = record {
  world = w;
  records = l.records;
  subscribers = [];
  next_channel = 0;
  closed = [];
  invalidated = false;
  last_seen_persisted_at = l.last_seen;
  last_error = none;
}

module _ {W F D : Type 0} (codec : Codec) (fs : FileSystem W F D) where
  -- the switch on the error of ReadFile. One error stands for all that the JSON decoder and the
  -- tests of its result refuse.
  unfoldable pub read_tokens : W → W × Result StoreError Loaded
  read_tokens w =
      let (w1, file) = fs.read_file w in
      let (w2, mode) = fs.stat w1 in
      elim file [
        | not_exist ↦ (w1, ok (record nothing { changed = true }))
        | unreadable ↦ (w1, err read_failed)
        | contents raw ↦ elim (codec.decode raw) [
          | none ↦ (w1, err decode_failed)
          | some tokens ↦ elim (load_tokens codec [] tokens nothing) [
            | err e ↦ (w1, err e)
            | ok l ↦ elim mode [
              | none ↦ (w2, err stat_failed)
              | some m ↦ (w2, ok (record l { changed = not (m == 0o600) }))
            ]
          ]
        ]
      ]

  -- the store, which is written where something changed
  unfoldable pub first_persist : W → Loaded → W × Result StoreError (Store W)
  first_persist w l =
      let s : Store W = new_store w l in
      let (t, result) = persist codec fs false s in
      if l.changed
      then elim result.error [ some e ↦ (t.world, err e) | none ↦ (t.world, ok t) ]
      else (w, ok s)

  unfoldable pub open_store : Bytes → Bytes → Time → W → W × Result StoreError (Store W)
  open_store path bootstrap now w =
      let (w1, loaded) = read_tokens w in
      let checked =
        loaded >>= (λ l. ensure_bootstrap (hash_secret codec bootstrap) now l >>= check_hashes) in
      if path == []
      then (w, err empty_path)
      else if bootstrap == []
      then (w, err empty_bootstrap)
      else elim checked [ err e ↦ (w1, err e) | ok l ↦ first_persist w1 l ]
