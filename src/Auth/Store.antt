-- ===== src/Auth/Store.antt =====
-- store.go: one function for each method of Store, over the fields that the mutex guards. A reading
-- of the clock is an argument; a channel is its number, and `closed` has the channels that were
-- closed, a channel that is closed twice standing there twice.
pub mod Records
pub mod Matching
pub mod Channels
pub mod Invariant
pub mod Preserved
pub mod Access
pub mod Open
pub mod Opened
pub mod Durable
pub mod Calls
pub mod Revocation
use openwrt_wattline.Common.{
  ℕ, ◌+◌, Bool, true, false, not, ◌||◌, Option, none, some, List, [], ◌∷◌, ◌++◌, ◌==◌, nat_eq,
  bool_eq, if◌then◌else◌, take,
}
use openwrt_wattline.Common.Bytes.{Bytes, bytes_eq, ascii}
use openwrt_wattline.Common.Clock.{Time, is_zero, before, since, hour}
use openwrt_wattline.Common.Dict.{Dict, find, insert, erase}
use openwrt_wattline.Common.Int.{pos, leb_ℤ}
use openwrt_wattline.Common.Result.{Result, ok, err}
use openwrt_wattline.Common.Sort.{sort_by}
use openwrt_wattline.Auth.Files.{FileSystem, PersistResult, failed, save}
use openwrt_wattline.Auth.Tokens.{
  admin, client, Principal, TokenMeta, TokenRecord, StoreError, Codec, bootstrap_id, hash_secret,
  hex_encode, valid_label, validate_unique_hashes, id_before, bootstrap_token, token_not_found,
  invalid_label, duplicate_id, generate_failed, encode_failed,
}

pub record Store (W : Type 0) : Type 0 where
  pub world : W
  pub records : Dict Bytes TokenRecord
  pub subscribers : Dict Bytes (List ℕ)
  pub next_channel : ℕ
  pub closed : List ℕ
  pub invalidated : Bool
  pub last_seen_persisted_at : Time
  pub last_error : Option StoreError

-- the loop of Authenticate: the last record with the hash, with its key
unfoldable pub matching : Bytes → Dict Bytes TokenRecord → Option (Bytes × TokenRecord)
matching hash [] = none
matching hash ((id, r) ∷ records) = elim (matching hash records) [
  | some found ↦ some found
  | none ↦ if hash == r.hash then some (id, r) else none
]

-- the records of `disk`, in the order of the map
unfoldable pub disk_records : Bool → Dict Bytes TokenRecord → List TokenRecord
disk_records flush [] = []
disk_records flush ((id, r) ∷ records) =
    (record r {
      meta = record r.meta {
        last_seen_at = if flush then r.meta.last_seen_at else r.persisted_last_seen;
      };
      persisted_last_seen = none;
    })
    ∷ disk_records flush records

unfoldable pub disk_before : TokenRecord → TokenRecord → Bool
disk_before a b =
    if not (a.meta.bootstrap == b.meta.bootstrap)
    then a.meta.bootstrap
    else id_before a.meta.id b.meta.id

-- the times that Authenticate puts in
unfoldable pub seen_at : Time → TokenMeta → Time
seen_at now m =
    let t = if before now m.created_at then m.created_at else now in
    elim m.last_seen_at [ none ↦ t | some seen ↦ if before t seen then seen else t ]

-- record.PersistedLastSeen = copyTime(record.LastSeenAt), for all records
unfoldable pub mark_persisted : Dict Bytes TokenRecord → Dict Bytes TokenRecord
mark_persisted [] = []
mark_persisted ((id, r) ∷ records) =
    (id, record r { persisted_last_seen = r.meta.last_seen_at }) ∷ mark_persisted records

abbrev pub principal_of : TokenRecord → Principal
principal_of r = record { token_id = r.meta.id; role = if r.meta.bootstrap then admin else client }

abbrev pub channels_of : Option (List ℕ) → List ℕ
channels_of none = []
channels_of (some cs) = cs

unfoldable pub remove_channel : ℕ → List ℕ → List ℕ
remove_channel c [] = []
remove_channel c (d ∷ cs) = let rest = remove_channel c cs in if d == c then rest else d ∷ rest

-- the channels that are left to a token, which is deleted where there are none
unfoldable pub keep_channels : Bytes → List ℕ → Dict Bytes (List ℕ) → Dict Bytes (List ℕ)
keep_channels id [] m = erase id m
keep_channels id (c ∷ cs) m = insert id (c ∷ cs) m

unfoldable pub all_channels : Dict Bytes (List ℕ) → List ℕ
all_channels [] = []
all_channels ((id, cs) ∷ m) = cs ++ all_channels m

-- List's order
unfoldable pub listed_before : TokenMeta → TokenMeta → Bool
listed_before a b =
    if not (a.bootstrap == b.bootstrap)
    then a.bootstrap
    else if not (a.created_at == b.created_at)
    then before a.created_at b.created_at
    else id_before a.id b.id

unfoldable pub metas_of : Dict Bytes TokenRecord → List TokenMeta
metas_of [] = []
metas_of ((id, r) ∷ records) = r.meta ∷ metas_of records

-- the record that Issue makes from 32 random bytes
unfoldable pub new_secret : Bytes → Bytes
new_secret raw = ascii "wlt_" ++ hex_encode raw

unfoldable pub new_record : Codec → Bytes → Bytes → Time → TokenRecord
new_record codec raw label now = record {
  meta = record {
    id = take 16 (hex_encode raw);
    label = label;
    created_at = now;
    last_seen_at = none;
    bootstrap = false;
  };
  hash = hash_secret codec (new_secret raw);
  persisted_last_seen = none;
}

module _ {W : Type 0} where
  -- List
  unfoldable pub list : Store W → List TokenMeta
  list s = sort_by listed_before (metas_of s.records)

  -- notifyRevokedLocked
  unfoldable pub notify_revoked : Bytes → Store W → Store W
  notify_revoked id s = record s {
    closed = s.closed ++ channels_of (find id s.subscribers);
    subscribers = erase id s.subscribers;
  }

  -- SubscribeRevocation: the channel, nil for the bootstrap token, and whether the token is active
  unfoldable pub subscribe_revocation : Bytes → Store W → Store W × Option ℕ × Bool
  subscribe_revocation id s =
      if id == bootstrap_id
      then (s, none, true)
      else if s.invalidated
      then (s, none, false)
      else elim (find id s.records) [
        | none ↦ (s, none, false)
        | some r ↦ if r.meta.bootstrap then (s, none, false) else (
          record s {
            subscribers =
                insert id (channels_of (find id s.subscribers) ++ s.next_channel ∷ [])
                  s.subscribers;
            next_channel = s.next_channel + 1;
          },
          some s.next_channel,
          true,
        )
      ]

  -- the cancel function of a subscription
  unfoldable pub cancel_subscription : Bytes → ℕ → Store W → Store W
  cancel_subscription id c s = elim (find id s.subscribers) [
    | none ↦ s
    | some cs ↦ record s { subscribers = keep_channels id (remove_channel c cs) s.subscribers }
  ]

  -- InvalidateManagedSubscribers
  unfoldable pub invalidate_managed_subscribers : Store W → Store W
  invalidate_managed_subscribers s = record s {
    invalidated = true;
    closed = s.closed ++ all_channels s.subscribers;
    subscribers = [];
  }

module _ {W F D : Type 0} (codec : Codec) (fs : FileSystem W F D) where
  -- persistLocked: the encoded file has a newline behind it
  unfoldable pub persist : Bool → Store W → Store W × PersistResult
  persist flush s = elim (codec.encode (sort_by disk_before (disk_records flush s.records))) [
    | none ↦ (s, failed encode_failed)
    | some raw ↦
        let (w, result) = save fs (raw ++ b'\n' ∷ []) s.world in (record s { world = w }, result)
  ]

  -- Authenticate where a record matched, on the last-seen time
  unfoldable pub flush_last_seen : Time → Store W → Store W
  flush_last_seen now s =
      let (t, result) = persist true s in
      let u : Store W = record t { last_error = result.error } in
      if is_zero s.last_seen_persisted_at || leb_ℤ (pos hour) (since now s.last_seen_persisted_at)
      then (if result.committed
          then record u { last_seen_persisted_at = now; records = mark_persisted u.records }
          else u)
      else s

  unfoldable pub authenticate : Bytes → Time → Store W → Store W × Option Principal
  authenticate secret now s = elim (matching (hash_secret codec secret) s.records) [
    | none ↦ (s, none)
    | some (id, r) ↦
        let seen = seen_at now r.meta in
        let r' : TokenRecord = record r { meta = record r.meta { last_seen_at = some seen } } in
        (
          flush_last_seen seen (record s { records = insert id r' s.records }),
          some (principal_of r),
        )
  ]

  -- Issue from the check of the ID on, with the secret and the new record
  unfoldable pub add_record :
      Bytes → TokenRecord → Store W → Store W × Result StoreError (Bytes × TokenMeta)
  add_record secret r s =
      let id = r.meta.id in
      let added : Store W = record s { records = insert id r s.records } in
      let (t, result) = persist false added in
      let u : Store W = record t { last_error = result.error } in
      if elim (find id s.records) [ none ↦ false | some old ↦ true ]
      then (s, err duplicate_id)
      else elim (validate_unique_hashes added.records) [
        | some e ↦ (record added { records = erase id added.records }, err e)
        | none ↦ elim result.error [
          | none ↦ (u, ok (secret, r.meta))
          | some e ↦
              if not result.committed
              then (record u { records = erase id u.records }, err e)
              else (u, ok (secret, r.meta))
        ]
      ]

  -- `read_full n` is io.ReadFull on the random source for n bytes
  unfoldable pub issue :
      (ℕ → W → W × Option Bytes)
      → Bytes
      → Time
      → Store W
      → Store W × Result StoreError (Bytes × TokenMeta)
  issue read_full label now s =
      if not (valid_label codec label)
      then (s, err invalid_label)
      else let (w, drawn) = read_full 32 s.world in
        let t : Store W = record s { world = w } in
        elim drawn [
          | none ↦ (t, err generate_failed)
          | some raw ↦ add_record (new_secret raw) (new_record codec raw label now) t
        ]

  unfoldable pub revoke : Bytes → Store W → Store W × Option StoreError
  revoke id s =
      let (t, result) = persist false (record s { records = erase id s.records }) in
      let u : Store W = record t { last_error = result.error } in
      if id == bootstrap_id then (s, some bootstrap_token) else elim (find id s.records) [
        | none ↦ (s, some token_not_found)
        | some r ↦ if r.meta.bootstrap then (s, some token_not_found) else elim result.error [
          | none ↦ (notify_revoked id u, none)
          | some e ↦
              if not result.committed
              then (record u { records = insert id r u.records }, some e)
              else (notify_revoked id u, none)
        ]
      ]
