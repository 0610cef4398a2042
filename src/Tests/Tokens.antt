-- ===== src/Tests/Tokens.antt =====
-- The token store over a file system of one path and one temporary file.
use openwrt_wattline.Common.Bytes.{Bytes, ascii, bytes_eq, equal}
use openwrt_wattline.Common.Sort.{place, sort_by}
use openwrt_wattline.Common.Dict.{erase, find, insert}
use openwrt_wattline.Auth.Store.Open.{
  open_store, read_tokens, ensure_bootstrap, check_hashes, first_persist,
}
use openwrt_wattline.Auth.Files.{
  FileSystem, FileRead, contents, not_exist, save, replace, fill, settle, drop_dir, drop_temp,
}
use openwrt_wattline.Auth.Store.{
  Store, authenticate, issue, revoke, subscribe_revocation, principal_of, add_record, new_record,
  new_secret, persist, disk_before, disk_records, notify_revoked,
}
use openwrt_wattline.Auth.Tokens.{
  Codec, Principal, TokenRecord, StoreError, bootstrap_id, bootstrap_label, hash_secret, admin,
  valid_label, any_control, hex_encode, validate_unique_hashes, unique_hashes, id_before,
}
use openwrt_wattline.Common.{
  ℕ, Bool, true, false, ltb, if◌then◌else◌, nat_eq, Option, none, some, List, [], ◌∷◌, ◌++◌, ◌≡◌,
  ◌↔◌, ◌⊎◌, refl, arith, replicate, is_some, ◌==◌,
}
use openwrt_wattline.Common.Clock.{zero_time}
use openwrt_wattline.Common.Distinct.{count}
use openwrt_wattline.Common.Result.{ok}
use openwrt_wattline.Auth.Files.Atomic.{IsPosix, Saves, save-Saves}
use openwrt_wattline.Auth.Store.Invariant.{IsValid}
use openwrt_wattline.Auth.Store.Access.{
  grants, GrantsIssued, authenticate_iff, issue-grants, revoke-grants,
}
use openwrt_wattline.Auth.Store.Durable.{Stored, revoke-Stored}
use openwrt_wattline.Auth.Store.Calls.{
  Reachable, opened, called, issuing, subscribing, Reachable-IsValid,
}
use openwrt_wattline.Auth.Store.Revocation.{
  Uncancelled, at_once, then_called, revoke-subscribe_revocation,
}

-- What stands at the path, and in the temporary file.
abbrev Disk : Type 0
Disk = Option Bytes × Bytes

abbrev read_path : Option Bytes → FileRead
read_path none = not_exist
read_path (some b) = contents b

abbrev ram : FileSystem Disk Bool Bool
ram = record {
  read_file = λ w. (w, read_path w.0);
  stat = λ w. (w, some 0o600);
  mkdir_all = λ mode w. (w, true);
  open_dir = λ w. (w, some true);
  create_temp = λ w. ((w.0, []), some true);
  chmod = λ f mode w. (w, true);
  write = λ f b w. ((w.0, w.1 ++ b), true);
  sync = λ f w. (w, true);
  close = λ f w. (w, true);
  rename = λ f w. ((some w.1, []), true);
  remove = λ f w. (w, true);
  sync_dir = λ d w. (w, true);
  close_dir = λ d w. (w, true);
  at_path = λ w. w.0;
  in_file = λ w f. w.1;
}

ram-IsPosix : IsPosix ram
ram-IsPosix = record {
  mkdir_path = λ m w. refl;
  open_path = λ w. refl;
  create_path = λ w. refl;
  create_empty = λ w f e. refl;
  chmod_path = λ f m w. refl;
  chmod_file = λ f m w. refl;
  write_path = λ f b w. refl;
  write_file = λ f b w e. refl;
  sync_path = λ f w. refl;
  sync_file = λ f w. refl;
  close_path = λ f w. refl;
  close_file = λ f w. refl;
  rename_done = λ f w e. refl;
  rename_failed = λ f w e. absurd (ground arith);
  remove_path = λ f w. refl;
  sync_dir_path = λ d w. refl;
  close_dir_path = λ d w. refl;
}

-- A codec whose digest is the secret itself, and whose file is the hashes.
abbrev hashes : List TokenRecord → Bytes
hashes [] = []
hashes (r ∷ rs) = r.hash ++ hashes rs

abbrev plain_codec : Codec
plain_codec = record {
  runes = λ s. some s;
  trim_space = λ s. s;
  is_control = λ c. ltb c 32;
  sha256 = λ s. s;
  encode = λ rs. some (hashes rs);
  decode = λ b. some [];
}

abbrev sevens : ℕ → Disk → Disk × Option Bytes
sevens n w = (w, some (replicate n 7))

abbrev nowhere : Disk
nowhere = (none, [])

-- The store that an empty disk gives for the bootstrap token "root".
abbrev root_record : TokenRecord
root_record = record {
  meta = record {
    id = bootstrap_id;
    label = bootstrap_label;
    created_at = 5;
    last_seen_at = none;
    bootstrap = true;
  };
  hash = ascii "726f6f74";
  persisted_last_seen = none;
}

abbrev root_store : Store Disk
root_store = record {
  world = (some (ascii "726f6f74\n"), []);
  records = (bootstrap_id, root_record) ∷ [];
  subscribers = [];
  next_channel = 0;
  closed = [];
  invalidated = false;
  last_seen_persisted_at = zero_time;
  last_error = none;
}

root_opened :
    (open_store plain_codec ram (ascii "tokens") (ascii "root") 5 nowhere).1 ≡ ok root_store
unfolding open_store equal read_tokens ensure_bootstrap find check_hashes validate_unique_hashes
    unique_hashes insert first_persist persist save replace fill settle drop_dir hash_secret
    drop_temp hex_encode sort_by disk_records place
root_opened = refl

-- A token for a phone, by the call that issues it.
abbrev phone_store : Store Disk
phone_store = (issue plain_codec ram sevens (ascii "phone") 9 root_store).0

abbrev phone_id : Bytes
phone_id = ascii "0707070707070707"

phone_reached : Reachable plain_codec ram sevens phone_store
phone_reached =
    called root_store phone_store
      (opened (ascii "tokens") (ascii "root") 5 nowhere root_store root_opened)
      (issuing (ascii "phone") 9 root_store)

Reachable-IsValid_example : IsValid phone_store
Reachable-IsValid_example = Reachable-IsValid plain_codec ram sevens phone_store phone_reached

phone-IsValid : IsValid phone_store
phone-IsValid = Reachable-IsValid plain_codec ram sevens phone_store phone_reached

abbrev root_principal : Principal
root_principal = record { token_id = bootstrap_id; role = admin }

authenticate_iff_example :
    ((authenticate plain_codec ram (ascii "root") 11 phone_store).1 ≡ some root_principal) ↔ (
      (r : TokenRecord) × (find bootstrap_id phone_store.records ≡ some r)
      × (r.hash ≡ hash_secret plain_codec (ascii "root"))
      × (root_principal ≡ principal_of r))
authenticate_iff_example =
    authenticate_iff plain_codec ram (ascii "root") 11 phone_store root_principal phone-IsValid

issue-grants_example :
    GrantsIssued plain_codec ram root_store.records
      (ascii "01")
      (issue plain_codec ram sevens (ascii "phone") 9 root_store)
issue-grants_example = issue-grants plain_codec ram sevens (ascii "phone") 9 root_store (ascii "01")

revoke-grants_example :
    ((x : StoreError) × ((revoke plain_codec ram phone_id phone_store).1 ≡ some x)
      × (grants (revoke plain_codec ram phone_id phone_store).0.records (ascii "726f6f74")
          ≡ grants phone_store.records (ascii "726f6f74")))
    ⊎ ((r : TokenRecord) × ((revoke plain_codec ram phone_id phone_store).1 ≡ none)
        × (find phone_id phone_store.records ≡ some r)
        × (grants (revoke plain_codec ram phone_id phone_store).0.records (ascii "726f6f74") ≡ (
            if ascii "726f6f74" == r.hash
            then none
            else grants phone_store.records (ascii "726f6f74"))))
revoke-grants_example =
    revoke-grants plain_codec ram phone_id phone_store (ascii "726f6f74") phone-IsValid

save-Saves_example :
    Saves ram ram-IsPosix
      (ascii "x")
      nowhere
      (save ram (ascii "x") nowhere).0
      (save ram (ascii "x") nowhere).1
save-Saves_example = save-Saves ram ram-IsPosix (ascii "x") nowhere

revoke-Stored_example :
    ((revoke plain_codec ram phone_id phone_store).1 ≡ none
      × Stored plain_codec ram ram-IsPosix
          (erase phone_id phone_store.records)
          (revoke plain_codec ram phone_id phone_store).0.world)
    ⊎ (is_some (revoke plain_codec ram phone_id phone_store).1 ≡ true
        × ram.at_path (revoke plain_codec ram phone_id phone_store).0.world
          ≡ ram.at_path phone_store.world)
revoke-Stored_example = revoke-Stored plain_codec ram ram-IsPosix phone_id phone_store

phone_subscribed : (subscribe_revocation phone_id phone_store).1 ≡ some 0
unfolding equal find subscribe_revocation issue valid_label any_control add_record new_record
    hex_encode validate_unique_hashes unique_hashes insert hash_secret new_secret persist save
    drop_dir drop_temp fill replace settle disk_before disk_records id_before erase place sort_by
phone_subscribed = refl

-- A second client subscribes between the subscription and the revocation.
abbrev twice_subscribed : Store Disk
twice_subscribed = (subscribe_revocation phone_id (subscribe_revocation phone_id phone_store).0).0

phone_revoked : (revoke plain_codec ram phone_id twice_subscribed).1 ≡ none
unfolding revoke equal find subscribe_revocation issue valid_label any_control add_record new_record
    hex_encode validate_unique_hashes unique_hashes insert hash_secret new_secret persist save
    drop_dir drop_temp fill replace settle disk_before disk_records notify_revoked id_before erase
    place sort_by
phone_revoked = refl

second_subscribes :
    Uncancelled plain_codec ram sevens phone_id 0
      (subscribe_revocation phone_id phone_store).0
      twice_subscribed
second_subscribes =
    then_called (subscribe_revocation phone_id phone_store).0
      (subscribe_revocation phone_id phone_store).0 twice_subscribed
      (at_once (subscribe_revocation phone_id phone_store).0)
      (subscribing phone_id (subscribe_revocation phone_id phone_store).0) tt

revoke-subscribe_revocation_example :
    count 0 (revoke plain_codec ram phone_id twice_subscribed).0.closed ≡ 1
revoke-subscribe_revocation_example =
    revoke-subscribe_revocation plain_codec ram sevens phone_id phone_store twice_subscribed 0
      phone-IsValid phone_subscribed second_subscribes phone_revoked
