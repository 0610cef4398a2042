-- ===== src/Auth/Tokens.antt =====
-- store.go: the records of the token store, their checks, and the texts and hashes behind them. What
-- is not in this repository and is no plain byte code, UTF-8, SHA-256 and JSON, is in `Codec`.
use openwrt_wattline.Common.{
  ℕ, ◌+◌, ◌-◌, ◌/◌, ◌%◌, Bool, true, false, not, ◌&&◌, ◌||◌, Option, none, some, List, [], ◌∷◌,
  length, ◌==◌, nat_eq, ltb, leb, if◌then◌else◌,
}
use openwrt_wattline.Common.Bytes.{Bytes, bytes_eq, ascii}
use openwrt_wattline.Common.Clock.{Time, is_zero, before}
use openwrt_wattline.Common.Dict.{Dict, find, insert}

pub data Role : Type 0 where
  admin client : Role

pub record Principal : Type 0 where
  pub token_id : Bytes
  pub role : Role

pub record TokenMeta : Type 0 where
  pub id : Bytes
  pub label : Bytes
  pub created_at : Time
  pub last_seen_at : Option Time
  pub bootstrap : Bool

pub record TokenRecord : Type 0 where
  pub meta : TokenMeta
  pub hash : Bytes
  pub persisted_last_seen : Option Time

pub data StoreError : Type 0 where
  bootstrap_token token_not_found invalid_label duplicate_id generate_failed : StoreError
  duplicate_hash : Bytes → Bytes → StoreError
  encode_failed create_directory open_directory create_temporary set_mode write_failed : StoreError
  sync_failed close_failed replace_failed sync_directory close_directory : StoreError
  empty_path empty_bootstrap read_failed decode_failed stat_failed managed_bootstrap : StoreError
  not_bootstrap invalid_id zero_creation early_last_seen invalid_hash : Bytes → StoreError

-- unicode/utf8, unicode, crypto/sha256 and encoding/json: the runes of a valid text, the text
-- without the spaces around it, the digest, and the file of the tokens.
pub record Codec : Type 0 where
  pub runes : Bytes → Option (List ℕ)
  pub trim_space : Bytes → Bytes
  pub is_control : ℕ → Bool
  pub sha256 : Bytes → Bytes
  pub encode : List TokenRecord → Option Bytes
  pub decode : Bytes → Option (List TokenRecord)

abbrev pub bootstrap_id : Bytes
bootstrap_id = ascii "bootstrap"

abbrev pub bootstrap_label : Bytes
bootstrap_label = ascii "Bootstrap administrator"

abbrev pub max_label_bytes : ℕ
max_label_bytes = 128

-- hex.EncodeToString
abbrev pub hex_digit : ℕ → ℕ
hex_digit n = if ltb n 10 then b'0' + n else b'a' + (n - 10)

unfoldable pub hex_encode : Bytes → Bytes
hex_encode [] = []
hex_encode (b ∷ bs) = hex_digit (b / 16 % 16) ∷ hex_digit (b % 16) ∷ hex_encode bs

abbrev is_hex_digit : ℕ → Bool
is_hex_digit c = leb b'0' c && leb c b'9' || leb b'a' c && leb c b'f' || leb b'A' c && leb c b'F'

-- hex.DecodeString(s) returns no error
unfoldable pub is_hex : Bytes → Bool
is_hex [] = true
is_hex (c ∷ []) = false
is_hex (c ∷ d ∷ s) = is_hex_digit c && is_hex_digit d && is_hex s

-- strings.ToLower on ASCII. A text with other bytes is not hexadecimal, which is tested behind it.
unfoldable pub to_lower : Bytes → Bytes
to_lower [] = []
to_lower (c ∷ s) = (if leb b'A' c && leb c b'Z' then c + 32 else c) ∷ to_lower s

unfoldable pub any_control : (ℕ → Bool) → List ℕ → Bool
any_control is_control [] = false
any_control is_control (r ∷ rs) = is_control r || any_control is_control rs

module _ (codec : Codec) where
  -- hashSecret
  unfoldable pub hash_secret : Bytes → Bytes
  hash_secret secret = hex_encode (codec.sha256 secret)

  -- validateLabel(label) == nil
  unfoldable pub valid_label : Bytes → Bool
  valid_label label =
      if label == [] || ltb max_label_bytes (length label)
      then false
      else elim (codec.runes label) [
        | none ↦ false
        | some rs ↦ codec.trim_space label == label && not (any_control codec.is_control rs)
      ]

  -- the first half of validateRecord: the ID and the label
  unfoldable pub validate_identity : TokenRecord → Option StoreError
  validate_identity r =
      let id = r.meta.id in
      if id == bootstrap_id
      then (if not r.meta.bootstrap then some (not_bootstrap id) else none)
      else if r.meta.bootstrap || not (length id == 16) || not (id == to_lower id)
      then some (invalid_id id)
      else if not (is_hex id)
      then some (invalid_id id)
      else if not (valid_label r.meta.label)
      then some invalid_label
      else none

  -- its second half: the times, which are in UTC here, and the hash
  unfoldable pub validate_rest : TokenRecord → Option StoreError
  validate_rest r =
      let id = r.meta.id in
      if is_zero r.meta.created_at
      then some (zero_creation id)
      else if elim r.meta.last_seen_at [ none ↦ false | some t ↦ before t r.meta.created_at ]
      then some (early_last_seen id)
      else if not (length r.hash == 64) || not (r.hash == to_lower r.hash)
      then some (invalid_hash id)
      else if not (is_hex r.hash)
      then some (invalid_hash id)
      else none

  unfoldable pub validate_record : TokenRecord → Option StoreError
  validate_record r = elim (validate_identity r) [ some e ↦ some e | none ↦ validate_rest r ]

-- The loop of validateUniqueHashes, with `seen` from hashes to IDs
unfoldable pub unique_hashes : Dict Bytes Bytes → Dict Bytes TokenRecord → Option StoreError
unique_hashes seen [] = none
unique_hashes seen ((id, r) ∷ records) = elim (find r.hash seen) [
  | some existing ↦ some (duplicate_hash existing id)
  | none ↦ unique_hashes (insert r.hash id seen) records
]

unfoldable pub validate_unique_hashes : Dict Bytes TokenRecord → Option StoreError
validate_unique_hashes records = unique_hashes [] records

-- a < b on strings
unfoldable pub id_before : Bytes → Bytes → Bool
id_before [] [] = false
id_before [] (y ∷ ys) = true
id_before (x ∷ xs) [] = false
id_before (x ∷ xs) (y ∷ ys) = ltb x y || x == y && id_before xs ys
