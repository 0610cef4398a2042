-- ===== src/State/Snapshot.antt =====
-- The data of store.go and device.go. `F` is float64, and `V` the payloads of commands (`any`).
-- Values are immutable here, so the clone functions of the source are the identity.
use openwrt_wattline.Common.{ℕ, String, Bool, Option, List, string_eq}
use openwrt_wattline.Common.Clock.{Time}
use openwrt_wattline.Common.Int.{ℤ}
use openwrt_wattline.Proto.Features.{FeatureSet}
use openwrt_wattline.Proto.Telemetry.{Battery, DcPort, TypeCPort}

pub data ConnectionPhase : Type 0 where
  disconnected connecting handshaking ready bootloader : ConnectionPhase

-- A phase is a string in the source, and callers may pass any.
pub data CommandPhase : Type 0 where
  pending confirmed timeout failed : CommandPhase
  other : String → CommandPhase

-- `Mode` and the names of characteristics are the strings of the source; a map from strings to
-- true or false is a function.
pub record Identity : Type 0 where
  pub model : String
  pub hw_rev : String
  pub app_firmware : String
  pub bootloader_firmware : String
  pub mac : String
  pub cid : ℕ
  pub features : ℕ
  pub feature_set : FeatureSet
  pub mode : String
  pub characteristics : String → Bool
  pub readable_characteristics : String → Bool

pub record Connection : Type 0 where
  pub phase : ConnectionPhase
  pub reconnect_armed : Bool
  pub since : Time
  pub error : String

pub record CommandError : Type 0 where
  pub code : String
  pub message : String

pub record Command (V : Type 0) : Type 0 where
  pub id : String
  pub operation : String
  pub phase : CommandPhase
  pub requested : Option V
  pub observed : Option V
  pub started_at : Time
  pub updated_at : Time
  pub error : Option CommandError

-- The map of pending commands is a list of commands, each under its own ID.
pub record Snapshot (F V : Type 0) : Type 0 where
  pub battery : Option (Battery F)
  pub dc : Option (DcPort F)
  pub type_c : Option (TypeCPort F)
  pub connected : Bool
  pub updated_at : Time
  pub device : Option Identity
  pub connection : Option Connection
  pub pending_commands : List (Command V)
  pub recent_commands : List (Command V)

pub record HistoryPoint (F : Type 0) : Type 0 where
  pub at : Time
  pub level : ℕ
  pub status : ℤ
  pub dc_w : F
  pub type_c_w : F
