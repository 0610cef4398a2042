-- ===== src/Proto/Lifecycle.antt =====
-- lifecycle.go: the OTA frames and the OTA INFO reply.
pub mod Layout
use openwrt_wattline.Common.{ℕ, [], ◌∷◌, length, ltb, ◌==◌, nat_eq, if◌then◌else◌}
use openwrt_wattline.Common.Bytes.{Bytes, at, uint16_at, uint32_at}
use openwrt_wattline.Common.Result.{Result, ok, err}
use openwrt_wattline.Proto.Error.{
  ProtoError, ota_empty, ota_app_short, ota_boot_short, ota_unknown_mode,
}

unfoldable pub ota_enter : Bytes
ota_enter = b'P' ∷ b'K' ∷ []

unfoldable pub ota_exit : Bytes
ota_exit = 0x83 ∷ []

pub record OtaInfo : Type 0 where
  pub mode : ℕ
  pub ota_start : ℕ
  pub block_size : ℕ
  pub chip_type : ℕ
  pub cid : ℕ
  pub app_start : ℕ
  pub revision : ℕ

abbrev only_mode : ℕ → OtaInfo
only_mode mode = record {
  mode = mode;
  ota_start = 0;
  block_size = 0;
  chip_type = 0;
  cid = 0;
  app_start = 0;
  revision = 0;
}

unfoldable pub parse_ota_info : Bytes → Result ProtoError OtaInfo
parse_ota_info reply =
    if length reply == 0
    then err ota_empty
    else let info = only_mode (at reply 0) in
      if info.mode == 1
      then (if ltb (length reply) 15
          then err ota_app_short
          else ok (record info { cid = uint16_at reply 13 }))
      else if info.mode == 2
      then (if ltb (length reply) 16
          then err ota_boot_short
          else ok (record info {
            ota_start = uint32_at reply 1;
            block_size = uint16_at reply 5;
            chip_type = uint16_at reply 7;
            app_start = uint32_at reply 9;
            revision = at reply 15;
            cid = uint16_at reply 13;
          }))
      else err (ota_unknown_mode info.mode)
