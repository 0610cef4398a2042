-- ===== src/Proto/Lifecycle/Layout.antt =====
-- The two OTA INFO replies, written down as encoders, against the parser.
use openwrt_wattline.Common.{◌^◌, ◌<◌, ◌≡◌, [], ◌∷◌, ◌++◌, arith, drop}
use openwrt_wattline.Common.Bytes.{Bytes, put_uint16, put_uint32}
use openwrt_wattline.Common.Result.{ok}
use openwrt_wattline.Proto.Lifecycle.{OtaInfo, parse_ota_info}

-- The bootloader's reply.
abbrev pub boot_bytes : OtaInfo → Bytes
boot_bytes i =
    2
    ∷ (put_uint32 i.ota_start
        ++ (put_uint16 i.block_size
            ++ (put_uint16 i.chip_type
                ++ (put_uint32 i.app_start ++ (put_uint16 i.cid ++ i.revision ∷ [])))))

pub record Fits (i : OtaInfo) : Type 0 where
  pub ota_start : i.ota_start < 2 ^ 32
  pub block_size : i.block_size < 2 ^ 16
  pub chip_type : i.chip_type < 2 ^ 16
  pub cid : i.cid < 2 ^ 16
  pub app_start : i.app_start < 2 ^ 32

-- A reply of the bootloader is read field by field; with its first byte at 1, the same bytes are a
-- reply of the application, of which only the mode and the CID are read.
pub parse_ota_info-boot_bytes :
    (i : OtaInfo) (trailer : Bytes)
    → Fits i
    → (parse_ota_info (boot_bytes i ++ trailer) ≡ ok (record i { mode = 2 }))
      × (parse_ota_info (1 ∷ drop 1 (boot_bytes i) ++ trailer)
          ≡ ok (record {
            mode = 1;
            ota_start = 0;
            block_size = 0;
            chip_type = 0;
            cid = i.cid;
            app_start = 0;
            revision = 0;
          }))
unfolding parse_ota_info
parse_ota_info-boot_bytes i trailer h = (ground arith, ground arith)
