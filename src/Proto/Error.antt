-- ===== src/Proto/Error.antt =====
-- The errors of internal/proto, one constructor for each format string, with the numbers printed.
-- `device_result` wraps the sentinel ErrResult. `index_out_of_range` is no error of the package: it
-- is Go's panic at an index.
use openwrt_wattline.Common.{ℕ, Bool, true, false}
use openwrt_wattline.Common.Int.{ℤ}

pub data ProtoError : Type 0 where
  short_frame : ProtoError
  echo_mismatch : ℕ → ℕ → ProtoError
  action_mismatch : ℕ → ℕ → ProtoError
  device_result : ℕ → ℕ → ProtoError
  features_short device_id_short : ProtoError
  ota_empty ota_app_short ota_boot_short : ProtoError
  ota_unknown_mode : ℕ → ProtoError
  battery_short dc_short typec_short : ℕ → ProtoError
  limit_type_not_writable : ℕ → ProtoError
  limit_level_outside : ℤ → ProtoError
  limit_payload_short threshold_payload_short : ProtoError
  timer_short : ProtoError
  timer_status : ℤ → ProtoError
  timer_time : ℕ → ℕ → ProtoError
  timer_action : ℕ → ProtoError
  one_shot_date : ℕ → ℕ → ℕ → ProtoError
  daily_recurrence : ProtoError
  weekly_recurrence monthly_recurrence : ℕ → ProtoError
  timer_type : ℕ → ProtoError
  usb_firmware_empty : ProtoError
  index_out_of_range : ℕ → ProtoError

-- errors.Is(err, ErrResult)
pub is_err_result : ProtoError → Bool
is_err_result (device_result _ _) = true
is_err_result _ = false
