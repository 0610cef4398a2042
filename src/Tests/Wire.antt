-- ===== src/Tests/Wire.antt =====
-- The frames of the protocol at concrete bytes.
use openwrt_wattline.Common.{
  ◌+◌, ◌*◌, ◌^◌, true, false, none, [], ◌∷◌, ◌++◌, ◌≡◌, ◌↔◌, refl, arith, inl, inr,
}
use openwrt_wattline.Common.Int.{pos}
use openwrt_wattline.Common.Result.{ok}
use openwrt_wattline.Common.Bytes.{Bytes}
use openwrt_wattline.Proto.Frames.{validate_reply}
use openwrt_wattline.Proto.Frames.Acceptance.{Answers, validate_reply_iff, validate_reply-payload}
use openwrt_wattline.Proto.Features.{FeatureSet}
use openwrt_wattline.Proto.Lifecycle.{OtaInfo}
use openwrt_wattline.Proto.Controls.{watts_to_level, level_to_watts}
use openwrt_wattline.Proto.Controls.Limits.{watts_to_level-level_to_watts}
use openwrt_wattline.Proto.Schedule.{
  Timer, encode, parse_timer, validate_timer_write, schedule_upsert,
}
use openwrt_wattline.Proto.Schedule.Codec.{parse_timer-encode}
use openwrt_wattline.Proto.Schedule.Writable.{
  IsWritable, validate_timer_write_iff, schedule_upsert-frame,
}

abbrev dc_request : Bytes
dc_request = 0x01 ∷ 0x01 ∷ 0x01 ∷ []

abbrev dc_answer : Bytes
dc_answer = 0x01 ∷ 0x81 ∷ 0x00 ∷ 0x07 ∷ []

dc_Answers : Answers dc_request dc_answer
dc_Answers = record {
  asked = omega arith;
  headed = omega arith;
  echo = refl;
  action = inr refl;
  succeeded = inl refl;
}

validate_reply_iff_example :
    ((validate_reply dc_request dc_answer).error ≡ none) ↔ Answers dc_request dc_answer
validate_reply_iff_example = validate_reply_iff dc_request dc_answer

validate_reply-payload_example :
    validate_reply dc_request dc_answer ≡ record { result = 0; payload = 0x07 ∷ []; error = none }
validate_reply-payload_example = validate_reply-payload dc_request dc_answer dc_Answers

abbrev plain_features : FeatureSet
plain_features = record {
  display = true;
  factory_mode = false;
  sleep = false;
  shutdown = true;
  battery_capacity = true;
  dc_out_port = true;
  dc_out_control = true;
  dc_out_scheduler = false;
  usb_port = true;
  usb_power_limit = true;
  usb_output_control = false;
  dc_bypass = false;
  dc_bypass_control = true;
  usb_dc_input = false;
  usb_dc_input_power = false;
}

abbrev boot_info : OtaInfo
boot_info = record {
  mode = 2;
  ota_start = 0x8000;
  block_size = 240;
  chip_type = 3;
  cid = 0x1234;
  app_start = 0x4000;
  revision = 7;
}

watts_to_level-level_to_watts_example : watts_to_level (pos (level_to_watts (pos 3))) ≡ pos 3
watts_to_level-level_to_watts_example = watts_to_level-level_to_watts 3 (omega arith)

-- the 29th of February 2028, at 7:30, on
abbrev leap_day : Timer
leap_day = record {
  id = 0;
  status = pos 1;
  type = 0;
  hour = 7;
  minute = 30;
  repeat = 2028 + 2 * 2 ^ 16 + 29 * 2 ^ 24;
  action = 1;
}

parse_timer-encode_example : parse_timer (encode leap_day ++ 9 ∷ []) ≡ ok leap_day
parse_timer-encode_example =
    parse_timer-encode leap_day (9 ∷ []) (record { status = omega arith; repeat = omega arith })

abbrev leap_bytes : Bytes
leap_bytes = 1 ∷ 0 ∷ 7 ∷ 30 ∷ 0xEC ∷ 7 ∷ 2 ∷ 29 ∷ 1 ∷ []

leap_parsed : parse_timer leap_bytes ≡ ok leap_day
unfolding parse_timer
leap_parsed = refl

validate_timer_write_iff_example : (validate_timer_write leap_day ≡ none) ↔ IsWritable leap_day
validate_timer_write_iff_example = validate_timer_write_iff leap_day (omega arith)

schedule_upsert-frame_example :
    ((schedule_upsert 4 leap_day ≡ 0x06 ∷ 0x01 ∷ 0x02 ∷ 4 ∷ encode leap_day) ↔ IsWritable leap_day)
    × ((schedule_upsert 4 leap_day ≡ []) ↔ ¬ IsWritable leap_day)
schedule_upsert-frame_example = schedule_upsert-frame 4 leap_day (omega arith)
