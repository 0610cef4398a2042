-- ===== src/Proto/Features.antt =====
-- advanced.go: the features bitmask and the frames of the advanced commands.
use openwrt_wattline.Common.{
  ℕ, ◌+◌, ◌*◌, ◌^◌, ◌<◌, Bool, true, false, [], ◌∷◌, length, ◌≡◌, arith, ltb, ◌==◌, nat_eq,
  if◌then◌else◌, ◌/◌, ◌≤◌, ◌%◌,
}
use openwrt_wattline.Common.Bits.{has_bit, has_bit_lem}
use openwrt_wattline.Common.Bytes.{Bytes, put_uint32}
use openwrt_wattline.Common.Result.{Result, ok, err}
use openwrt_wattline.Proto.Error.{ProtoError, usb_firmware_empty}
use openwrt_wattline.Proto.Frames.{act_get, act_set, on_byte, cmd_ble_pin}

abbrev pub cmd_barrier_free : ℕ
cmd_barrier_free = 0x03

abbrev pub cmd_running_mode : ℕ
cmd_running_mode = 0xe0

abbrev pub cmd_usb_firmware : ℕ
cmd_usb_firmware = 0x17

pub record FeatureSet : Type 0 where
  pub display : Bool
  pub factory_mode : Bool
  pub sleep : Bool
  pub shutdown : Bool
  pub battery_capacity : Bool
  pub dc_out_port : Bool
  pub dc_out_control : Bool
  pub dc_out_scheduler : Bool
  pub usb_port : Bool
  pub usb_power_limit : Bool
  pub usb_output_control : Bool
  pub dc_bypass : Bool
  pub dc_bypass_control : Bool
  pub usb_dc_input : Bool
  pub usb_dc_input_power : Bool

unfoldable pub decode_features : ℕ → FeatureSet
decode_features raw = record {
  display = has_bit raw 0;
  factory_mode = has_bit raw 1;
  sleep = has_bit raw 2;
  shutdown = has_bit raw 3;
  battery_capacity = has_bit raw 4;
  dc_out_port = has_bit raw 5;
  dc_out_control = has_bit raw 6;
  dc_out_scheduler = has_bit raw 7;
  usb_port = has_bit raw 8;
  usb_power_limit = has_bit raw 9;
  usb_output_control = has_bit raw 10;
  dc_bypass = has_bit raw 11;
  dc_bypass_control = has_bit raw 12;
  usb_dc_input = has_bit raw 13;
  usb_dc_input_power = has_bit raw 14;
}

unfoldable pub barrier_free_get : Bytes
barrier_free_get = cmd_barrier_free ∷ act_get ∷ []

unfoldable pub barrier_free_set : Bool → Bytes
barrier_free_set on = cmd_barrier_free ∷ act_set ∷ on_byte on ∷ []

unfoldable pub running_mode_set : ℕ → Bytes
running_mode_set mode = cmd_running_mode ∷ act_set ∷ mode ∷ []

unfoldable pub usb_firmware_get : Bytes
usb_firmware_get = cmd_usb_firmware ∷ act_get ∷ []

unfoldable pub parse_usb_firmware : Bytes → Result ProtoError Bytes
parse_usb_firmware payload = if length payload == 0 then err usb_firmware_empty else ok payload

-- The nil frame of an invalid PIN is the empty one.
unfoldable pub ble_pin_set : ℕ → Bytes
ble_pin_set pin = if ltb 999999 pin then [] else cmd_ble_pin ∷ act_set ∷ put_uint32 pin

flag : Bool → ℕ
flag true = 1
flag false = 0

-- The mask that the protocol's table gives for a set of features, written down independently.
unfoldable pub features_word : FeatureSet → ℕ
unfolding flag
features_word s =
    flag s.display
    + 2 * flag s.factory_mode
    + 4 * flag s.sleep
    + 8 * flag s.shutdown
    + 16 * flag s.battery_capacity
    + 32 * flag s.dc_out_port
    + 64 * flag s.dc_out_control
    + 128 * flag s.dc_out_scheduler
    + 256 * flag s.usb_port
    + 512 * flag s.usb_power_limit
    + 1024 * flag s.usb_output_control
    + 2048 * flag s.dc_bypass
    + 4096 * flag s.dc_bypass_control
    + 8192 * flag s.usb_dc_input
    + 16384 * flag s.usb_dc_input_power

flag-le : (b : Bool) → flag b ≤ 1
unfolding flag
flag-le b = ground arith

bit_of_flag : (k w : ℕ) (b : Bool) → w < 2 ^ 32 → w / 2 ^ k % 2 ≡ flag b → has_bit w k ≡ b
unfolding flag
bit_of_flag k w b h e = ground (arith, has_bit_lem 32 k w h)

-- Every set of features is read back from its mask, whatever undocumented higher bits are set.
pub decode_features-features_word :
    (s : FeatureSet) (high : ℕ)
    → high < 2 ^ 17
    → decode_features (features_word s + 2 ^ 15 * high) ≡ s
unfolding decode_features features_word
decode_features-features_word s high h =
    let w : ℕ = features_word s + 2 ^ 15 * high in
    λ i. record {
      display = bit_of_flag 0 w s.display (omega (arith, flag-le)) (omega (arith, flag-le)) i;
      factory_mode =
          bit_of_flag 1 w s.factory_mode (omega (arith, flag-le)) (omega (arith, flag-le)) i;
      sleep = bit_of_flag 2 w s.sleep (omega (arith, flag-le)) (omega (arith, flag-le)) i;
      shutdown = bit_of_flag 3 w s.shutdown (omega (arith, flag-le)) (omega (arith, flag-le)) i;
      battery_capacity =
          bit_of_flag 4 w s.battery_capacity (omega (arith, flag-le)) (omega (arith, flag-le)) i;
      dc_out_port =
          bit_of_flag 5 w s.dc_out_port (omega (arith, flag-le)) (omega (arith, flag-le)) i;
      dc_out_control =
          bit_of_flag 6 w s.dc_out_control (omega (arith, flag-le)) (omega (arith, flag-le)) i;
      dc_out_scheduler =
          bit_of_flag 7 w s.dc_out_scheduler (omega (arith, flag-le)) (omega (arith, flag-le)) i;
      usb_port = bit_of_flag 8 w s.usb_port (omega (arith, flag-le)) (omega (arith, flag-le)) i;
      usb_power_limit =
          bit_of_flag 9 w s.usb_power_limit (omega (arith, flag-le)) (omega (arith, flag-le)) i;
      usb_output_control =
          bit_of_flag 10 w s.usb_output_control (omega (arith, flag-le)) (omega (arith, flag-le)) i;
      dc_bypass = bit_of_flag 11 w s.dc_bypass (omega (arith, flag-le)) (omega (arith, flag-le)) i;
      dc_bypass_control =
          bit_of_flag 12 w s.dc_bypass_control (omega (arith, flag-le)) (omega (arith, flag-le)) i;
      usb_dc_input =
          bit_of_flag 13 w s.usb_dc_input (omega (arith, flag-le)) (omega (arith, flag-le)) i;
      usb_dc_input_power =
          bit_of_flag 14 w s.usb_dc_input_power (omega (arith, flag-le)) (omega (arith, flag-le)) i;
    }
