-- ===== src/Proto/Frames.antt =====
-- frames.go: the command codes, the request frames, and the check of a reply.
pub mod Acceptance
use openwrt_wattline.Common.{
  ℕ, ◌+◌, Bool, true, false, not, ◌&&◌, ◌||◌, Option, none, some, List, [], ◌∷◌, length, drop,
  bit_or, ltb, leb, ◌==◌, nat_eq, if◌then◌else◌,
}
use openwrt_wattline.Common.Bytes.{Bytes, at, uint16_at, uint32_at}
use openwrt_wattline.Common.Result.{Result, ok, err}
use openwrt_wattline.Proto.Error.{
  ProtoError, short_frame, echo_mismatch, action_mismatch, device_result, features_short,
  device_id_short, ota_empty,
}

abbrev pub cmd_dc_control : ℕ
cmd_dc_control = 0x01

abbrev pub cmd_ble_pin : ℕ
cmd_ble_pin = 0x04

abbrev pub cmd_device_id : ℕ
cmd_device_id = 0x10

abbrev pub cmd_restart : ℕ
cmd_restart = 0x11

abbrev pub cmd_type_c_control : ℕ
cmd_type_c_control = 0x13

abbrev pub cmd_bypass_control : ℕ
cmd_bypass_control = 0x14

abbrev pub cmd_features : ℕ
cmd_features = 0xFE

abbrev pub act_get : ℕ
act_get = 0x00

abbrev pub act_set : ℕ
act_set = 0x01

abbrev pub on_byte : Bool → ℕ
on_byte on = if on then 1 else 0

unfoldable pub dc_control : Bool → Bytes
dc_control on = cmd_dc_control ∷ act_set ∷ on_byte on ∷ []

unfoldable pub type_c_output : Bool → Bytes
type_c_output on = cmd_type_c_control ∷ act_set ∷ 0x02 ∷ on_byte on ∷ []

unfoldable pub bypass_control : Bool → Bytes
bypass_control on = cmd_bypass_control ∷ act_set ∷ on_byte on ∷ []

unfoldable pub restart : Bytes
restart = cmd_restart ∷ act_set ∷ []

unfoldable pub features_query : Bytes
features_query = cmd_features ∷ act_get ∷ []

unfoldable pub device_id_query : Bytes
device_id_query = cmd_device_id ∷ act_get ∷ []

unfoldable pub ota_info_query : Bytes
ota_info_query = 0x84 ∷ []

unfoldable pub shutdown_magic : Bytes
shutdown_magic = b'F' ∷ b'M' ∷ []

-- The three results of ValidateReply. Go returns a zero byte and a nil payload beside the first
-- three errors, and the device's own result and payload beside `device_result`.
pub record Reply : Type 0 where
  pub result : ℕ
  pub payload : Bytes
  pub error : Option ProtoError

abbrev rejected : ProtoError → Reply
rejected e = record { result = 0; payload = []; error = some e }

unfoldable pub validate_reply : Bytes → Bytes → Reply
validate_reply req reply =
    if length req == 0 || ltb (length reply) 3
    then rejected short_frame
    else if not (at reply 0 == at req 0)
    then rejected (echo_mismatch (at req 0) (at reply 0))
    else if leb 2 (length req) && not (at reply 1 == bit_or (at req 1) 0x80)
    then rejected (action_mismatch (at req 1) (at reply 1))
    else let result = at reply 2 in
      let payload = drop 3 reply in
      if not (result == 0) && not (at req 0 == cmd_bypass_control)
      then (record {
        result = result;
        payload = payload;
        error = some (device_result (at req 0) result);
      })
      else if at req 0 == cmd_bypass_control
      then (record { result = result; payload = payload; error = none })
      else (record { result = 0; payload = payload; error = none })

unfoldable pub parse_features : Bytes → Result ProtoError ℕ
parse_features payload =
    if ltb (length payload) 4 then err features_short else ok (uint32_at payload 0)

-- The six bytes in the order in which "%02X:…" prints them; their spelling in hexadecimal is fmt's.
unfoldable pub parse_device_id : Bytes → Result ProtoError Bytes
parse_device_id payload =
    if ltb (length payload) 6
    then err device_id_short
    else ok (
        at payload 5
        ∷ at payload 4
        ∷ at payload 3
        ∷ at payload 2
        ∷ at payload 1
        ∷ at payload 0
        ∷ [])

-- The mode, and the CID where the reply is long enough.
unfoldable pub parse_ota_mode : Bytes → Result ProtoError (ℕ × ℕ)
parse_ota_mode reply =
    if ltb (length reply) 1
    then err ota_empty
    else ok (at reply 0, if leb 15 (length reply) then uint16_at reply 13 else 0)
