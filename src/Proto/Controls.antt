-- ===== src/Proto/Controls.antt =====
-- controls.go: USB-C power limits and the DC bypass threshold.
pub mod Limits
use openwrt_wattline.Common.{
  ℕ, zero, suc, ◌+◌, Bool, ◌&&◌, ◌||◌, Option, none, some, List, [], ◌∷◌, length, get_or, ltb, leb,
  ◌==◌, nat_eq, is_some, if◌then◌else◌,
}
use openwrt_wattline.Common.Bytes.{Bytes, at, uint16_at, put_uint16}
use openwrt_wattline.Common.Int.{ℤ, pos, negsuc, int8, byte_of}
use openwrt_wattline.Common.Float64.{Float64}
use openwrt_wattline.Common.Result.{Result, ok, err}
use openwrt_wattline.Proto.Error.{
  ProtoError, limit_type_not_writable, limit_level_outside, limit_payload_short,
  threshold_payload_short,
}
use openwrt_wattline.Proto.Frames.{act_get, act_set}
use openwrt_wattline.Proto.Sfloat.{decode_sfloat, encode_sfloat}

abbrev pub cmd_type_c_limit : ℕ
cmd_type_c_limit = 0x02

abbrev pub cmd_scheduled_on_off : ℕ
cmd_scheduled_on_off = 0x06

abbrev pub cmd_bypass_threshold : ℕ
cmd_bypass_threshold = 0x15

abbrev pub act_del : ℕ
act_del = 0x02

abbrev pub limit_global : ℕ
limit_global = 1

abbrev pub limit_input : ℕ
limit_input = 2

abbrev pub limit_output : ℕ
limit_output = 3

abbrev pub limit_runtime : ℕ
limit_runtime = 4

abbrev pub level_watts : List ℕ
level_watts = 30 ∷ 45 ∷ 60 ∷ 65 ∷ 100 ∷ 140 ∷ []

-- A level is an int, which may be negative.
unfoldable pub level_to_watts : ℤ → ℕ
level_to_watts (pos level) =
    if ltb level (length level_watts) then get_or level_watts level 0 else 0
level_to_watts (negsuc n) = 0

-- the loop over the table, with the index of its head
unfoldable pub find_level : ℕ → List ℕ → ℤ → ℤ
find_level i [] watts = negsuc 0
find_level i (w ∷ ws) (pos n) =
    let rest = find_level (i + 1) ws (pos n) in if w == n then pos i else rest
find_level i (w ∷ ws) (negsuc n) = find_level (i + 1) ws (negsuc n)

unfoldable pub watts_to_level : ℤ → ℤ
unfolding find_level
watts_to_level watts = find_level 0 level_watts watts

unfoldable pub type_c_limit_get : ℕ → Bytes
type_c_limit_get typ = cmd_type_c_limit ∷ act_get ∷ typ ∷ []

-- `none` is the nil error.
unfoldable pub validate_limit_write : ℕ → ℤ → Option ProtoError
validate_limit_write typ level =
    if ltb typ limit_global || ltb limit_output typ
    then some (limit_type_not_writable typ)
    else elim level [
      | pos n ↦ if leb (length level_watts) n then some (limit_level_outside (pos n)) else none
      | negsuc n ↦ some (limit_level_outside (negsuc n))
    ]

-- The nil frame is the empty one.
unfoldable pub type_c_limit_set : ℕ → ℤ → Bytes
type_c_limit_set typ level =
    if is_some (validate_limit_write typ level)
    then []
    else cmd_type_c_limit ∷ act_set ∷ typ ∷ byte_of level ∷ []

unfoldable pub type_c_limit_clear : ℕ → Bytes
type_c_limit_clear typ =
    if ltb typ limit_global || ltb limit_output typ
    then []
    else cmd_type_c_limit ∷ act_del ∷ typ ∷ []

unfoldable pub parse_type_c_limit : Bytes → Result ProtoError ℤ
parse_type_c_limit payload =
    if ltb (length payload) 1 then err limit_payload_short else ok (int8 (at payload 0))

unfoldable pub bypass_threshold_get : Bytes
bypass_threshold_get = cmd_bypass_threshold ∷ act_get ∷ []

module _ {F : Type 0} (fl : Float64 F) where
  unfoldable pub bypass_threshold_set : F → Bytes
  bypass_threshold_set volts = cmd_bypass_threshold ∷ act_set ∷ put_uint16 (encode_sfloat fl volts)

  unfoldable pub parse_bypass_threshold : Bytes → Result ProtoError F
  parse_bypass_threshold payload =
      if ltb (length payload) 2
      then err threshold_payload_short
      else ok (decode_sfloat fl (uint16_at payload 0))
