-- ===== src/Proto/Telemetry.antt =====
-- telemetry.go: the three status frames. A value of `F` is a float64.
pub mod Layout
use openwrt_wattline.Common.{
  ℕ, Bool, none, some, get_elem?, length, ltb, leb, ◌==◌, nat_eq, if◌then◌else◌,
}
use openwrt_wattline.Common.Bytes.{Bytes, at, uint16_at}
use openwrt_wattline.Common.Int.{ℤ, int8}
use openwrt_wattline.Common.Float64.{Float64}
use openwrt_wattline.Common.Result.{Result, ok, err, ◌>>=◌}
use openwrt_wattline.Proto.Error.{
  ProtoError, index_out_of_range, battery_short, dc_short, typec_short,
}
use openwrt_wattline.Proto.Sfloat.{decode_sfloat}

pub record Battery (F : Type 0) : Type 0 where
  pub enabled : Bool
  pub status : ℤ
  pub full : Bool
  pub max_wh : F
  pub wh : F
  pub level : ℕ
  pub volts : F
  pub amps : F
  pub watts : F
  pub remain_min : ℕ

pub record DcPort (F : Type 0) : Type 0 where
  pub enabled : Bool
  pub status : ℤ
  pub volts : F
  pub amps : F
  pub watts : F
  pub bypass : Bool

pub record TypeCPort (F : Type 0) : Type 0 where
  pub enabled : Bool
  pub status : ℤ
  pub volts : F
  pub amps : F
  pub watts : F
  pub temp_c : F
  pub mode : ℕ
  pub dc_input : Bool

-- `b[i]` where the frame may end before it, with the panic as a value.
unfoldable pub index : Bytes → ℕ → Result ProtoError ℕ
index b i = elim (get_elem? b i) [ none ↦ err (index_out_of_range i) | some v ↦ ok v ]

module _ {F : Type 0} (fl : Float64 F) where
  unfoldable pub sfloat_at : Bytes → ℕ → F
  sfloat_at b off = decode_sfloat fl (uint16_at b off)

  unfoldable pub parse_battery : Bytes → Result ProtoError (Battery F)
  parse_battery b =
      if ltb (length b) 16
      then err (battery_short (length b))
      else ok (record {
        enabled = at b 0 == 1;
        status = int8 (at b 1);
        full = at b 2 == 1;
        max_wh = sfloat_at b 3;
        wh = sfloat_at b 5;
        level = at b 7;
        volts = sfloat_at b 8;
        amps = sfloat_at b 10;
        watts = sfloat_at b 12;
        remain_min = uint16_at b 14;
      })

  -- `Bypass` stays false where the frame ends before it.
  unfoldable pub parse_dc : Bytes → Result ProtoError (DcPort F)
  parse_dc b =
      if ltb (length b) 8
      then err (dc_short (length b))
      else (if leb 9 (length b) then index b 8 else ok 0) >>= λ (bypass : ℕ). ok (record {
        enabled = at b 0 == 1;
        status = int8 (at b 1);
        volts = sfloat_at b 2;
        amps = sfloat_at b 4;
        watts = sfloat_at b 6;
        bypass = bypass == 1;
      })

  unfoldable pub parse_type_c : Bytes → Result ProtoError (TypeCPort F)
  parse_type_c b =
      if ltb (length b) 10
      then err (typec_short (length b))
      else (if leb 12 (length b) then index b 11 else ok 0) >>= λ (mode : ℕ).
          (if leb 13 (length b) then index b 12 else ok 0) >>= λ (dc_input : ℕ). ok (record {
            enabled = at b 0 == 1;
            status = int8 (at b 1);
            volts = sfloat_at b 2;
            amps = sfloat_at b 4;
            watts = sfloat_at b 6;
            temp_c = sfloat_at b 8;
            mode = mode;
            dc_input = dc_input == 1;
          })
