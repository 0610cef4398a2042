-- ===== src/Rules/Condition.antt =====
-- The conditions of engine.go, evaluated on a snapshot.
use openwrt_wattline.Common.{
  Bool, false, not, ◌||◌, Option, none, some, ◌==◌, string_eq, nat_eq, if◌then◌else◌,
}
use openwrt_wattline.Common.Float64.{Float64}
use openwrt_wattline.Common.Int.{pos, negsuc, ◌+ℤ◌, ◌-ℤ◌, ltb_ℤ, leb_ℤ}
use openwrt_wattline.Config.Rule.{Rule}
use openwrt_wattline.Proto.Telemetry.{Battery, DcPort, TypeCPort}
use openwrt_wattline.State.Snapshot.{Snapshot}

-- s.Battery != nil && s.Battery.Status == 1
abbrev pub charging : {F : Type 0} → Option (Battery F) → Bool
charging none = false
charging (some b) = elim b.status [ pos n ↦ n == 1 | negsuc n ↦ false ]

-- s.TypeC != nil && s.TypeC.DCInput
abbrev pub feeding : {F : Type 0} → Option (TypeCPort F) → Bool
feeding none = false
feeding (some c) = c.dc_input

module _ {F : Type 0} (fl : Float64 F) where
  open fl use {lt, le, add, sub, of_int}

  abbrev pub level_test : Rule F → Option (Battery F) → Bool
  level_test r none = false
  level_test r (some b) =
      if r.op == "below" then ltb_ℤ (pos b.level) r.percent else ltb_ℤ r.percent (pos b.level)

  abbrev pub watts_test : Rule F → F → Bool
  watts_test r w = if r.op == "below" then lt w r.watts else lt r.watts w

  abbrev pub dc_test : Rule F → Option (DcPort F) → Bool
  dc_test r none = false
  dc_test r (some d) = watts_test r d.watts

  abbrev pub usbc_test : Rule F → Option (TypeCPort F) → Bool
  usbc_test r none = false
  usbc_test r (some c) = watts_test r c.watts

  abbrev pub temperature_test : Rule F → Option (TypeCPort F) → Bool
  temperature_test r none = false
  temperature_test r (some c) =
      if r.op == "below" then lt c.temp_c r.temp_c else lt r.temp_c c.temp_c

  unfoldable pub condition_true : {V : Type 0} → Rule F → Snapshot F V → Bool
  condition_true r s =
      if r.condition == "input_power"
      then (let present = charging s.battery || feeding s.type_c in
          if r.state == "present" then present else not present)
      else if r.condition == "battery_level"
      then level_test r s.battery
      else if r.condition == "port_power"
      then (if r.port == "dc"
          then dc_test r s.dc
          else if r.port == "usbc"
          then usbc_test r s.type_c
          else false)
      else if r.condition == "temperature"
      then temperature_test r s.type_c
      else false

  -- the re-arm test of a battery rule, where there is a battery
  abbrev pub level_rearm : Rule F → Battery F → Bool
  level_rearm r b =
      if r.op == "below"
      then leb_ℤ (r.percent +ℤ r.hysteresis_margin) (pos b.level)
      else leb_ℤ (pos b.level) (r.percent -ℤ r.hysteresis_margin)

  abbrev pub temperature_rearm : Rule F → TypeCPort F → Bool
  temperature_rearm r c =
      let m = of_int r.hysteresis_margin in
      if r.op == "below" then le (add r.temp_c m) c.temp_c else le c.temp_c (sub r.temp_c m)

  unfoldable pub rearm_true : {V : Type 0} → Rule F → Snapshot F V → Bool
  rearm_true r s =
      let otherwise : Bool = not (condition_true r s) in
      if r.condition == "battery_level"
      then elim s.battery [ none ↦ otherwise | some b ↦ level_rearm r b ]
      else if r.condition == "temperature"
      then elim s.type_c [ none ↦ otherwise | some c ↦ temperature_rearm r c ]
      else otherwise
