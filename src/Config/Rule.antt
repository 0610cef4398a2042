-- ===== src/Config/Rule.antt =====
-- The rules of config.go and their validation. `F` is float64.
use openwrt_wattline.Common.{
  Bool, true, false, not, ◌&&◌, ◌||◌, Option, none, some, List, [], ◌∷◌, String, ◌==◌, string_eq,
  is_some, if◌then◌else◌,
}
use openwrt_wattline.Common.Clock.{Duration}
use openwrt_wattline.Common.Int.{ℤ}

pub record Rule (F : Type 0) : Type 0 where
  pub name : String
  pub enabled : Bool
  pub condition : String
  pub state : String
  pub op : String
  pub port : String
  pub percent : ℤ
  pub watts : F
  pub temp_c : F
  pub hold : Duration
  pub repeat_every : Duration
  pub hysteresis_margin : ℤ
  pub cron : String
  pub actions : List String
  pub confirm_shutdown : Bool

pub data RuleError : Type 0 where
  name_required : RuleError
  state_needed : RuleError
  op_needed : String → RuleError
  port_needed : RuleError
  cron_needed : RuleError
  invalid_cron : String → RuleError
  unknown_condition : String → RuleError
  no_actions : RuleError
  shutdown_unconfirmed : RuleError

unfoldable pub has_shutdown : List String → Bool
has_shutdown [] = false
has_shutdown (a ∷ actions) = a == "shutdown" || has_shutdown actions

is_op : String → Bool
is_op op = op == "below" || op == "above"

abbrev is_empty : List String → Bool
is_empty [] = true
is_empty (_ ∷ _) = false

-- `parse` is cron's parser of the five-field form, a package that the source only calls.
module _ {F C : Type 0} (parse : String → Option C) where
  -- the `switch` on the condition; `none` goes on to the actions
  unfoldable pub check_condition : Rule F → Option RuleError
  unfolding is_op
  check_condition r =
      if r.condition == "input_power"
      then (if not (r.state == "present") && not (r.state == "absent")
          then some state_needed
          else none)
      else if r.condition == "battery_level"
      then (if not (is_op r.op) then some (op_needed r.condition) else none)
      else if r.condition == "port_power"
      then (if not (is_op r.op) || not (r.port == "dc" || r.port == "usbc")
          then some port_needed
          else none)
      else if r.condition == "temperature"
      then (if not (is_op r.op) then some (op_needed r.condition) else none)
      else if r.condition == "schedule"
      then (if r.cron == ""
          then some cron_needed
          else if is_some (parse r.cron)
          then none
          else some (invalid_cron r.cron))
      else some (unknown_condition r.condition)

  -- `none` is the nil error.
  unfoldable pub validate : Rule F → Option RuleError
  validate r =
      if r.name == ""
      then some name_required
      else if is_some (check_condition r)
      then check_condition r
      else if is_empty r.actions
      then some no_actions
      else if has_shutdown r.actions && not r.confirm_shutdown
      then some shutdown_unconfirmed
      else none
