-- ===== src/Tests/Automation.antt =====
-- The rules engine at concrete ticks.
use openwrt_wattline.Common.Bytes.{Bytes}
use openwrt_wattline.Actions.{
  Device, Executor, WebhookPayload, unknown_action, validate_action, one, one-validate_action,
}
use openwrt_wattline.Common.Result.{Result, ok, err}
use openwrt_wattline.Common.{
  ◌+◌, ℕ, ◌*◌, ◌≤◌, true, String, some, none, List, [], ◌∷◌, ◌≡◌, ◌≢◌, ◌↔◌, refl, arith, inr,
  if◌then◌else◌,
}
use openwrt_wattline.Common.Clock.{Time, zero_time, second, hour, since}
use openwrt_wattline.Common.Int.{pos, ◌≤ℤ◌}
use openwrt_wattline.Rules.Condition.{condition_true}
use openwrt_wattline.Rules.Engine.{
  RuleState, find_state, build_one, set_rules, tick_condition, tick_true, tick_one,
}
use openwrt_wattline.Rules.Engine.Firing.{IsDue, tick_one-IsDue, tick_one-schedule}
use openwrt_wattline.Rules.Engine.Holding.{
  Tick, IsIdle, after, firings, row_start, recessions, count_fire, hold_start-row_start, fires_held,
  firings-le,
}
use openwrt_wattline.Rules.Engine.Reload.{WellBuilt, set_rules_same}
use openwrt_wattline.Tests.Data.{
  fixed, parse_cron, next_run, low_battery, hourly, new_state, snapshot_at,
}

abbrev low : RuleState ℕ ℕ
low = new_state low_battery none

abbrev hourly_due : RuleState ℕ ℕ
hourly_due = record (new_state hourly (some hour)) { next_cron = hour }

tick_one-IsDue_example :
    ((tick_one fixed next_run (snapshot_at true 10) second low).1 ≡ true)
    ↔ IsDue fixed next_run (snapshot_at true 10) second low
tick_one-IsDue_example = tick_one-IsDue fixed next_run (snapshot_at true 10) second low refl

tick_one-schedule_example :
    (((tick_one fixed next_run (snapshot_at true 10) hour hourly_due).1 ≡ true)
      ↔ ((true ≡ true) × (true ≡ true) × (hour ≢ zero_time) × (hour ≤ hour)))
    × ((tick_one fixed next_run (snapshot_at true 10) hour hourly_due).0.last_fired ≡ (
        if (tick_one fixed next_run (snapshot_at true 10) hour hourly_due).1
        then hour
        else zero_time))
    × ((tick_one fixed next_run (snapshot_at true 10) hour hourly_due).0.next_cron ≡ (
        if (tick_one fixed next_run (snapshot_at true 10) hour hourly_due).1
        then 2 * hour
        else hour))
tick_one-schedule_example =
    tick_one-schedule fixed next_run (snapshot_at true 10) hour hourly_due hour refl

-- three ticks at 10 percent, the latest first
abbrev earlier_ticks : List (Tick ℕ String)
earlier_ticks = (snapshot_at true 10, 31 * second) ∷ (snapshot_at true 10, second) ∷ []

low-IsIdle : IsIdle low
low-IsIdle = record { enabled = refl; telemetry = refl; idle = refl }

hold_start-row_start_example : (after fixed next_run low earlier_ticks).hold_start ≡ second
unfolding row_start condition_true
hold_start-row_start_example =
    hold_start-row_start fixed next_run low earlier_ticks low-IsIdle
      (omega arith, (omega arith, tt))

third_fires :
    (tick_one fixed next_run
      (snapshot_at true 10)
      (61 * second)
      (after fixed next_run low earlier_ticks)).1
    ≡ true
unfolding after tick_one tick_condition tick_true condition_true
third_fires = refl

fires_held_example :
    (start : Time) × (row_start fixed low_battery
        ((snapshot_at true 10, 61 * second) ∷ earlier_ticks)
      ≡ some start)
    × (pos (60 * second) ≤ℤ since (61 * second) start)
fires_held_example =
    fires_held fixed next_run low (snapshot_at true 10) (61 * second) earlier_ticks low-IsIdle
      (omega arith, (omega arith, (omega arith, tt))) third_fires

firings-le_example :
    firings fixed next_run low earlier_ticks
    ≤ count_fire true (recessions fixed low_battery earlier_ticks)
firings-le_example = firings-le fixed next_run low earlier_ticks refl (omega arith)

low-WellBuilt : WellBuilt parse_cron low
unfolding build_one
low-WellBuilt = record { built = refl; unscheduled = inr refl }

set_rules_same_example : set_rules parse_cron (low_battery ∷ []) (low ∷ []) ≡ (low ∷ [], none)
unfolding find_state
set_rules_same_example = set_rules_same parse_cron (low ∷ []) (low-WellBuilt, tt) (refl, tt)

-- a device that always obeys, a server that answers 200, and telemetry that has no JSON
abbrev obedient : Device ℕ String
obedient = record {
  dc_control = λ on w. (w + 1, none);
  type_c_output = λ on w. (w + 1, none);
  bypass_control = λ on w. (w + 1, none);
  restart = λ w. (w + 1, none);
  shutdown = λ w. (w + 1, none);
}

abbrev executor : Executor ℕ String
executor = record { dev = obedient; name = "pack"; post = λ url body w. (w + 1, ok 200) }

abbrev no_json : WebhookPayload ℕ String → Result String Bytes
no_json payload = err "unsupported value"

usbc_off_valid : validate_action "usbc_off" ≡ true
unfolding validate_action
usbc_off_valid = refl

one-validate_action_example :
    (one no_json executor (snapshot_at true 10) "r" second "usbc_off" 0).1
    ≢ some (unknown_action "usbc_off")
one-validate_action_example =
    one-validate_action no_json executor (snapshot_at true 10) "r" second "usbc_off" "usbc_off" 0
      usbc_off_valid
