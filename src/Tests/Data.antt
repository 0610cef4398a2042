-- ===== src/Tests/Data.antt =====
-- Concrete data for the runs. A float64 is a number of hundredths here, and no value is NaN or
-- negative; cron has one expression, for every hour.
use openwrt_wattline.Common.{
  ℕ, ◌+◌, ◌*◌, ◌/◌, ◌-◌, ◌%◌, ◌^◌, leb, ltb, Bool, true, false, String, Option, none, some, [], ◌∷◌,
  if◌then◌else◌, ◌==◌, string_eq,
}
use openwrt_wattline.Common.Clock.{Time, second, hour}
use openwrt_wattline.Common.Float64.{Float64}
use openwrt_wattline.Common.Int.{ℤ, pos, negsuc}
use openwrt_wattline.Config.Rule.{Rule}
use openwrt_wattline.Proto.Telemetry.{Battery}
use openwrt_wattline.Rules.Engine.{RuleState}
use openwrt_wattline.State.Snapshot.{Snapshot, Command, pending}
use openwrt_wattline.State.Store.{Store}

abbrev hundred_to : ℤ → ℕ
hundred_to (pos n) = 100 * 10 ^ n
hundred_to (negsuc n) = 100 / 10 ^ (n + 1)

abbrev hundredths : ℤ → ℕ
hundredths (pos n) = n * 100
hundredths (negsuc n) = 0

abbrev pub fixed : Float64 ℕ
fixed = record {
  nan = 0;
  is_nan = λ _. false;
  lt = ltb;
  le = leb;
  add = λ a b. a + b;
  sub = λ a b. a - b;
  mul = λ a b. a * b / 100;
  div = λ a b. a * 100 / b;
  of_int = hundredths;
  to_int = λ a. pos (a / 100);
  pow10 = hundred_to;
  round = λ a. (a + 50) / 100 * 100;
}

abbrev pub parse_cron : String → Option ℕ
parse_cron e = if e == "0 * * * *" then some hour else none

abbrev pub next_run : ℕ → Time → Time
next_run period now = now - now % period + period

-- below 20 percent for a minute: shut down
abbrev pub low_battery : Rule ℕ
low_battery = record {
  name = "low";
  enabled = true;
  condition = "battery_level";
  state = "";
  op = "below";
  port = "";
  percent = pos 20;
  watts = 0;
  temp_c = 0;
  hold = pos (60 * second);
  repeat_every = pos 0;
  hysteresis_margin = pos 5;
  cron = "";
  actions = "dc_off" ∷ [];
  confirm_shutdown = false;
}

abbrev pub hourly : Rule ℕ
hourly = record low_battery { name = "hourly"; condition = "schedule"; cron = "0 * * * *" }

abbrev pub new_state : Rule ℕ → Option ℕ → RuleState ℕ ℕ
new_state r sched = record {
  rule = r;
  sched = sched;
  next_cron = 0;
  hold_start = 0;
  armed = true;
  last_fired = 0;
}

abbrev pub battery_at : ℕ → Battery ℕ
battery_at level = record {
  enabled = true;
  status = negsuc 0;
  full = false;
  max_wh = 500;
  wh = 100;
  level = level;
  volts = 12;
  amps = 1;
  watts = 12;
  remain_min = 90;
}

abbrev pub snapshot_at : Bool → ℕ → Snapshot ℕ String
snapshot_at connected level = record {
  battery = some (battery_at level);
  dc = none;
  type_c = none;
  connected = connected;
  updated_at = 0;
  device = none;
  connection = none;
  pending_commands = [];
  recent_commands = [];
}

abbrev pub turn_on : Command String
turn_on = record {
  id = "c1";
  operation = "dc";
  phase = pending;
  requested = some "on";
  observed = none;
  started_at = 5;
  updated_at = 5;
  error = none;
}

abbrev pub empty_store : Store ℕ String
empty_store = record {
  snap = snapshot_at true 50;
  history = [];
  last_min = 0;
  subs = [];
  waiters = [];
}

abbrev pub busy_store : Store ℕ String
busy_store = record empty_store {
  snap = record (snapshot_at true 50) { pending_commands = turn_on ∷ [] };
}
