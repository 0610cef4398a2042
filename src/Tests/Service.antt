-- ===== src/Tests/Service.antt =====
-- The command service over a device that reports what it was told.
use openwrt_wattline.Common.{
  ℕ, String, Bool, true, false, not, ◌||◌, none, some, [], ◌∷◌, ◌≡◌, ◌⊎◌, refl, ◌≢◌,
}
use openwrt_wattline.Common.Clock.{zero_time}
use openwrt_wattline.Common.Int.{pos}
use openwrt_wattline.Common.Result.{Result, ok, err}
use openwrt_wattline.Proto.Features.{decode_features}
use openwrt_wattline.Proto.Telemetry.{DcPort}
use openwrt_wattline.State.Snapshot.{Snapshot, Identity}
use openwrt_wattline.State.Store.{Store}
use openwrt_wattline.State.Waiting.{deadline_exceeded}
use openwrt_wattline.Control.{Payload, Surroundings, plan_dc, reconcile}
use openwrt_wattline.Control.Requests.{
  Session, session_for, gated, get_bypass_threshold, change_bypass_threshold, get_barrier_free,
  change_barrier_free, change_running_mode, get_usb_firmware, change_ble_pin, read_device_clock,
  sync_device_clock, get_ota_info, start_ota, leave_ota,
}
use openwrt_wattline.Control.Completion.{
  IsOrderly, NotBegun, checked, named, Finished, reconcile-Finished,
}
use openwrt_wattline.Control.Gate.{tested, gated-session_for, gated-advanced}
use openwrt_wattline.Tests.Data.{fixed}

abbrev World : Type 0
World = Store ℕ (Payload ℕ)

abbrev powered : DcPort ℕ
powered = record {
  enabled = true;
  status = pos 0;
  volts = 1200;
  amps = 100;
  watts = 1200;
  bypass = false;
}

abbrev device : Identity
device = record {
  model = "LP";
  hw_rev = "1";
  app_firmware = "1";
  bootloader_firmware = "1";
  mac = "";
  cid = 0;
  features = 0xffff;
  feature_set = decode_features 0xffff;
  mode = "app";
  characteristics = λ name. true;
  readable_characteristics = λ name. true;
}

abbrev snapshot : Snapshot ℕ (Payload ℕ)
snapshot = record {
  battery = none;
  dc = none;
  type_c = none;
  connected = true;
  updated_at = zero_time;
  device = some device;
  connection = none;
  pending_commands = [];
  recent_commands = [];
}

abbrev world : World
world = record { snap = snapshot; history = []; last_min = zero_time; subs = []; waiters = [] }

-- The waiter is handed one frame, in which the DC output is on.
abbrev around : Surroundings World Bool ℕ ℕ
around = record {
  ctx_error = λ w. (w, none);
  resolve = λ w. (w, some true);
  now = λ w. (w, 5);
  new_id = λ w. (w, some "cmd_1");
  advanced = λ w. (w, false);
  store_clock = λ w. (w, 6, 7);
  control = λ s c w. (w, none);
  published = λ t w. (w, record snapshot { dc = some powered } ∷ [], deadline_exceeded);
  store = λ w. w;
  set_store = λ s w. s;
}

around-IsOrderly : (id : String) → IsOrderly fixed around id
around-IsOrderly id = record {
  get_set = λ s w. refl;
  ctx_keeps = λ c w h. h;
  clock_keeps = λ c w h. h;
  control_keeps = λ c s o w h. h;
  published_keeps = λ c t w h. h;
}

reconcile-Finished_example :
    NotBegun fixed around world (reconcile fixed around (plan_dc fixed true) world)
    ⊎ ((id : String) × ((checked fixed around world).1 ≡ none)
        × ((named fixed around world).1 ≡ some id)
        × (id ≢ "")
        × Finished fixed around id
            (plan_dc fixed true)
            (reconcile fixed around (plan_dc fixed true) world))
reconcile-Finished_example =
    reconcile-Finished fixed around (plan_dc fixed true) world (λ id e. around-IsOrderly id)

-- Any call that returns what it is given.
abbrev echo : Bool → World → World × Result ℕ ℕ
echo s w = (w, ok 7)

echo_returns : (gated around (λ sn. sn.connected) false echo world).1 ≡ ok 7
unfolding gated session_for
echo_returns = refl

gated-session_for_example :
    (s : Bool) × ((echo s (session_for around (λ sn. sn.connected) false world).0).1 ≡ ok 7)
    × ((around.ctx_error world).1 ≡ none)
    × ((tested around false world).connected ≡ true)
    × ((not false || (around.advanced (around.ctx_error world).0).1) ≡ true)
gated-session_for_example =
    gated-session_for around (λ sn. sn.connected) false echo world 7 echo_returns

abbrev failing : Session World Bool ℕ ℕ
failing = record {
  get_usbc_limit = λ s typ w. (w, err 1);
  put_usbc_limit = λ s typ level w. (w, err 1);
  delete_usbc_limit = λ s typ w. (w, err 1);
  bypass_threshold = λ s w. (w, err 1);
  put_bypass_threshold = λ s v w. (w, err 1);
  list_timers = λ s w. (w, err 1);
  get_timer = λ s id w. (w, err 1);
  add_timer = λ s t w. (w, err 1);
  put_timer = λ s id t w. (w, err 1);
  delete_timer = λ s id w. (w, err 1);
  barrier_free = λ s w. (w, err 1);
  set_barrier_free = λ s on w. (w, err 1);
  set_running_mode = λ s mode w. (w, err 1);
  usb_firmware_version = λ s w. (w, err 1);
  set_ble_pin = λ s pin w. (w, err 1);
  read_clock = λ s w. (w, err 1);
  sync_clock = λ s now zone w. (w, err 1);
  ota_info = λ s w. (w, err 1);
  enter_ota = λ s w. (w, err 1);
  exit_ota = λ s w. (w, err 1);
  restart = λ s w. (w, err 1);
  shutdown = λ s w. (w, err 1);
  is_timer_not_found = λ e. false;
}

abbrev working : Session World Bool ℕ ℕ
working = record failing {
  bypass_threshold = λ s w. (w, ok 1200);
  barrier_free = λ s w. (w, ok true);
  set_ble_pin = λ s pin w. (w, ok tt);
  enter_ota = λ s w. (w, ok tt);
}

gated-advanced_example :
    (get_bypass_threshold fixed around working world
      ≡ get_bypass_threshold fixed around failing world)
    × (change_bypass_threshold fixed around working 1200 world
        ≡ change_bypass_threshold fixed around failing 1200 world)
    × (get_barrier_free fixed around working world ≡ get_barrier_free fixed around failing world)
    × (change_barrier_free fixed around working true world
        ≡ change_barrier_free fixed around failing true world)
    × (change_running_mode fixed around working 1 world
        ≡ change_running_mode fixed around failing 1 world)
    × (get_usb_firmware fixed around working world ≡ get_usb_firmware fixed around failing world)
    × (change_ble_pin fixed around working 123456 world
        ≡ change_ble_pin fixed around failing 123456 world)
    × (read_device_clock fixed around working world ≡ read_device_clock fixed around failing world)
    × (sync_device_clock fixed around working 9 world
        ≡ sync_device_clock fixed around failing 9 world)
    × (get_ota_info fixed around working world ≡ get_ota_info fixed around failing world)
    × (start_ota fixed around working world ≡ start_ota fixed around failing world)
    × (leave_ota fixed around working world ≡ leave_ota fixed around failing world)
gated-advanced_example =
    gated-advanced fixed around working failing 1200 true 1 123456 9 world (λ w. refl)
