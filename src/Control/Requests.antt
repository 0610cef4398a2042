-- ===== src/Control/Requests.antt =====
-- service.go: the requests that go straight to the session, behind sessionFor.
use openwrt_wattline.Common.{
  List, ℕ, Bool, true, false, not, ◌&&◌, ◌||◌, none, some, ◌==◌, string_eq, nat_eq, ltb,
  if◌then◌else◌,
}
use openwrt_wattline.Common.Bytes.{Bytes}
use openwrt_wattline.Common.Clock.{Time}
use openwrt_wattline.Common.Float64.{Float64}
use openwrt_wattline.Common.Int.{ℤ, pos}
use openwrt_wattline.Common.Result.{Result, ok, err}
use openwrt_wattline.Proto.Lifecycle.{OtaInfo}
use openwrt_wattline.Proto.Schedule.{Timer}
use openwrt_wattline.State.Snapshot.{Snapshot, Identity}
use openwrt_wattline.Control.{
  ControlError, disconnected, unsupported, advanced_disabled, ble, ended, running_mode, pin_range,
  threshold_range, Payload, Surroundings, app_command,
}

-- The other methods of Session. A method without a value gives Unit; `is_timer_not_found` is
-- errors.Is with proto.ErrTimerNotFound.
pub record Session (W S E F : Type 0) : Type 0 where
  pub get_usbc_limit : S → ℤ → W → W × Result E ℤ
  pub put_usbc_limit : S → ℤ → ℤ → W → W × Result E ℤ
  pub delete_usbc_limit : S → ℤ → W → W × Result E ℤ
  pub bypass_threshold : S → W → W × Result E F
  pub put_bypass_threshold : S → F → W → W × Result E F
  pub list_timers : S → W → W × Result E (List Timer)
  pub get_timer : S → ℕ → W → W × Result E Timer
  pub add_timer : S → Timer → W → W × Result E (List Timer × ℕ)
  pub put_timer : S → ℕ → Timer → W → W × Result E (List Timer)
  pub delete_timer : S → ℕ → W → W × Result E (List Timer)
  pub barrier_free : S → W → W × Result E Bool
  pub set_barrier_free : S → Bool → W → W × Result E Bool
  pub set_running_mode : S → ℕ → W → W × Result E Unit
  pub usb_firmware_version : S → W → W × Result E Bytes
  pub set_ble_pin : S → ℕ → W → W × Result E Unit
  pub read_clock : S → W → W × Result E (Time × Bool)
  pub sync_clock : S → Time → ℕ → W → W × Result E Unit
  pub ota_info : S → W → W × Result E OtaInfo
  pub enter_ota : S → W → W × Result E Unit
  pub exit_ota : S → W → W × Result E Unit
  pub restart : S → W → W × Result E Unit
  pub shutdown : S → W → W × Result E Unit
  pub is_timer_not_found : E → Bool

-- the tests of `identity`, without the command characteristic
unfoldable pub with_identity : {F V : Type 0} → (Identity → Bool) → Snapshot F V → Bool
with_identity capability sn = elim sn.device [ none ↦ false | some id ↦ capability id ]

abbrev wrap_ble : {E A : Type 0} → Result E A → Result (ControlError E) A
wrap_ble (ok a) = ok a
wrap_ble (err e) = err (ble e)

module _ {W S E F : Type 0} (d : Surroundings W S E F) where
  unfoldable pub session_for :
      (Snapshot F (Payload F) → Bool) → Bool → W → W × Result (ControlError E) S
  session_for supported advanced w =
      let (w1, over) = d.ctx_error w in
      let (w2, enabled) = d.advanced w1 in
      let (w3, session) = d.resolve (if advanced then w2 else w1) in
      elim over [
        | some e ↦ (w1, err (ended e))
        | none ↦
            if advanced && not (supported (d.store w1).snap)
            then (w1, err unsupported)
            else if advanced && not enabled
            then (w2, err advanced_disabled)
            else elim session [
              | none ↦ (w3, err disconnected)
              | some s ↦
                  if not advanced && not (supported (d.store w3).snap)
                  then (w3, err unsupported)
                  else (w3, ok s)
            ]
      ]

  -- sessionFor, then one call of the session
  unfoldable pub gated :
      {A : Type 0}
      → (Snapshot F (Payload F) → Bool)
      → Bool
      → (S → W → W × Result E A)
      → W
      → W × Result (ControlError E) A
  gated supported advanced call w =
      let (w1, session) = session_for supported advanced w in
      elim session [ err e ↦ (w1, err e) | ok s ↦ let (w2, r) = call s w1 in (w2, wrap_ble r) ]

  -- advancedCommand, then one call
  unfoldable pub advanced_command :
      {A : Type 0}
      → (Identity → Bool)
      → (S → W → W × Result E A)
      → W
      → W × Result (ControlError E) A
  advanced_command capability = gated (app_command capability) true

  -- Restart and Shutdown: the context is read behind the call
  unfoldable pub and_context : W × Result (ControlError E) Unit → W × Result (ControlError E) Unit
  and_context (w, err e) = (w, err e)
  and_context (w, ok u) =
      let (w1, over) = d.ctx_error w in
      elim over [ none ↦ (w1, ok u) | some e ↦ (w1, err (ended e)) ]

module _ {W S E F : Type 0} (fl : Float64 F) (d : Surroundings W S E F)
    (ops : Session W S E F) where
  unfoldable pub get_bypass_threshold : W → W × Result (ControlError E) F
  get_bypass_threshold = advanced_command d (λ id. id.feature_set.dc_bypass) ops.bypass_threshold

  unfoldable pub change_bypass_threshold : F → W → W × Result (ControlError E) F
  change_bypass_threshold volts w =
      if fl.le volts (fl.of_int (pos 0)) || fl.lt (fl.of_int (pos 60)) volts
      then (w, err threshold_range)
      else advanced_command d (λ id. id.feature_set.dc_bypass)
          (λ s. ops.put_bypass_threshold s volts) w

  unfoldable pub get_barrier_free : W → W × Result (ControlError E) Bool
  get_barrier_free = advanced_command d (λ id. true) ops.barrier_free

  unfoldable pub change_barrier_free : Bool → W → W × Result (ControlError E) Bool
  change_barrier_free on = advanced_command d (λ id. true) (λ s. ops.set_barrier_free s on)

  unfoldable pub change_running_mode : ℕ → W → W × Result (ControlError E) Unit
  change_running_mode mode w =
      if ltb 1 mode
      then (w, err running_mode)
      else advanced_command d (λ id. id.feature_set.factory_mode) (λ s. ops.set_running_mode s mode)
          w

  unfoldable pub get_usb_firmware : W → W × Result (ControlError E) Bytes
  get_usb_firmware = advanced_command d (λ id. id.feature_set.usb_port) ops.usb_firmware_version

  unfoldable pub change_ble_pin : ℕ → W → W × Result (ControlError E) Unit
  change_ble_pin pin w =
      if ltb 999999 pin
      then (w, err pin_range)
      else advanced_command d (λ id. true) (λ s. ops.set_ble_pin s pin) w

  unfoldable pub read_device_clock : W → W × Result (ControlError E) (Time × Bool)
  read_device_clock = gated d (with_identity (λ id. id.mode == "app")) true ops.read_clock

  unfoldable pub sync_device_clock : Time → W → W × Result (ControlError E) Unit
  sync_device_clock now =
      gated d (with_identity (λ id. id.mode == "app" && id.characteristics "current_time")) true
        (λ s. ops.sync_clock s now 0)

  unfoldable pub get_ota_info : W → W × Result (ControlError E) OtaInfo
  get_ota_info =
      gated d
        (with_identity (λ id. (id.mode == "app" || id.mode == "ota") && id.characteristics "ota"))
        true ops.ota_info

  unfoldable pub start_ota : W → W × Result (ControlError E) Unit
  start_ota =
      gated d (with_identity (λ id. id.mode == "app" && id.characteristics "ota")) true
        ops.enter_ota

  unfoldable pub leave_ota : W → W × Result (ControlError E) Unit
  leave_ota =
      gated d (with_identity (λ id. id.mode == "ota" && id.characteristics "ota")) true ops.exit_ota

  unfoldable pub restart_device : W → W × Result (ControlError E) Unit
  restart_device w = and_context d (gated d (app_command (λ id. true)) false ops.restart w)

  unfoldable pub shut_down : W → W × Result (ControlError E) Unit
  shut_down w = and_context d (
      gated d
        (with_identity
          (λ id. id.mode == "app" && id.feature_set.shutdown && id.characteristics "factory"))
        false ops.shutdown w)
