-- ===== src/Control/Timers.antt =====
-- timers.go: the limits of the USB-C port, and the timers.
use openwrt_wattline.Common.{List, ℕ, false, ◌||◌, none, some, ◌==◌, nat_eq, if◌then◌else◌}
use openwrt_wattline.Common.Int.{ℤ, pos, ltb_ℤ, pos_part}
use openwrt_wattline.Common.Result.{Result, ok, err}
use openwrt_wattline.Proto.Controls.{
  validate_limit_write, limit_global, limit_output, limit_runtime,
}
use openwrt_wattline.Proto.Schedule.{Timer, validate_timer_write}
use openwrt_wattline.Control.{
  ControlError, refused, limit_type, limit_mutable, timer_reserved, not_found, ble, Surroundings,
  supports_limits, supports_timers,
}
use openwrt_wattline.Control.Requests.{Session, gated}

module _ {W S E F : Type 0} (d : Surroundings W S E F) (ops : Session W S E F) where
  abbrev limit_gated : {A : Type 0} → (S → W → W × Result E A) → W → W × Result (ControlError E) A
  limit_gated = gated d supports_limits false

  unfoldable pub limit_of : ℤ → W → W × Result (ControlError E) ℤ
  limit_of typ w =
      if ltb_ℤ typ (pos limit_global) || ltb_ℤ (pos limit_runtime) typ
      then (w, err limit_type)
      else limit_gated (λ s. ops.get_usbc_limit s typ) w

  unfoldable pub change_limit : ℤ → ℤ → W → W × Result (ControlError E) ℤ
  change_limit typ level w =
      if ltb_ℤ typ (pos limit_global) || ltb_ℤ (pos limit_output) typ
      then (w, err limit_mutable)
      else elim (validate_limit_write (pos_part typ) level) [
        | some e ↦ (w, err (refused e))
        | none ↦ limit_gated (λ s. ops.put_usbc_limit s typ level) w
      ]

  unfoldable pub clear_limit : ℤ → W → W × Result (ControlError E) ℤ
  clear_limit typ w =
      if ltb_ℤ typ (pos limit_global) || ltb_ℤ (pos limit_output) typ
      then (w, err limit_mutable)
      else limit_gated (λ s. ops.delete_usbc_limit s typ) w

  abbrev timer_gated : {A : Type 0} → (S → W → W × Result E A) → W → W × Result (ControlError E) A
  timer_gated = gated d supports_timers false

  -- timerError, on the errors that a call of the session gave
  unfoldable pub timer_error :
      {A : Type 0} → W × Result (ControlError E) A → W × Result (ControlError E) A
  timer_error (w, ok a) = (w, ok a)
  timer_error (w, err (ble e)) = (w, err (if ops.is_timer_not_found e then not_found else ble e))
  timer_error (w, err e) = (w, err e)

  unfoldable pub timers : W → W × Result (ControlError E) (List Timer)
  timers = timer_gated ops.list_timers

  unfoldable pub timer_at : ℕ → W → W × Result (ControlError E) Timer
  timer_at id w =
      if id == 0xff
      then (w, err timer_reserved)
      else timer_error (timer_gated (λ s. ops.get_timer s id) w)

  unfoldable pub new_timer : Timer → W → W × Result (ControlError E) (List Timer × ℕ)
  new_timer timer w = elim (validate_timer_write timer) [
    | some e ↦ (w, err (refused e))
    | none ↦ timer_gated (λ s. ops.add_timer s timer) w
  ]

  unfoldable pub change_timer : ℕ → Timer → W → W × Result (ControlError E) (List Timer)
  change_timer id timer w =
      if id == 0xff then (w, err timer_reserved) else elim (validate_timer_write timer) [
        | some e ↦ (w, err (refused e))
        | none ↦ timer_error (timer_gated (λ s. ops.put_timer s id timer) w)
      ]

  unfoldable pub drop_timer : ℕ → W → W × Result (ControlError E) (List Timer)
  drop_timer id w =
      if id == 0xff
      then (w, err timer_reserved)
      else timer_error (timer_gated (λ s. ops.delete_timer s id) w)
