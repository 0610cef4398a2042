-- ===== src/Ble/Controls.antt =====
-- controls.go and advanced.go of internal/ble, but for the timers: the USB-C limits, the bypass
-- threshold, and the advanced settings.
use openwrt_wattline.Common.{
  ℕ, Bool, false, ◌||◌, Option, none, some, length, ltb, ◌==◌, nat_eq, if◌then◌else◌, ◌≡◌, ◌≢◌,
  arith,
}
use openwrt_wattline.Common.Bytes.{Bytes, at}
use openwrt_wattline.Common.Float64.{Float64}
use openwrt_wattline.Common.Int.{ℤ, pos, negsuc, byte_of}
use openwrt_wattline.Common.Result.{Result, ok, err}
use openwrt_wattline.Proto.Error.{ProtoError}
use openwrt_wattline.Proto.Features.{
  barrier_free_get, barrier_free_set, running_mode_set, usb_firmware_get, parse_usb_firmware,
  ble_pin_set,
}
use openwrt_wattline.Proto.Controls.{
  limit_runtime, type_c_limit_get, type_c_limit_set, type_c_limit_clear, parse_type_c_limit,
  bypass_threshold_get, bypass_threshold_set, parse_bypass_threshold, validate_limit_write,
}
use openwrt_wattline.Ble.Session.{
  Transport, SessionError, empty_request, reply_refused, barrier_free_payload, pin_outside, command,
  run, query, then_read,
}

-- typ == proto.LimitRuntime
abbrev is_runtime : ℤ → Bool
is_runtime (pos n) = n == limit_runtime
is_runtime (negsuc n) = false

-- An error of internal/proto, as the session returns it.
unfoldable pub wrapped : {E A : Type 0} → Result ProtoError A → Result (SessionError E) A
wrapped (ok a) = ok a
wrapped (err e) = err (reply_refused e)

unfoldable pub parse_barrier_free : {E : Type 0} → Bytes → Result (SessionError E) Bool
parse_barrier_free payload =
    if ltb (length payload) 1 || ltb 1 (at payload 0)
    then err barrier_free_payload
    else ok (at payload 0 == 1)

module _ {W E : Type 0} (t : Transport W E) where
  -- getUSBCLimitLocked: the result 0xFF stands for "unset" at the runtime limit; elsewhere it goes
  -- with the error, and a level of 0 beside a nil error.
  unfoldable pub get_usbc_limit : ℤ → W → W × Result (SessionError E) ℤ
  get_usbc_limit typ w =
      let (w', a) = command t (type_c_limit_get (byte_of typ)) w in
      if a.result == 0xFF
      then (if is_runtime typ
          then (w', ok (negsuc 0))
          else elim a.error [ some e ↦ (w', err e) | none ↦ (w', ok (pos 0)) ])
      else elim a.error [
        | some e ↦ (w', err e)
        | none ↦ (w', wrapped (parse_type_c_limit a.payload))
      ]

  unfoldable pub put_usbc_limit : ℤ → ℤ → W → W × Result (SessionError E) ℤ
  put_usbc_limit typ level = then_read t (type_c_limit_set (byte_of typ) level) (get_usbc_limit typ)

  unfoldable pub delete_usbc_limit : ℤ → W → W × Result (SessionError E) ℤ
  delete_usbc_limit typ = then_read t (type_c_limit_clear (byte_of typ)) (get_usbc_limit typ)

  unfoldable pub set_usbc_limit : ℤ → ℤ → W → W × Option (SessionError E)
  set_usbc_limit typ level = run t (type_c_limit_set (byte_of typ) level)

  unfoldable pub clear_usbc_limit : ℤ → W → W × Option (SessionError E)
  clear_usbc_limit typ = run t (type_c_limit_clear (byte_of typ))

  unfoldable pub barrier_free : W → W × Result (SessionError E) Bool
  barrier_free = query t barrier_free_get parse_barrier_free

  unfoldable pub set_barrier_free : Bool → W → W × Result (SessionError E) Bool
  set_barrier_free on = then_read t (barrier_free_set on) barrier_free

  unfoldable pub set_running_mode : ℕ → W → W × Option (SessionError E)
  set_running_mode mode = run t (running_mode_set mode)

  unfoldable pub usb_firmware_version : W → W × Result (SessionError E) Bytes
  usb_firmware_version = query t usb_firmware_get (λ payload. wrapped (parse_usb_firmware payload))

  unfoldable pub set_ble_pin : ℕ → W → W × Option (SessionError E)
  set_ble_pin pin w =
      if length (ble_pin_set pin) == 0
      then (w, some (pin_outside pin))
      else run t (ble_pin_set pin) w

  -- A limit that may not be written is refused before the connection is touched: the state stays as
  -- it was, and the error is the one for an empty request.
  pub put_usbc_limit-refused :
      (typ level : ℤ) (w : W)
      → validate_limit_write (byte_of typ) level ≢ none
      → put_usbc_limit typ level w ≡ (w, err empty_request)
  unfolding put_usbc_limit then_read command type_c_limit_set
  put_usbc_limit-refused typ level w h = ground arith

module _ {W E F : Type 0} (t : Transport W E) (fl : Float64 F) where
  unfoldable pub bypass_threshold : W → W × Result (SessionError E) F
  bypass_threshold =
      query t bypass_threshold_get (λ payload. wrapped (parse_bypass_threshold fl payload))

  unfoldable pub set_bypass_threshold : F → W → W × Option (SessionError E)
  set_bypass_threshold volts = run t (bypass_threshold_set fl volts)

  unfoldable pub put_bypass_threshold : F → W → W × Result (SessionError E) F
  put_bypass_threshold volts = then_read t (bypass_threshold_set fl volts) bypass_threshold
