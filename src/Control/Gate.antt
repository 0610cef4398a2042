-- ===== src/Control/Gate.antt =====
-- Which requests reach the device.
use openwrt_wattline.Common.{
  if◌then◌else◌, ltb, ℕ, Bool, true, false, not, ◌||◌, none, ◌≡◌, refl, ap, arith, inl, inr,
}
use openwrt_wattline.Common.Clock.{Time}
use openwrt_wattline.Common.Float64.{Float64}
use openwrt_wattline.Common.Int.{pos}
use openwrt_wattline.Common.Result.{Result, ok, Result-cases}
use openwrt_wattline.State.Snapshot.{Snapshot}
use openwrt_wattline.Control.{Payload, Surroundings}
use openwrt_wattline.Control.Requests.{
  Session, session_for, gated, advanced_command, get_bypass_threshold, change_bypass_threshold,
  get_barrier_free, change_barrier_free, change_running_mode, get_usb_firmware, change_ble_pin,
  read_device_clock, sync_device_clock, get_ota_info, start_ota, leave_ota,
}

module _ {W S E F : Type 0} (d : Surroundings W S E F) where
  -- The snapshot on which sessionFor tests the capability.
  abbrev pub tested : Bool → W → Snapshot F (Payload F)
  tested true w = (d.store (d.ctx_error w).0).snap
  tested false w = (d.store (d.resolve (d.ctx_error w).0).0).snap

  session_for_ok :
      (supported : Snapshot F (Payload F) → Bool) (advanced : Bool) (w : W) (s : S)
      → (session_for d supported advanced w).1 ≡ ok s
      → ((d.ctx_error w).1 ≡ none)
        × (supported (tested advanced w) ≡ true)
        × ((not advanced || (d.advanced (d.ctx_error w).0).1) ≡ true)
  unfolding session_for
  session_for_ok supported true w s h = (ground (arith, h), ground (arith, h), ground (arith, h))
  session_for_ok supported false w s h = (ground (arith, h), ground (arith, h), refl)

  -- A request returns a value only from a session, and only where the context had not ended, the
  -- snapshot says that the device can do it, and, for an advanced request, the advanced operations
  -- are enabled.
  pub gated-session_for :
      {A : Type 0} (supported : Snapshot F (Payload F) → Bool) (advanced : Bool)
      (call : S → W → W × Result E A) (w : W) (a : A)
      → (gated d supported advanced call w).1 ≡ ok a
      → (s : S) × ((call s (session_for d supported advanced w).0).1 ≡ ok a)
        × ((d.ctx_error w).1 ≡ none)
        × (supported (tested advanced w) ≡ true)
        × ((not advanced || (d.advanced (d.ctx_error w).0).1) ≡ true)
  unfolding gated
  gated-session_for {A = A} supported advanced call w a h =
      elim (Result-cases (session_for d supported advanced w).1) [
        | inr (x, e) ↦ absurd (ground (arith, h, e))
        | inl (s, e) ↦
            let w1 = (session_for d supported advanced w).0 in
            let value : (call s w1).1 ≡ ok a = elim (Result-cases (call s w1).1) [
              | inr (x, k) ↦ absurd (ground (arith, h, e, k))
              | inl (b, k) ↦ ground (arith, h, e, k)
            ] in
            let checks = session_for_ok supported advanced w s e in
            (s, value, checks.0, checks.1, checks.2)
      ]

  gated_shut :
      {A : Type 0} (supported : Snapshot F (Payload F) → Bool) (call call' : S → W → W × Result E A)
      (w : W)
      → ((w' : W) → (d.advanced w').1 ≡ false)
      → gated d supported true call w ≡ gated d supported true call' w
  unfolding gated session_for
  gated_shut supported call call' w h = ground (arith, h (d.ctx_error w).0)

kept : {A : Type 0} (b : Bool) (x y z : A) → y ≡ z → (if b then x else y) ≡ (if b then x else z)
kept b x y z e = ap (λ r. if b then x else r) e

module _ {W S E F : Type 0} (fl : Float64 F) (d : Surroundings W S E F)
    (a b : Session W S E F) where
  -- While the advanced operations are disabled, no advanced request reaches the device: with any
  -- other session in its place, each of them does and returns the same.
  pub gated-advanced :
      (volts : F) (on : Bool) (mode pin : ℕ) (now : Time) (w : W)
      → ((w' : W) → (d.advanced w').1 ≡ false)
      → (get_bypass_threshold fl d a w ≡ get_bypass_threshold fl d b w)
        × (change_bypass_threshold fl d a volts w ≡ change_bypass_threshold fl d b volts w)
        × (get_barrier_free fl d a w ≡ get_barrier_free fl d b w)
        × (change_barrier_free fl d a on w ≡ change_barrier_free fl d b on w)
        × (change_running_mode fl d a mode w ≡ change_running_mode fl d b mode w)
        × (get_usb_firmware fl d a w ≡ get_usb_firmware fl d b w)
        × (change_ble_pin fl d a pin w ≡ change_ble_pin fl d b pin w)
        × (read_device_clock fl d a w ≡ read_device_clock fl d b w)
        × (sync_device_clock fl d a now w ≡ sync_device_clock fl d b now w)
        × (get_ota_info fl d a w ≡ get_ota_info fl d b w)
        × (start_ota fl d a w ≡ start_ota fl d b w)
        × (leave_ota fl d a w ≡ leave_ota fl d b w)
  unfolding get_bypass_threshold change_bypass_threshold get_barrier_free change_barrier_free
      change_running_mode get_usb_firmware change_ble_pin read_device_clock sync_device_clock
      get_ota_info start_ota leave_ota advanced_command
  gated-advanced volts on mode pin now w h =
      let outside = fl.le volts (fl.of_int (pos 0)) || fl.lt (fl.of_int (pos 60)) volts in
      (
        gated_shut d _ a.bypass_threshold b.bypass_threshold w h,
        kept outside _ _ _ (
            gated_shut d _ (λ s. a.put_bypass_threshold s volts)
              (λ s. b.put_bypass_threshold s volts) w h),
        gated_shut d _ a.barrier_free b.barrier_free w h,
        gated_shut d _ (λ s. a.set_barrier_free s on) (λ s. b.set_barrier_free s on) w h,
        kept (ltb 1 mode) _ _ _
            (gated_shut d _ (λ s. a.set_running_mode s mode) (λ s. b.set_running_mode s mode) w h),
        gated_shut d _ a.usb_firmware_version b.usb_firmware_version w h,
        kept (ltb 999999 pin) _ _ _
            (gated_shut d _ (λ s. a.set_ble_pin s pin) (λ s. b.set_ble_pin s pin) w h),
        gated_shut d _ a.read_clock b.read_clock w h,
        gated_shut d _ (λ s. a.sync_clock s now 0) (λ s. b.sync_clock s now 0) w h,
        gated_shut d _ a.ota_info b.ota_info w h,
        gated_shut d _ a.enter_ota b.enter_ota w h,
        gated_shut d _ a.exit_ota b.exit_ota w h,
      )
