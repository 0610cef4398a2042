-- ===== src/Auth/Pairing/Invariant.antt =====
-- What holds of the pairing between two calls.
use openwrt_wattline.Common.{
  ℕ, ◌≤◌, if◌then◌else◌, Bool, true, false, ◌&&◌, ◌||◌, not, Option, none, some, [], length, ◌≡◌,
  refl, arith, Bool-cases, inl, inr,
}
use openwrt_wattline.Common.Bytes.{Bytes}
use openwrt_wattline.Common.Clock.{Time, zero_time, before, is_zero}
use openwrt_wattline.Auth.Pin.{generate_pin}
use openwrt_wattline.Auth.Pin.Sampling.{IsPin, generate_pin-IsPin}
use openwrt_wattline.Auth.Windows.{FailureWindow, no_failures, Sources, Counted}
use openwrt_wattline.Auth.Pairing.{Pairing, close, opened, open_locked, observe_now, refresh}

-- An open pairing shows a PIN of six digits; a closed one has no PIN and no expiry.
abbrev pub DoorValid : Bool → Bytes → Time → Type 0
DoorValid true pin expires_at = IsPin pin
DoorValid false pin expires_at = (pin ≡ []) × (expires_at ≡ zero_time)

-- No window counts past its limit, and no more sources are remembered than the global limit.
pub record LimitsValid (source_limit global_limit : ℕ) (sources : Sources) (global : FailureWindow)
    : Type 0 where
  pub global_bounded : global.count ≤ global_limit
  pub sources_bounded : length sources ≤ global_limit
  pub counted : Counted source_limit sources

abbrev pub Limited : {S : Type 0} → Pairing S → Type 0
Limited p = LimitsValid p.source_limit p.global_limit p.sources p.global

pub record IsValid {S : Type 0} (p : Pairing S) : Type 0 where
  pub door : DoorValid p.is_open p.pin p.expires_at
  pub limits : Limited p

module _ {S : Type 0} where
  pub close-IsValid : (p : Pairing S) → IsValid p → IsValid (close p)
  unfolding close
  close-IsValid p v = record { door = (refl, refl); limits = v.limits }

  opened-IsValid :
      (now : Time) (drawn : Option Bytes) (p : Pairing S)
      → ((pin : Bytes) → drawn ≡ some pin → IsPin pin)
      → IsValid p
      → IsValid (opened now drawn p)
  unfolding opened
  opened-IsValid now none p h v = close-IsValid p v
  opened-IsValid now (some pin) p h v = record { door = h pin refl; limits = v.limits }

  pub open_locked-IsValid : (now : Time) (p : Pairing S) → IsValid p → IsValid (open_locked now p)
  unfolding open_locked
  open_locked-IsValid now p v =
      opened-IsValid now (generate_pin p.random).0 _ (generate_pin-IsPin p.random)
        (record { door = v.door; limits = v.limits })

  reset_limits :
      (p : Pairing S) → IsValid p → IsValid (record p { sources = []; global = no_failures })
  reset_limits p v = record { door = v.door; limits = omega arith }

  close_or_open-IsValid :
      (b : Bool) (now : Time) (p : Pairing S)
      → IsValid p
      → IsValid (if b then open_locked now p else close p)
  close_or_open-IsValid true now p v = open_locked-IsValid now p v
  close_or_open-IsValid false now p v = close-IsValid p v

  set_last_now : (p : Pairing S) (now : Time) → IsValid p → IsValid (record p { last_now = now })
  set_last_now p now v = record { door = v.door; limits = v.limits }

  pub observe_now-IsValid : (now : Time) (p : Pairing S) → IsValid p → IsValid (observe_now now p)
  unfolding observe_now
  observe_now-IsValid now p v =
      elim (Bool-cases (not (is_zero p.last_now) && before now p.last_now)) [
        | inl e ↦ rw e (set_last_now _ now (close_or_open-IsValid _ now _ (reset_limits p v)))
        | inr e ↦ rw e (set_last_now p now v)
      ]

  pub refresh-IsValid : (now : Time) (p : Pairing S) → IsValid p → IsValid (refresh now p)
  unfolding refresh
  refresh-IsValid now p v = elim (Bool-cases (not p.is_open || before now p.expires_at)) [
    | inl e ↦ rw e (v)
    | inr e ↦ rw e (close_or_open-IsValid p.always_on now p v)
  ]
