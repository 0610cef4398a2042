-- ===== src/Proto/Schedule/Writable.antt =====
-- Which timers may be written.
use openwrt_wattline.Common.{
  ◌∷◌, ℕ, ◌/◌, ◌%◌, ◌^◌, ◌<◌, ◌≤◌, ◌≡◌, ◌⊎◌, ◌↔◌, none, arith, [], Option-cases, inl, inr,
}
use openwrt_wattline.Common.Bits.{bit_and_skip_byte, bit_and_one}
use openwrt_wattline.Common.Int.{pos, negsuc}
use openwrt_wattline.Proto.Schedule.{
  Timer, days_in, validate_timer_write, timer_one_shot, timer_daily, timer_weekly, timer_monthly,
  check_one_shot, check_recurrence, normal_date, same_date, schedule_upsert, encode,
}

-- A date of the calendar, packed as year | month << 16 | day << 24.
pub record IsDate (repeat : ℕ) : Type 0 where
  pub year : 1 ≤ repeat % 2 ^ 16
  pub month_low : 1 ≤ repeat / 2 ^ 16 % 2 ^ 8
  pub month_high : repeat / 2 ^ 16 % 2 ^ 8 ≤ 12
  pub day_low : 1 ≤ repeat / 2 ^ 24
  pub day_high : repeat / 2 ^ 24 ≤ days_in (repeat % 2 ^ 16) (repeat / 2 ^ 16 % 2 ^ 8)

-- The recurrence layouts: a date; nothing; some of the weekdays, bits 1 to 7; some of the days of
-- the month, bits 1 to 31.
abbrev pub IsRecurrence : ℕ → ℕ → Type 0
IsRecurrence type repeat =
    ((type ≡ timer_one_shot) × IsDate repeat)
    ⊎ ((type ≡ timer_daily) × (repeat ≡ 0))
    ⊎ ((type ≡ timer_weekly) × (1 ≤ repeat) × (repeat < 256) × (repeat % 2 ≡ 0))
    ⊎ ((type ≡ timer_monthly) × (1 ≤ repeat) × (repeat % 2 ≡ 0))

pub record IsWritable (t : Timer) : Type 0 where
  pub status : (t.status ≡ pos 1) ⊎ (t.status ≡ negsuc 0)
  pub hour : t.hour ≤ 23
  pub minute : t.minute ≤ 59
  pub action : t.action ≤ 1
  pub recurrence : IsRecurrence t.type t.repeat

check_one_shot_iff : (repeat : ℕ) → (check_one_shot repeat ≡ none) ↔ IsDate repeat
unfolding check_one_shot normal_date same_date
check_one_shot_iff repeat = (λ e. ground arith, λ d. ground arith)

check_recurrence_iff :
    (type repeat : ℕ)
    → repeat < 2 ^ 32
    → (check_recurrence type repeat ≡ none) ↔ IsRecurrence type repeat
unfolding check_recurrence
check_recurrence_iff type repeat h = (
  λ e. ground (arith, check_one_shot_iff repeat, bit_and_skip_byte repeat h, bit_and_one repeat h),
  λ r. ground (arith, check_one_shot_iff repeat, bit_and_skip_byte repeat h, bit_and_one repeat h),
)

-- The check passes exactly the writable timers.
pub validate_timer_write_iff :
    (t : Timer) → t.repeat < 2 ^ 32 → (validate_timer_write t ≡ none) ↔ IsWritable t
unfolding validate_timer_write
validate_timer_write_iff t h = (
  λ e. ground (arith, check_recurrence_iff t.type t.repeat h),
  λ w. ground (arith, check_recurrence_iff t.type t.repeat h),
)

-- A writable timer gives the frame of its ID and its nine bytes, and exactly the others give no
-- frame.
pub schedule_upsert-frame :
    (id : ℕ) (t : Timer)
    → t.repeat < 2 ^ 32
    → ((schedule_upsert id t ≡ 0x06 ∷ 0x01 ∷ 0x02 ∷ id ∷ encode t) ↔ IsWritable t)
      × ((schedule_upsert id t ≡ []) ↔ ¬ IsWritable t)
unfolding schedule_upsert
schedule_upsert-frame id t h = (
  (
    λ e. ground (arith, validate_timer_write_iff t h),
    λ w. ground (arith, validate_timer_write_iff t h),
  ),
  (
    λ e w. ground (arith, validate_timer_write_iff t h),
    λ u. elim (Option-cases (validate_timer_write t)) [
      | inl valid ↦ absurd (u ((validate_timer_write_iff t h).0 valid))
      | inr (_, refused) ↦ rw refused
    ],
  ),
)
