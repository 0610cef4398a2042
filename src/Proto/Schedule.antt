-- ===== src/Proto/Schedule.antt =====
-- schedule.go: the nine bytes of a timer, the schedule frames, and the check before a write.
pub mod Codec
pub mod Writable
use openwrt_wattline.Common.{
  ℕ, zero, suc, ◌+◌, ◌-◌, ◌*◌, ◌/◌, ◌%◌, ◌^◌, bit_and, Bool, true, false, not, ◌&&◌, ◌||◌, Option,
  none, some, List, [], ◌∷◌, ◌++◌, length, ltb, leb, ◌==◌, nat_eq, is_some, if◌then◌else◌,
}
use openwrt_wattline.Common.Bytes.{Bytes, at, uint32_at, put_uint32}
use openwrt_wattline.Common.Int.{ℤ, pos, negsuc, int8, byte_of}
use openwrt_wattline.Common.Result.{Result, ok, err}
use openwrt_wattline.Proto.Error.{
  ProtoError, timer_short, timer_status, timer_time, timer_action, one_shot_date, daily_recurrence,
  weekly_recurrence, monthly_recurrence, timer_type,
}
use openwrt_wattline.Proto.Frames.{act_get, act_set}
use openwrt_wattline.Proto.Controls.{cmd_scheduled_on_off}

abbrev pub timer_one_shot : ℕ
timer_one_shot = 0

abbrev pub timer_daily : ℕ
timer_daily = 1

abbrev pub timer_weekly : ℕ
timer_weekly = 2

abbrev pub timer_monthly : ℕ
timer_monthly = 3

abbrev pub sched_list_ids : ℕ
sched_list_ids = 0x00

abbrev pub sched_get_one : ℕ
sched_get_one = 0x01

abbrev pub sched_upsert : ℕ
sched_upsert = 0x02

abbrev pub sched_delete : ℕ
sched_delete = 0x04

pub record Timer : Type 0 where
  pub id : ℕ
  pub status : ℤ
  pub type : ℕ
  pub hour : ℕ
  pub minute : ℕ
  pub repeat : ℕ
  pub action : ℕ

unfoldable pub encode : Timer → Bytes
encode t = byte_of t.status ∷ t.type ∷ t.hour ∷ t.minute ∷ (put_uint32 t.repeat ++ t.action ∷ [])

-- The ID is no part of the nine bytes, and is left 0.
unfoldable pub parse_timer : Bytes → Result ProtoError Timer
parse_timer b =
    if ltb (length b) 9
    then err timer_short
    else ok (record {
      id = 0;
      status = int8 (at b 0);
      type = at b 1;
      hour = at b 2;
      minute = at b 3;
      repeat = uint32_at b 4;
      action = at b 8;
    })

unfoldable pub schedule_list : Bytes
schedule_list = cmd_scheduled_on_off ∷ act_get ∷ sched_list_ids ∷ []

unfoldable pub schedule_get : ℕ → Bytes
schedule_get id = cmd_scheduled_on_off ∷ act_get ∷ sched_get_one ∷ id ∷ []

abbrev is_leap : ℕ → Bool
is_leap y = y % 4 == 0 && (not (y % 100 == 0) || y % 400 == 0)

abbrev pub days_in : ℕ → ℕ → ℕ
days_in y m =
    if m == 2
    then (if is_leap y then 29 else 28)
    else if m == 4 || m == 6 || m == 9 || m == 11
    then 30
    else 31

-- Year, Month and Day of time.Date(year, month, day, …) for a month in 1..12 and a day in 1..31:
-- the days past the end of the month run on into the next one.
unfoldable pub normal_date : ℕ → ℕ → ℕ → ℕ × ℕ × ℕ
normal_date y m d =
    if leb d (days_in y m)
    then (y, m, d)
    else if m == 12
    then (y + 1, 1, d - days_in y m)
    else (y, m + 1, d - days_in y m)

unfoldable pub same_date : ℕ × ℕ × ℕ → ℕ → ℕ → ℕ → Bool
same_date (y', m', d') y m d = y' == y && m' == m && d' == d

-- `case TimerOneShot`
unfoldable pub check_one_shot : ℕ → Option ProtoError
check_one_shot repeat =
    let year = repeat % 2 ^ 16 in
    let month = repeat / 2 ^ 16 % 2 ^ 8 in
    let day = repeat / 2 ^ 24 in
    if year == 0 || ltb month 1 || ltb 12 month || ltb day 1 || ltb 31 day
    then some (one_shot_date year month day)
    else if not (same_date (normal_date year month day) year month day)
    then some (one_shot_date year month day)
    else none

-- the `switch` on the type
unfoldable pub check_recurrence : ℕ → ℕ → Option ProtoError
check_recurrence type repeat =
    if type == timer_one_shot
    then check_one_shot repeat
    else if type == timer_daily
    then (if not (repeat == 0) then some daily_recurrence else none)
    else if type == timer_weekly
    then (if repeat == 0 || not (bit_and repeat 0xffffff01 == 0)
        then some (weekly_recurrence repeat)
        else none)
    else if type == timer_monthly
    then (if repeat == 0 || not (bit_and repeat 1 == 0)
        then some (monthly_recurrence repeat)
        else none)
    else some (timer_type type)

abbrev is_status : ℤ → Bool
is_status (pos n) = n == 1
is_status (negsuc n) = n == 0

-- `none` is the nil error.
unfoldable pub validate_timer_write : Timer → Option ProtoError
validate_timer_write t =
    if not (is_status t.status)
    then some (timer_status t.status)
    else if ltb 23 t.hour || ltb 59 t.minute
    then some (timer_time t.hour t.minute)
    else if ltb 1 t.action
    then some (timer_action t.action)
    else check_recurrence t.type t.repeat

-- The nil frame is the empty one.
unfoldable pub schedule_upsert : ℕ → Timer → Bytes
schedule_upsert id t =
    if is_some (validate_timer_write t)
    then []
    else cmd_scheduled_on_off ∷ act_set ∷ sched_upsert ∷ id ∷ encode t

unfoldable pub schedule_delete : ℕ → Bytes
schedule_delete id = cmd_scheduled_on_off ∷ act_set ∷ sched_delete ∷ id ∷ []

-- for i := 0; i < n && 1+i < len(payload); i++: at most n of the bytes behind the count
unfoldable pub collect_ids : ℕ → Bytes → Bytes
collect_ids zero rest = []
collect_ids (suc n) [] = []
collect_ids (suc n) (b ∷ rest) = b ∷ collect_ids n rest

-- A payload of `none` is nil, and so is a result of `none`.
unfoldable pub parse_schedule_ids : Option Bytes → Option Bytes
unfolding collect_ids
parse_schedule_ids none = none
parse_schedule_ids (some []) = some []
parse_schedule_ids (some (n ∷ rest)) = some (collect_ids n rest)

unfoldable pub parsed_upsert_id : Bytes → ℕ → ℕ
parsed_upsert_id payload fallback = if leb 1 (length payload) then at payload 0 else fallback
