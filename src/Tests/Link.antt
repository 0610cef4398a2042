-- ===== src/Tests/Link.antt =====
-- The session over a connection that plays back its replies.
use openwrt_wattline.Common.{ℕ, false, List, [], ◌∷◌, none, ◌≡◌, ◌≢◌, ◌↔◌, refl, arith}
use openwrt_wattline.Common.Bytes.{Bytes}
use openwrt_wattline.Common.Int.{pos, byte_of}
use openwrt_wattline.Common.Result.{Result, ok, err}
use openwrt_wattline.Proto.Controls.{validate_limit_write}
use openwrt_wattline.Proto.Schedule.{Timer}
use openwrt_wattline.Proto.Frames.{validate_reply}
use openwrt_wattline.Proto.Schedule.{parse_timer, schedule_get, schedule_list}
use openwrt_wattline.Ble.Session.{read_reply, answer_of, query, command, Transport}
use openwrt_wattline.Ble.Timers.{
  get_timer, timer_of, strict_schedule_ids, timer_ids, has_timer_id, get_timers, AreReadings,
  get_timers-AreReadings,
}

abbrev played : List Bytes → List Bytes × Result ℕ Bytes
played [] = ([], err 0)
played (reply ∷ replies) = (replies, ok reply)

abbrev playback : Transport (List Bytes) ℕ
playback = record { write = λ w req. (w, none); read = played }

runtime_refused : validate_limit_write (byte_of (pos 4)) (pos 2) ≢ none
unfolding validate_limit_write
runtime_refused h = ground arith

-- two timers, 3 and 8, both daily at 6:15
abbrev timer_reply : ℕ → Bytes
timer_reply id = 0x06 ∷ 0x80 ∷ 0 ∷ id ∷ 1 ∷ 1 ∷ 6 ∷ 15 ∷ 0 ∷ 0 ∷ 0 ∷ 0 ∷ 1 ∷ []

abbrev daily : ℕ → Timer
daily id = record {
  id = id;
  status = pos 1;
  type = 1;
  hour = 6;
  minute = 15;
  repeat = 0;
  action = 1;
}

two_read :
    (get_timers playback (3 ∷ 8 ∷ []) (timer_reply 3 ∷ timer_reply 8 ∷ [])).1
    ≡ ok (daily 3 ∷ daily 8 ∷ [])
unfolding get_timers get_timer timer_of command read_reply answer_of validate_reply parse_timer
    schedule_get
two_read = refl

get_timers-AreReadings_example :
    ((get_timers playback (3 ∷ 8 ∷ []) (timer_reply 3 ∷ timer_reply 8 ∷ [])).1
      ≡ ok (daily 3 ∷ daily 8 ∷ []))
    ↔ AreReadings playback
        (3 ∷ 8 ∷ [])
        (timer_reply 3 ∷ timer_reply 8 ∷ [])
        (daily 3 ∷ daily 8 ∷ [])
get_timers-AreReadings_example =
    get_timers-AreReadings playback (3 ∷ 8 ∷ []) (timer_reply 3 ∷ timer_reply 8 ∷ [])
      (daily 3 ∷ daily 8 ∷ [])

abbrev ids_reply : Bytes
ids_reply = 0x06 ∷ 0x80 ∷ 0 ∷ 2 ∷ 3 ∷ 8 ∷ []

two_listed : (timer_ids playback (ids_reply ∷ [])).1 ≡ ok (3 ∷ 8 ∷ [])
unfolding timer_ids query command strict_schedule_ids read_reply answer_of validate_reply
    schedule_list
two_listed = refl

five_missing : has_timer_id (3 ∷ 8 ∷ []) 5 ≡ false
unfolding has_timer_id
five_missing = refl
