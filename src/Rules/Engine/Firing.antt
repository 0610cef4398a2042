-- ===== src/Rules/Engine/Firing.antt =====
-- When a rule fires.
use openwrt_wattline.Common.{
  ◌≤◌, true, false, none, some, List, [], ◌∷◌, ◌≡◌, ◌≢◌, ◌⊎◌, ◌↔◌, refl, arith, if◌then◌else◌, not,
  ◌&&◌, ◌||◌,
}
use openwrt_wattline.Common.Clock.{Time, zero_time, is_zero, since}
use openwrt_wattline.Common.Float64.{Float64}
use openwrt_wattline.Common.Int.{pos, ◌≤ℤ◌, ◌<ℤ◌}
use openwrt_wattline.Rules.Condition.{condition_true}
use openwrt_wattline.Rules.Engine.{
  RuleState, tick_blind, tick_schedule, tick_true, tick_condition, tick_one, tick,
}
use openwrt_wattline.State.Snapshot.{Snapshot}

-- The start of the hold that a tick at `now` goes by.
abbrev pub hold_from : {F C : Type 0} → Time → RuleState F C → Time
hold_from now st = if is_zero st.hold_start then now else st.hold_start

module _ {F V C : Type 0} (fl : Float64 F) (next : C → Time → Time) where
  -- A rule on telemetry is due: it is enabled, the device is connected and the condition true, the
  -- hold is over, and the rule is armed or its repeat interval has passed since it last fired.
  pub record IsDue (snap : Snapshot F V) (now : Time) (st : RuleState F C) : Type 0 where
    pub enabled : st.rule.enabled ≡ true
    pub connected : snap.connected ≡ true
    pub condition : condition_true fl st.rule snap ≡ true
    pub held : st.rule.hold ≤ℤ since now (hold_from now st)
    pub ready :
        (st.armed ≡ true)
        ⊎ ((pos 0 <ℤ st.rule.repeat_every)
            × (st.last_fired ≢ zero_time)
            × (st.rule.repeat_every ≤ℤ since now st.last_fired))

  -- A rule without a schedule fires exactly when it is due: it is enabled, the device is connected
  -- and the condition true, the hold is over, and the rule is armed or may repeat.
  pub tick_one-IsDue :
      (snap : Snapshot F V) (now : Time) (st : RuleState F C)
      → st.sched ≡ none
      → ((tick_one fl next snap now st).1 ≡ true) ↔ IsDue snap now st
  unfolding tick_one tick_condition tick_true
  tick_one-IsDue snap now st h = (λ e. ground arith, λ d. ground arith)

  -- A rule on a schedule fires exactly when it is enabled, the device is connected, and the
  -- occurrence that an earlier tick computed has come. A tick sets the time of the last firing when
  -- the rule fires. It computes the next occurrence, for an enabled rule, when the rule fires, while
  -- the device is disconnected, and where none was computed yet. Otherwise it leaves the two times.
  pub tick_one-schedule :
      (snap : Snapshot F V) (now : Time) (st : RuleState F C) (c : C)
      → st.sched ≡ some c
      → (((tick_one fl next snap now st).1 ≡ true) ↔ (
          (st.rule.enabled ≡ true)
          × (snap.connected ≡ true)
          × (st.next_cron ≢ zero_time)
          × (st.next_cron ≤ now)))
        × ((tick_one fl next snap now st).0.last_fired
            ≡ (if (tick_one fl next snap now st).1 then now else st.last_fired))
        × ((tick_one fl next snap now st).0.next_cron ≡ (
            if st.rule.enabled
              && (not snap.connected || is_zero st.next_cron || (tick_one fl next snap now st).1)
            then next c now
            else st.next_cron))
  unfolding tick_one tick_schedule tick_blind
  tick_one-schedule snap now st c h =
      ((λ e. ground arith, λ d. ground arith), ground arith, ground arith)

  tick_one_disconnected :
      (snap : Snapshot F V) (now : Time) (st : RuleState F C)
      → snap.connected ≡ false
      → (tick_one fl next snap now st).1 ≡ false
  unfolding tick_one
  tick_one_disconnected snap now st h = ground arith

  -- While the device is disconnected no rule fires, whatever the engine holds.
  pub tick_disconnected :
      (snap : Snapshot F V) (now : Time) (states : List (RuleState F C))
      → snap.connected ≡ false
      → (tick fl next snap now states).1 ≡ []
  unfolding tick
  tick_disconnected snap now [] h = refl
  tick_disconnected snap now (st ∷ states) h =
      rw (tick_one_disconnected snap now st h, tick_disconnected snap now states h)
