-- ===== src/Rules/Engine/Holding.antt =====
-- The hold timer and the arming of a rule against the whole history of ticks.
use openwrt_wattline.Common.{
  ℕ, suc, ◌+◌, ◌≤◌, Bool, true, false, not, ◌&&◌, Option, none, some, List, [], ◌∷◌, All, ◌≡◌, ◌≢◌,
  refl, arith, if◌then◌else◌, ◌∙◌, subst,
}
use openwrt_wattline.Common.Clock.{Time, zero_time, since}
use openwrt_wattline.Common.Float64.{Float64}
use openwrt_wattline.Common.Int.{pos, ◌≤ℤ◌}
use openwrt_wattline.Config.Rule.{Rule}
use openwrt_wattline.Rules.Condition.{condition_true, rearm_true}
use openwrt_wattline.Rules.Engine.{
  RuleState, tick_blind, tick_schedule, tick_true, tick_condition, tick_one,
}
use openwrt_wattline.Rules.Engine.Firing.{hold_from, IsDue, tick_one-IsDue}
use openwrt_wattline.State.Snapshot.{Snapshot}

-- One call of Tick. A history of ticks has the latest first.
abbrev pub Tick : Type 0 → Type 0 → Type 0
Tick F V = Snapshot F V × Time

abbrev pub count_fire : Bool → ℕ → ℕ
count_fire true n = suc n
count_fire false n = n

count_fire_add : (b : Bool) (n : ℕ) → count_fire b n ≡ count_fire b 0 + n
count_fire_add true n = omega arith
count_fire_add false n = omega arith

module _ {F V : Type 0} (fl : Float64 F) (r : Rule F) where
  -- The condition is seen to hold: the device is connected and the condition true.
  abbrev pub seen : Snapshot F V → Bool
  seen snap = snap.connected && condition_true fl r snap

  -- The condition is seen to have receded enough to re-arm.
  abbrev pub receded : Snapshot F V → Bool
  receded snap = snap.connected && (not (condition_true fl r snap) && rearm_true fl r snap)

  -- The time of the first tick of the unbroken row of ticks, up to the latest, that saw it.
  unfoldable pub row_start : List (Tick F V) → Option Time
  row_start [] = none
  row_start ((snap, now) ∷ earlier) =
      let before : Option Time = row_start earlier in
      if seen snap then elim before [ none ↦ some now | some t ↦ some t ] else none

  -- How many ticks saw it recede.
  unfoldable pub recessions : List (Tick F V) → ℕ
  recessions [] = 0
  recessions ((snap, now) ∷ earlier) = count_fire (receded snap) (recessions earlier)

abbrev or_zero : Option Time → Time
or_zero none = zero_time
or_zero (some t) = t

-- A rule on telemetry that is enabled, before its first tick or with no hold under way.
pub record IsIdle {F C : Type 0} (st : RuleState F C) : Type 0 where
  pub enabled : st.rule.enabled ≡ true
  pub telemetry : st.sched ≡ none
  pub idle : st.hold_start ≡ zero_time

module _ {F V C : Type 0} (fl : Float64 F) (next : C → Time → Time) where
  -- The state after a history of ticks.
  unfoldable pub after : RuleState F C → List (Tick F V) → RuleState F C
  after st [] = st
  after st ((snap, now) ∷ earlier) = (tick_one fl next snap now (after st earlier)).0

  -- How often the rule fired in it.
  unfoldable pub firings : RuleState F C → List (Tick F V) → ℕ
  firings st [] = 0
  firings st ((snap, now) ∷ earlier) =
      count_fire (tick_one fl next snap now (after st earlier)).1 (firings st earlier)

  tick_one_keeps :
      (snap : Snapshot F V) (now : Time) (st : RuleState F C)
      → ((tick_one fl next snap now st).0.rule ≡ st.rule)
        × ((tick_one fl next snap now st).0.sched ≡ st.sched)
  unfolding tick_one tick_blind tick_schedule tick_condition tick_true
  tick_one_keeps snap now st = ground arith

  after_keeps :
      (st : RuleState F C) (ticks : List (Tick F V))
      → ((after st ticks).rule ≡ st.rule) × ((after st ticks).sched ≡ st.sched)
  unfolding after
  after_keeps st [] = (refl, refl)
  after_keeps st ((snap, now) ∷ earlier) =
      ground (arith, tick_one_keeps snap now (after st earlier), after_keeps st earlier)

  row_start-ne-zero :
      (r : Rule F) (ticks : List (Tick F V))
      → All (λ (t : Tick F V). t.1 ≢ zero_time) ticks
      → row_start fl r ticks ≢ some zero_time
  unfolding row_start
  row_start-ne-zero r [] h e = cc
  row_start-ne-zero r ((snap, now) ∷ earlier) h e = ground (arith, row_start-ne-zero r earlier h.1)

  hold_step :
      (snap : Snapshot F V) (now : Time) (st : RuleState F C)
      → st.rule.enabled ≡ true
      → st.sched ≡ none
      → (tick_one fl next snap now st).0.hold_start
        ≡ (if seen fl st.rule snap then hold_from now st else zero_time)
  unfolding tick_one tick_blind tick_condition tick_true
  hold_step snap now st on sched = ground arith

  -- For an enabled rule on telemetry that starts with no hold under way, and through any ticks with
  -- no reload between them, none of which is at the zero time: the engine's incremental hold timer
  -- is the start of the unbroken row of ticks that saw the condition, or the zero time where the
  -- latest tick did not see it.
  pub hold_start-row_start :
      (st : RuleState F C) (ticks : List (Tick F V))
      → IsIdle st
      → All (λ (t : Tick F V). t.1 ≢ zero_time) ticks
      → (after st ticks).hold_start ≡ or_zero (row_start fl st.rule ticks)
  unfolding after row_start
  hold_start-row_start st [] h z = h.idle
  hold_start-row_start st ((snap, now) ∷ earlier) h z = ground (
    arith,
    hold_start-row_start st earlier h z.1,
    hold_step snap now (after st earlier),
    after_keeps st earlier,
    row_start-ne-zero st.rule earlier z.1,
    h.enabled,
    h.telemetry,
  )

  -- An enabled rule on telemetry that started with no hold under way, with no reload since and no
  -- tick at the zero time, fires only if every tick of an unbroken row, from one that lies at least
  -- the hold back up to the one that fires, saw the condition.
  pub fires_held :
      (st : RuleState F C) (snap : Snapshot F V) (now : Time) (earlier : List (Tick F V))
      → IsIdle st
      → All (λ (t : Tick F V). t.1 ≢ zero_time) ((snap, now) ∷ earlier)
      → (tick_one fl next snap now (after st earlier)).1 ≡ true
      → (start : Time) × (row_start fl st.rule ((snap, now) ∷ earlier) ≡ some start)
        × (st.rule.hold ≤ℤ since now start)
  unfolding row_start
  fires_held st snap now earlier h z fires =
      let was : RuleState F C = after st earlier in
      let kept = after_keeps st earlier in
      let due : IsDue fl next snap now was =
        (tick_one-IsDue fl next snap now was (kept.1 ∙ h.telemetry)).0 fires in
      (
        hold_from now was,
        ground (
          arith,
          due.connected,
          subst (λ r. condition_true fl r snap ≡ true) kept.0 due.condition,
          hold_start-row_start st earlier h z.1,
          row_start-ne-zero st.rule earlier z.1,
        ),
        subst (λ r. r.hold ≤ℤ since now (hold_from now was)) kept.0 due.held,
      )

  arm_step_own :
      (snap : Snapshot F V) (now : Time) (st : RuleState F C)
      → st.sched ≡ none
      → st.rule.repeat_every ≤ℤ pos 0
      → count_fire
          (tick_one fl next snap now st).1
          (count_fire (tick_one fl next snap now st).0.armed 0)
        ≤ count_fire (receded fl st.rule snap) (count_fire st.armed 0)
  unfolding tick_one tick_blind tick_condition tick_true
  arm_step_own snap now st sched once = ground arith

  arm_step :
      (snap : Snapshot F V) (now : Time) (st : RuleState F C) (r : Rule F)
      → st.rule ≡ r
      → st.sched ≡ none
      → r.repeat_every ≤ℤ pos 0
      → count_fire
          (tick_one fl next snap now st).1
          (count_fire (tick_one fl next snap now st).0.armed 0)
        ≤ count_fire (receded fl r snap) (count_fire st.armed 0)
  arm_step snap now st r same sched once =
      rw (← same) (arm_step_own snap now st sched (rw same once))

  -- What was fired, and a rule still armed, never exceeds what armed it.
  fired_or_armed :
      (st : RuleState F C) (ticks : List (Tick F V))
      → st.sched ≡ none
      → st.rule.repeat_every ≤ℤ pos 0
      → count_fire (after st ticks).armed (firings st ticks)
        ≤ count_fire st.armed (recessions fl st.rule ticks)
  unfolding after firings recessions
  fired_or_armed st [] sched once = omega arith
  fired_or_armed st ((snap, now) ∷ earlier) sched once =
      let kept = after_keeps st earlier in
      omega (
        arith,
        count_fire_add,
        arm_step snap now (after st earlier) st.rule kept.0 (kept.1 ∙ sched) once,
        fired_or_armed st earlier sched once,
      )

  -- A rule on telemetry with no repeat interval fires at most once for having been armed, and once
  -- more for each tick that saw the condition recede past the margin.
  pub firings-le :
      (st : RuleState F C) (ticks : List (Tick F V))
      → st.sched ≡ none
      → st.rule.repeat_every ≤ℤ pos 0
      → firings st ticks ≤ count_fire st.armed (recessions fl st.rule ticks)
  firings-le st ticks sched once = ground (arith, fired_or_armed st ticks sched once)
