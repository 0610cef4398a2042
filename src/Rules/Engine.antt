-- ===== src/Rules/Engine.antt =====
-- The engine of engine.go. The cron package is a parameter: `parse` reads an expression, and
-- `next` is Schedule.Next. The mutex is no part of the model: each method is one step.
pub mod Firing
pub mod Holding
pub mod Reload
use openwrt_wattline.Common.{
  Bool, true, false, not, ◌&&◌, ◌||◌, Option, none, some, List, [], ◌∷◌, ◌++◌, String, ◌==◌,
  string_eq, is_some, if◌then◌else◌,
}
use openwrt_wattline.Common.Clock.{Time, zero_time, is_zero, before, since}
use openwrt_wattline.Common.Float64.{Float64}
use openwrt_wattline.Common.Int.{ℤ, pos, ltb_ℤ, leb_ℤ}
use openwrt_wattline.Common.Result.{Result, ok, err}
use openwrt_wattline.Config.Rule.{Rule}
use openwrt_wattline.Rules.Condition.{condition_true, rearm_true}
use openwrt_wattline.State.Snapshot.{Snapshot}

pub record RuleState (F C : Type 0) : Type 0 where
  pub rule : Rule F
  pub sched : Option C
  pub next_cron : Time
  pub hold_start : Time
  pub armed : Bool
  pub last_fired : Time

-- The error of `build` names the rule whose expression does not parse.
pub data BuildError : Type 0 where
  bad_cron : String → BuildError

module _ {F C : Type 0} where
  abbrev pub fresh_state : Rule F → Option C → RuleState F C
  fresh_state r sched = record {
    rule = r;
    sched = sched;
    next_cron = zero_time;
    hold_start = zero_time;
    armed = true;
    last_fired = zero_time;
  }

  -- `old[name]`: of several old states of one name the last one stays in the map.
  unfoldable pub find_state : String → List (RuleState F C) → Option (RuleState F C)
  find_state name [] = none
  find_state name (st ∷ sts) =
      let later = find_state name sts in
      elim later [ some o ↦ some o | none ↦ if st.rule.name == name then some st else none ]

  unfoldable pub inherit : Option (RuleState F C) → RuleState F C → RuleState F C
  inherit none s = s
  inherit (some o) s = record s {
    armed = o.armed;
    last_fired = o.last_fired;
    hold_start = o.hold_start;
    next_cron = if is_some s.sched && is_some o.sched then o.next_cron else s.next_cron;
  }

  unfoldable pub inherit_all : List (RuleState F C) → List (RuleState F C) → List (RuleState F C)
  inherit_all old [] = []
  inherit_all old (s ∷ states) = inherit (find_state s.rule.name old) s ∷ inherit_all old states

module _ {F C : Type 0} (parse : String → Option C) where
  unfoldable pub build_one : Rule F → Result BuildError (RuleState F C)
  build_one r =
      if r.condition == "schedule"
      then elim (parse r.cron) [
        | none ↦ err (bad_cron r.name)
        | some c ↦ ok (fresh_state r (some c))
      ]
      else ok (fresh_state r none)

  unfoldable pub build : List (Rule F) → Result BuildError (List (RuleState F C))
  build [] = ok []
  build (r ∷ rules) =
      let rest = build rules in
      elim (build_one r) [
        | err e ↦ err e
        | ok st ↦ elim rest [ err e ↦ err e | ok sts ↦ ok (st ∷ sts) ]
      ]

  -- On an error the engine is left as it was.
  unfoldable pub set_rules :
      List (Rule F) → List (RuleState F C) → List (RuleState F C) × Option BuildError
  set_rules rules states = elim (build rules) [
    | err e ↦ (states, some e)
    | ok fresh ↦ (inherit_all states fresh, none)
  ]

module _ {F C : Type 0} (next : C → Time → Time) where
  -- `if !snap.Connected`
  unfoldable pub tick_blind : Time → RuleState F C → RuleState F C
  tick_blind now st = record st {
    hold_start = zero_time;
    next_cron = elim st.sched [ none ↦ st.next_cron | some c ↦ next c now ];
  }

  -- `if st.sched != nil`; the second result says whether the rule fires
  unfoldable pub tick_schedule : C → Time → RuleState F C → RuleState F C × Bool
  tick_schedule c now st =
      if is_zero st.next_cron
      then (record st { next_cron = next c now }, false)
      else if not (before now st.next_cron)
      then (record st { last_fired = now; next_cron = next c now }, true)
      else (st, false)

module _ {F C : Type 0} where
  -- st.rule.RepeatEvery > 0 && !st.lastFired.IsZero() && now.Sub(st.lastFired) >= st.rule.RepeatEvery
  abbrev pub can_repeat : Time → RuleState F C → Bool
  can_repeat now st =
      ltb_ℤ (pos 0) st.rule.repeat_every
      && not (is_zero st.last_fired)
      && leb_ℤ st.rule.repeat_every (since now st.last_fired)

  -- the branch of a condition that is true, with the start of the hold set
  unfoldable pub tick_true : Time → RuleState F C → RuleState F C × Bool
  tick_true now st =
      let held = leb_ℤ st.rule.hold (since now st.hold_start) in
      if held && (st.armed || can_repeat now st)
      then (record st { armed = false; last_fired = now }, true)
      else (st, false)

module _ {F V C : Type 0} (fl : Float64 F) where
  unfoldable pub tick_condition : Snapshot F V → Time → RuleState F C → RuleState F C × Bool
  tick_condition snap now st =
      if condition_true fl st.rule snap
      then tick_true now
          (record st { hold_start = if is_zero st.hold_start then now else st.hold_start })
      else (
        record st {
          hold_start = zero_time;
          armed = if not st.armed && rearm_true fl st.rule snap then true else st.armed;
        },
        false,
      )

module _ {F V C : Type 0} (fl : Float64 F) (next : C → Time → Time) where
  unfoldable pub tick_one : Snapshot F V → Time → RuleState F C → RuleState F C × Bool
  tick_one snap now st =
      if not st.rule.enabled
      then (st, false)
      else if not snap.connected
      then (tick_blind next now st, false)
      else elim st.sched [
        | some c ↦ tick_schedule next c now st
        | none ↦ tick_condition fl snap now st
      ]

  -- The rules that fire, in the order of the engine; each Firing carries the same `now`.
  unfoldable pub tick :
      Snapshot F V → Time → List (RuleState F C) → List (RuleState F C) × List (Rule F)
  tick snap now [] = ([], [])
  tick snap now (st ∷ states) =
      let (st', fires) = tick_one snap now st in
      let (states', fired) = tick snap now states in
      (st' ∷ states', if fires then st.rule ∷ fired else fired)
