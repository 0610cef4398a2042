-- ===== src/Rules/Engine/Reload.antt =====
-- SetRules: what a reload keeps.
use openwrt_wattline.Common.{
  ◌⊎◌, is_some, true, Option, none, some, List, [], ◌∷◌, All, String, ◌≡◌, refl, arith, eq_iff,
}
use openwrt_wattline.Common.Clock.{Time, zero_time}
use openwrt_wattline.Common.Float64.{Float64}
use openwrt_wattline.Common.Result.{ok}
use openwrt_wattline.Config.Rule.{Rule}
use openwrt_wattline.Rules.Engine.{
  RuleState, fresh_state, build_one, build, find_state, inherit, inherit_all, set_rules, tick_blind,
  tick_schedule, tick_condition, tick_true, tick_one,
}
use openwrt_wattline.State.Snapshot.{Snapshot}

module _ {F C : Type 0} where
  abbrev pub rules_of : List (RuleState F C) → List (Rule F)
  rules_of [] = []
  rules_of (st ∷ sts) = st.rule ∷ rules_of sts

  -- The states as `build` makes them, before they inherit.
  abbrev remade : RuleState F C → RuleState F C
  remade st = fresh_state st.rule st.sched

  abbrev remade_all : List (RuleState F C) → List (RuleState F C)
  remade_all [] = []
  remade_all (st ∷ sts) = remade st ∷ remade_all sts

  abbrev pub UniqueNames : List (RuleState F C) → Type 0
  UniqueNames [] = Unit
  UniqueNames (st ∷ sts) = (find_state st.rule.name sts ≡ none) × UniqueNames sts

  abbrev FindsItself : List (RuleState F C) → RuleState F C → Type 0
  FindsItself old st = find_state st.rule.name old ≡ some st

  found_later :
      (st : RuleState F C) (sts states : List (RuleState F C))
      → All (FindsItself sts) states
      → All (FindsItself (st ∷ sts)) states
  unfolding find_state
  found_later st sts [] h = tt
  found_later st sts (x ∷ states) h = (rw h.0, found_later st sts states h.1)

  find_first :
      (st : RuleState F C) (sts : List (RuleState F C))
      → find_state st.rule.name sts ≡ none
      → find_state st.rule.name (st ∷ sts) ≡ some st
  unfolding find_state
  find_first st sts h = ground (arith, eq_iff st.rule.name st.rule.name)

  find_own : (states : List (RuleState F C)) → UniqueNames states → All (FindsItself states) states
  find_own [] u = tt
  find_own (st ∷ sts) u = (find_first st sts u.0, found_later st sts sts (find_own sts u.1))

module _ {F C : Type 0} (parse : String → Option C) where
  -- The state is one that `build` made for its rule, as ticks have left it.
  pub record WellBuilt (st : RuleState F C) : Type 0 where
    pub built : build_one parse st.rule ≡ ok (fresh_state st.rule st.sched)
    pub unscheduled : (is_some st.sched ≡ true) ⊎ (st.next_cron ≡ zero_time)

  build_same :
      (states : List (RuleState F C))
      → All WellBuilt states
      → build parse (rules_of states) ≡ ok (remade_all states)
  unfolding build
  build_same [] w = refl
  build_same (st ∷ sts) w = ground (arith, w.0.built, build_same sts w.1)

  inherit_own : (st : RuleState F C) → WellBuilt st → inherit (some st) (remade st) ≡ st
  unfolding inherit
  inherit_own st w = ground (arith, w.unscheduled)

  inherit_same :
      (old states : List (RuleState F C))
      → All WellBuilt states
      → All (FindsItself old) states
      → inherit_all old (remade_all states) ≡ states
  unfolding inherit_all
  inherit_same old [] w f = refl
  inherit_same old (st ∷ sts) w f = rw (f.0, inherit_own st w.0, inherit_same old sts w.1 f.1)

  -- Reloading the rules that are loaded, where each state is well built and no two rules share a
  -- name, changes nothing: every rule keeps its arming, its hold, its last firing and its next
  -- occurrence.
  pub set_rules_same :
      (states : List (RuleState F C))
      → All WellBuilt states
      → UniqueNames states
      → set_rules parse (rules_of states) states ≡ (states, none)
  unfolding set_rules
  set_rules_same states w u =
      ground (arith, build_same states w, inherit_same states states w (find_own states u))

  module _ {V : Type 0} (fl : Float64 F) (next : C → Time → Time) where
    -- A tick keeps a state well built: as `build` makes it for its rule, up to its timers.
    pub tick_one-WellBuilt :
        (snap : Snapshot F V) (now : Time) (st : RuleState F C)
        → WellBuilt st
        → WellBuilt (tick_one fl next snap now st).0
    unfolding tick_one tick_blind tick_schedule tick_condition tick_true
    tick_one-WellBuilt snap now st w = ground (arith, w.unscheduled)
