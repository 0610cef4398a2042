-- ===== src/Rules/Status.antt =====
-- Status of engine.go.
use openwrt_wattline.Common.{Bool, Option, none, some, List, [], ◌∷◌, String, if◌then◌else◌}
use openwrt_wattline.Common.Clock.{Time, Duration, is_zero, since}
use openwrt_wattline.Rules.Engine.{RuleState}

-- `holding_for` is the duration before it is rounded to seconds and printed.
pub record RuleStatus : Type 0 where
  pub name : String
  pub enabled : Bool
  pub armed : Bool
  pub holding_for : Option Duration
  pub last_fired : Option Time

-- time.Since reads the clock as `now`.
unfoldable pub rule_statuses : {F C : Type 0} → Time → List (RuleState F C) → List RuleStatus
rule_statuses now [] = []
rule_statuses now (st ∷ states) =
    record {
      name = st.rule.name;
      enabled = st.rule.enabled;
      armed = st.armed;
      holding_for = if is_zero st.hold_start then none else some (since now st.hold_start);
      last_fired = if is_zero st.last_fired then none else some st.last_fired;
    }
    ∷ rule_statuses now states
