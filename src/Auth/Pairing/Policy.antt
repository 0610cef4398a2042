-- ===== src/Auth/Pairing/Policy.antt =====
-- Reconfigure and its rollback.
use openwrt_wattline.Common.{Bool, true, ◌≡◌, arith}
use openwrt_wattline.Common.Clock.{Time, Duration, add}
use openwrt_wattline.Common.Int.{pos, ◌<ℤ◌}
use openwrt_wattline.Common.Result.{ok}
use openwrt_wattline.Auth.Pairing.{
  Pairing, PolicyState, observe_now, refresh, policy_of, apply_policy, reconfigure, rollback,
}

module _ {S : Type 0} where
  -- The rollback of a Reconfigure that succeeded brings back the policy, the PIN and its expiry that
  -- the call found once it had read the clock.
  pub rollback-reconfigure :
      (ttl : Duration) (always_on : Bool) (now : Time) (p : Pairing S) (before : PolicyState)
      → (reconfigure ttl always_on now p).1 ≡ ok before
      → policy_of (rollback before (reconfigure ttl always_on now p).0)
        ≡ policy_of (refresh now (observe_now now p))
  unfolding policy_of reconfigure rollback
  rollback-reconfigure ttl always_on now p before h = ground arith

  -- A Reconfigure to a positive duration, on a pairing that is open once the clock was read, sets the
  -- policy, moves the expiry to that far from now and keeps the PIN and all the rest.
  pub reconfigure-pin :
      (ttl : Duration) (always_on : Bool) (now : Time) (p : Pairing S)
      → pos 0 <ℤ ttl
      → (refresh now (observe_now now p)).is_open ≡ true
      → (reconfigure ttl always_on now p).0 ≡ (
          let q = refresh now (observe_now now p) in
          record q { ttl = ttl; always_on = always_on; expires_at = add now ttl })
  unfolding reconfigure apply_policy
  reconfigure-pin ttl always_on now p h o = ground arith
