-- ===== src/State/Waiting.antt =====
-- Wait of store.go, over what the queue of its waiter hands on before its context ends.
use openwrt_wattline.Common.{Bool, true, List, [], ◌∷◌, if◌then◌else◌, ◌≡◌, arith}
use openwrt_wattline.Common.Result.{Result, ok, err}
use openwrt_wattline.State.Snapshot.{Snapshot}

-- ctx.Err() of a context that has ended
pub data ContextError : Type 0 where
  canceled deadline_exceeded : ContextError

module _ {F V : Type 0} where
  -- the loop of Wait: `arrivals` are the results of waiter.next, behind which the context has ended
  unfoldable pub wait :
      (Snapshot F V → Bool)
      → Snapshot F V
      → List (Snapshot F V)
      → ContextError
      → Result ContextError (Snapshot F V)
  wait predicate snap [] e = if predicate snap then ok snap else err e
  wait predicate snap (next ∷ arrivals) e =
      let rest = wait predicate next arrivals e in if predicate snap then ok snap else rest

  pub wait_confirmed :
      (predicate : Snapshot F V → Bool) (snap : Snapshot F V) (arrivals : List (Snapshot F V))
      (e : ContextError) (found : Snapshot F V)
      → wait predicate snap arrivals e ≡ ok found
      → predicate found ≡ true
  unfolding wait
  wait_confirmed predicate snap [] e found h = ground (arith, h)
  wait_confirmed predicate snap (next ∷ arrivals) e found h =
      ground (arith, h, wait_confirmed predicate next arrivals e found)
