-- ===== src/Auth/Store/Calls.antt =====
-- Any sequence of calls on a store that was opened.
use openwrt_wattline.Common.{ℕ, Option, nat_eq, ◌≡◌}
use openwrt_wattline.Common.Bytes.{Bytes, bytes_eq}
use openwrt_wattline.Common.Clock.{Time}
use openwrt_wattline.Common.Result.{ok}
use openwrt_wattline.Auth.Files.{FileSystem}
use openwrt_wattline.Auth.Tokens.{Codec}
use openwrt_wattline.Auth.Store.{
  Store, authenticate, issue, revoke, subscribe_revocation, cancel_subscription,
  invalidate_managed_subscribers,
}
use openwrt_wattline.Auth.Store.Open.{open_store}
use openwrt_wattline.Auth.Store.Opened.{open_store-IsValid}
use openwrt_wattline.Auth.Store.Invariant.{
  IsValid, cancel_subscription-IsValid, invalidate-IsValid, subscribe_revocation-IsValid,
}
use openwrt_wattline.Auth.Store.Preserved.{authenticate-IsValid, issue-IsValid, revoke-IsValid}

module _ {W F D : Type 0} (codec : Codec) (fs : FileSystem W F D)
    (read_full : ℕ → W → W × Option Bytes) where
  -- One call of the store, whatever it returns.
  pub data Call : Store W → Store W → Type 0 where
    authenticating :
        (secret : Bytes) (now : Time) (s : Store W) → Call s (authenticate codec fs secret now s).0
    issuing :
        (label : Bytes) (now : Time) (s : Store W) → Call s (issue codec fs read_full label now s).0
    revoking : (id : Bytes) (s : Store W) → Call s (revoke codec fs id s).0
    subscribing : (id : Bytes) (s : Store W) → Call s (subscribe_revocation id s).0
    cancelling : (id : Bytes) (c : ℕ) (s : Store W) → Call s (cancel_subscription id c s)
    invalidating : (s : Store W) → Call s (invalidate_managed_subscribers s)

  pub data Reachable : Store W → Type 0 where
    opened :
        (path bootstrap : Bytes) (now : Time) (w : W) (s : Store W)
        → (open_store codec fs path bootstrap now w).1 ≡ ok s
        → Reachable s
    called : (s t : Store W) → Reachable s → Call s t → Reachable t

  pub Call-IsValid : (s t : Store W) → Call s t → IsValid s → IsValid t
  Call-IsValid _ _ (authenticating secret now s) v = authenticate-IsValid codec fs secret now s v
  Call-IsValid _ _ (issuing label now s) v = issue-IsValid codec fs read_full label now s v
  Call-IsValid _ _ (revoking id s) v = revoke-IsValid codec fs id s v
  Call-IsValid _ _ (subscribing id s) v = subscribe_revocation-IsValid id s v
  Call-IsValid _ _ (cancelling id c s) v = cancel_subscription-IsValid id c s v
  Call-IsValid _ _ (invalidating s) v = invalidate-IsValid s v

  -- However a store was reached from the file: no two tokens have one ID or one hash, the bootstrap
  -- token is there, no channel was closed twice or is open behind its close, and every
  -- subscriber's token is there, managed and not invalidated.
  pub Reachable-IsValid : (s : Store W) → Reachable s → IsValid s
  Reachable-IsValid _ (opened path bootstrap now w s e) =
      (open_store-IsValid codec fs path bootstrap now w s e).0
  Reachable-IsValid _ (called s t r c) = Call-IsValid s t c (Reachable-IsValid s r)
