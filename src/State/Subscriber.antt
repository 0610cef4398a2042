-- ===== src/State/Subscriber.antt =====
-- The subscribers and waiters of store.go and device.go.
pub mod Delivery
use openwrt_wattline.Common.{
  ℕ, zero, suc, ◌+◌, Bool, true, false, not, List, [], ◌∷◌, ◌++◌, length, ltb, if◌then◌else◌,
}
use openwrt_wattline.State.Snapshot.{Snapshot}

abbrev pub queue_capacity : ℕ
queue_capacity = 128

-- A subscriber's channel: the frames in its buffer, whether the store still sends to it (it is a
-- key of `subs`), and how often it was closed. Go panics at a second close.
pub record Subscriber (F V : Type 0) : Type 0 where
  pub queue : List (Snapshot F V)
  pub registered : Bool
  pub closes : ℕ

module _ {F V : Type 0} where
  -- A send with `default`: the frame is refused where the buffer is full, and the channel closed.
  unfoldable pub enqueue : Snapshot F V → Subscriber F V → Subscriber F V
  enqueue frame s =
      if not s.registered
      then s
      else if ltb (length s.queue) queue_capacity
      then record s { queue = s.queue ++ frame ∷ [] }
      else record s { registered = false; closes = s.closes + 1 }

  unfoldable pub enqueue_all : Snapshot F V → List (Subscriber F V) → List (Subscriber F V)
  enqueue_all frame [] = []
  enqueue_all frame (s ∷ subs) = enqueue frame s ∷ enqueue_all frame subs

  unfoldable pub wake_all : Snapshot F V → List (List (Snapshot F V)) → List (List (Snapshot F V))
  wake_all frame [] = []
  wake_all frame (w ∷ waiters) = (w ++ frame ∷ []) ∷ wake_all frame waiters

  -- the function that SubscribeWithSnapshot returns: drain, then close
  unfoldable pub cancel : Subscriber F V → Subscriber F V
  cancel sub =
      if sub.registered
      then record { queue = []; registered = false; closes = sub.closes + 1 }
      else sub

  unfoldable pub cancel_at : ℕ → List (Subscriber F V) → List (Subscriber F V)
  cancel_at i [] = []
  cancel_at zero (s ∷ subs) = cancel s ∷ subs
  cancel_at (suc i) (s ∷ subs) = s ∷ cancel_at i subs
