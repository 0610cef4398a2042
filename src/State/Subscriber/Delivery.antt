-- ===== src/State/Subscriber/Delivery.antt =====
-- What a subscriber that reads nothing meanwhile finds in its channel.
use openwrt_wattline.Common.{
  zero, ℕ, zero, suc, ◌+◌, ◌≤◌, true, false, List, [], ◌∷◌, ◌++◌, length, take, All, length-append,
  leb, ◌≡◌, refl, arith, if◌then◌else◌, dec_lt, ◌<◌, take-append, leb-false_of_lt,
}
use native.Mathlib.Nat.{zero-add}
use mathlib.Core.List.{append-nil, append_assoc}
use openwrt_wattline.State.Snapshot.{Snapshot}
use openwrt_wattline.State.Subscriber.{
  Subscriber, queue_capacity, enqueue, enqueue_all, cancel, cancel_at,
}

-- A channel within its capacity, closed exactly when the store has let go of it, and then once.
pub record IsSound {F V : Type 0} (s : Subscriber F V) : Type 0 where
  pub bounded : length s.queue ≤ queue_capacity
  pub closed_once : s.closes ≡ (if s.registered then 0 else 1)

module _ {F V : Type 0} where
  enqueue-IsSound :
      (frame : Snapshot F V) (s : Subscriber F V) → IsSound s → IsSound (enqueue frame s)
  unfolding enqueue
  enqueue-IsSound frame s h = ground (arith, length-append s.queue (frame ∷ []))

  pub enqueue_all-IsSound :
      (frame : Snapshot F V) (subs : List (Subscriber F V))
      → All IsSound subs
      → All IsSound (enqueue_all frame subs)
  unfolding enqueue_all
  enqueue_all-IsSound frame [] h = tt
  enqueue_all-IsSound frame (s ∷ subs) h =
      (enqueue-IsSound frame s h.0, enqueue_all-IsSound frame subs h.1)

  cancel-IsSound : (s : Subscriber F V) → IsSound s → IsSound (cancel s)
  unfolding cancel
  cancel-IsSound s h = ground arith

  pub cancel_at-IsSound :
      (i : ℕ) (subs : List (Subscriber F V)) → All IsSound subs → All IsSound (cancel_at i subs)
  unfolding cancel_at
  cancel_at-IsSound i [] h = tt
  cancel_at-IsSound zero (s ∷ subs) h = (cancel-IsSound s h.0, h.1)
  cancel_at-IsSound (suc i) (s ∷ subs) h = (h.0, cancel_at-IsSound i subs h.1)

  abbrev pub fresh : Subscriber F V
  fresh = record { queue = []; registered = true; closes = 0 }

  -- the frames of several publications, in their order
  unfoldable pub enqueue_each : List (Snapshot F V) → Subscriber F V → Subscriber F V
  enqueue_each [] s = s
  enqueue_each (f ∷ fs) s = enqueue_each fs (enqueue f s)

  enqueue_each-released :
      (fs : List (Snapshot F V)) (s : Subscriber F V) → s.registered ≡ false → enqueue_each fs s ≡ s
  unfolding enqueue_each enqueue
  enqueue_each-released [] s h = refl
  enqueue_each-released (f ∷ fs) s h =
      let same : enqueue f s ≡ s = ground arith in rw same (enqueue_each-released fs s h)

  -- A subscriber with `before` in its channel.
  abbrev holding : List (Snapshot F V) → Subscriber F V
  holding before = record { queue = before; registered = true; closes = 0 }

  abbrev overflowed : List (Snapshot F V) → Subscriber F V
  overflowed before = record { queue = before; registered = false; closes = 1 }

  enqueue-room :
      (f : Snapshot F V) (before : List (Snapshot F V))
      → length before < queue_capacity
      → enqueue f (holding before) ≡ holding (before ++ f ∷ [])
  unfolding enqueue
  enqueue-room f before h = ground arith

  enqueue-full :
      (f : Snapshot F V) (before : List (Snapshot F V))
      → ¬ (length before < queue_capacity)
      → enqueue f (holding before) ≡ overflowed before
  unfolding enqueue
  enqueue-full f before h = ground arith

  take_at :
      (before rest : List (Snapshot F V)) (n : ℕ)
      → length before ≡ n
      → take n (before ++ rest) ≡ before
  take_at before rest n h = rw (← h) (take-append before rest)

  enqueue_each-holding :
      (fs before : List (Snapshot F V))
      → length before ≤ queue_capacity
      → enqueue_each fs (holding before) ≡ (
          if leb (length before + length fs) queue_capacity
          then holding (before ++ fs)
          else overflowed (take queue_capacity (before ++ fs)))
  unfolding enqueue_each
  enqueue_each-holding [] before h = rw (append-nil before) (ground arith)
  enqueue_each-holding (f ∷ fs) before h = elim (dec_lt (length before) queue_capacity) [
    | yes room ↦
        rw
          (
            enqueue-room f before room,
            enqueue_each-holding fs (before ++ f ∷ [])
                (omega (arith, length-append before (f ∷ []))),
            append_assoc before (f ∷ []) fs,
          )
          (ground (arith, length-append before (f ∷ [])))
    | no full ↦ rw (
      enqueue-full f before full,
      enqueue_each-released fs (overflowed before) refl,
      leb-false_of_lt (length before + length (f ∷ fs)) queue_capacity (omega arith),
      take_at before (f ∷ fs) queue_capacity (omega arith),
    )
  ]

  -- The channel of a fresh subscriber that reads nothing, after these frames.
  abbrev pub holding_of : List (Snapshot F V) → Subscriber F V
  holding_of fs =
      if leb (length fs) queue_capacity
      then record { queue = fs; registered = true; closes = 0 }
      else record { queue = take queue_capacity fs; registered = false; closes = 1 }

  pub enqueue_each-fresh : (fs : List (Snapshot F V)) → enqueue_each fs fresh ≡ holding_of fs
  enqueue_each-fresh fs = rw zero-add at (enqueue_each-holding fs [] (omega arith))

  -- the frames of several publications, for all subscribers
  unfoldable pub each_of : List (Snapshot F V) → List (Subscriber F V) → List (Subscriber F V)
  each_of fs [] = []
  each_of fs (s ∷ subs) = enqueue_each fs s ∷ each_of fs subs

  pub each_of-nil : (subs : List (Subscriber F V)) → each_of [] subs ≡ subs
  unfolding each_of enqueue_each
  each_of-nil [] = refl
  each_of-nil (s ∷ subs) = rw (each_of-nil subs) refl

  pub each_of-cons :
      (f : Snapshot F V) (fs : List (Snapshot F V)) (subs : List (Subscriber F V))
      → each_of (f ∷ fs) subs ≡ each_of fs (enqueue_all f subs)
  unfolding each_of enqueue_each enqueue_all
  each_of-cons f fs [] = refl
  each_of-cons f fs (s ∷ subs) = rw (each_of-cons f fs subs) refl

  pub each_of-snoc :
      (fs : List (Snapshot F V)) (subs : List (Subscriber F V)) (s : Subscriber F V)
      → each_of fs (subs ++ s ∷ []) ≡ each_of fs subs ++ enqueue_each fs s ∷ []
  unfolding each_of
  each_of-snoc fs [] s = refl
  each_of-snoc fs (x ∷ subs) s = rw (each_of-snoc fs subs s) refl
