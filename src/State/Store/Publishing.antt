-- ===== src/State/Store/Publishing.antt =====
-- What the publications of a store leave in the channels of its subscribers.
use openwrt_wattline.Common.{Bool, List, [], ◌∷◌, ◌++◌, ◌≡◌, refl, sym, ◌∙◌, arith, ap}
use openwrt_wattline.Common.Clock.{Time}
use openwrt_wattline.Common.Float64.{Float64}
use openwrt_wattline.State.Snapshot.{Snapshot}
use openwrt_wattline.State.Store.{
  Store, apply, publish, tell_all, record_point, subscribe, enqueue_all,
}
use openwrt_wattline.State.Subscriber.Delivery.{
  enqueue_each-fresh, each_of, each_of-nil, each_of-cons, each_of-snoc, holding_of,
}

-- One call of apply: how it changes the snapshot, whether it records a point of the history, and its
-- two readings of the clock.
pub record Publication (F V : Type 0) : Type 0 where
  pub change : Snapshot F V → Snapshot F V
  pub recorded : Bool
  pub now : Time
  pub now_record : Time

module _ {F V : Type 0} (fl : Float64 F) where
  unfoldable pub published_by : Publication F V → Store F V → Store F V
  published_by p = apply fl p.change p.recorded p.now p.now_record

  unfoldable pub publish_all : List (Publication F V) → Store F V → Store F V
  publish_all [] s = s
  publish_all (p ∷ ps) s = publish_all ps (published_by p s)

  -- the snapshots of the store behind each of them
  unfoldable pub frames_of : List (Publication F V) → Store F V → List (Snapshot F V)
  frames_of [] s = []
  frames_of (p ∷ ps) s = (published_by p s).snap ∷ frames_of ps (published_by p s)

  published_by-subs :
      (p : Publication F V) (s : Store F V)
      → (published_by p s).subs ≡ enqueue_all (published_by p s).snap s.subs
  unfolding published_by apply publish tell_all record_point
  published_by-subs p s = ground arith

  publish_all-subs :
      (ps : List (Publication F V)) (s : Store F V)
      → (publish_all ps s).subs ≡ each_of (frames_of ps s) s.subs
  unfolding publish_all frames_of
  publish_all-subs [] s = sym (each_of-nil s.subs)
  publish_all-subs (p ∷ ps) s =
      publish_all-subs ps (published_by p s)
      ∙ ap (each_of (frames_of ps (published_by p s))) (published_by-subs p s)
      ∙ sym (each_of-cons (published_by p s).snap (frames_of ps (published_by p s)) s.subs)

  -- A subscriber that reads nothing meanwhile holds the snapshots that the store had behind each
  -- publication since it subscribed, all of them and in their order, as long as there are at most
  -- 128; with more it holds the first 128, and its channel is closed, once. The other subscribers
  -- receive the same frames.
  pub publish_all-subscribe :
      (ps : List (Publication F V)) (s : Store F V)
      → let frames = frames_of ps (subscribe s).0 in
        (publish_all ps (subscribe s).0).subs ≡ each_of frames s.subs ++ holding_of frames ∷ []
  unfolding subscribe
  publish_all-subscribe ps s =
      let frames = frames_of ps (subscribe s).0 in
      publish_all-subs ps (subscribe s).0
      ∙ each_of-snoc frames s.subs _
      ∙ rw (enqueue_each-fresh frames) refl
