-- ===== src/State/Store/History.antt =====
-- The history has one point a minute, in the order of time.
use openwrt_wattline.Common.{
  zero, suc, ℕ, ◌-◌, ◌%◌, ◌≤◌, ◌<◌, List, [], ◌∷◌, ◌++◌, length, drop, All, All-append, ◌≡◌, ◌≢◌,
  refl, arith, ltb, ◌==◌, nat_eq, Bool-cases, suc, inl, inr,
}
use openwrt_wattline.Common.Clock.{Time, minute}
use openwrt_wattline.Common.Float64.{Float64}
use openwrt_wattline.State.Snapshot.{HistoryPoint}
use openwrt_wattline.State.Store.{Store, history_cap, keep_last, record_point, point_at}

-- Each point is earlier than the next, and none is later than `last`.
abbrev pub Ordered : {F : Type 0} → Time → List (HistoryPoint F) → Type 0
Ordered last [] = Unit
Ordered last (p ∷ ps) =
    All (λ (q : HistoryPoint _). p.at < q.at) ps × (p.at ≤ last) × Ordered last ps

pub record InOrder {F V : Type 0} (s : Store F V) : Type 0 where
  pub ordered : Ordered s.last_min s.history
  pub whole : s.last_min % minute ≡ 0

module _ {F : Type 0} where
  Ordered-append :
      (last next : Time) (p : HistoryPoint F) (ps : List (HistoryPoint F))
      → last < next
      → p.at ≡ next
      → Ordered last ps
      → Ordered next (ps ++ p ∷ [])
  Ordered-append last next p [] lt e h = (tt, omega arith, tt)
  Ordered-append last next p (q ∷ qs) lt e h = (
    All-append _ qs (p ∷ []) h.0 (omega arith, tt),
    omega arith,
    Ordered-append last next p qs lt e h.2,
  )

  Ordered-drop :
      (last : Time) (n : ℕ) (ps : List (HistoryPoint F))
      → Ordered last ps
      → Ordered last (drop n ps)
  Ordered-drop last zero ps h = h
  Ordered-drop last (suc n) [] h = h
  Ordered-drop last (suc n) (p ∷ ps) h = Ordered-drop last n ps h.2

  Ordered-keep_last :
      (last : Time) (n : ℕ) (ps : List (HistoryPoint F))
      → Ordered last ps
      → Ordered last (keep_last n ps)
  unfolding keep_last
  Ordered-keep_last last n ps h = elim (Bool-cases (ltb n (length ps))) [
    | inl long ↦ rw long (Ordered-drop last (length ps - n) ps h)
    | inr short ↦ rw short h
  ]

later_minute :
    (last now : Time)
    → last % minute ≡ 0
    → last ≤ now
    → now - now % minute ≢ last
    → last < now - now % minute
later_minute last now w h ne = omega arith

module _ {F V : Type 0} (fl : Float64 F) where
  -- While the clock does not run backwards, recording keeps the points strictly in the order of
  -- their minutes, so that no minute has two.
  pub record_point-InOrder :
      (now : Time) (s : Store F V) → s.last_min ≤ now → InOrder s → InOrder (record_point fl now s)
  unfolding record_point
  record_point-InOrder now s h v = elim (Bool-cases (now - now % minute == s.last_min)) [
    | inl same ↦ rw same v
    | inr later ↦ rw later (record {
      ordered = Ordered-keep_last _ history_cap _ (
          Ordered-append s.last_min (now - now % minute) (point_at fl _ s.snap) s.history
            (later_minute _ now v.whole h (ground arith)) refl v.ordered);
      whole = omega arith;
    })
  ]
