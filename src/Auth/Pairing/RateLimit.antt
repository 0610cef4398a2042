-- ===== src/Auth/Pairing/RateLimit.antt =====
-- The rate limit: what a failure window may hold, and what a limited source gets.
use openwrt_wattline.Common.{
  ◌≤◌, ◌<◌, if◌then◌else◌, true, false, ◌||◌, not, [], ◌∷◌, length, String, ◌≡◌, refl, arith,
  Bool-cases, inl, inr, ltb, leb, string_eq,
}
use openwrt_wattline.Common.Clock.{Time, Duration}
use openwrt_wattline.Auth.Windows.{
  FailureWindow, no_failures, increment, Sources, window_of, exists, put, remove, evict,
  remove-Counted, evict-Counted, put-Counted, length-remove, length-evict, length-put,
}
use openwrt_wattline.Auth.Pairing.{
  Pairing, expire_windows, source_capacity, rate_limited, record_failure, policy_of,
}
use openwrt_wattline.Auth.Pairing.Invariant.{Limited}

window_of-evict :
    (source : String) (now : Time) (d : Duration) (m : Sources)
    → exists source m ≡ false
    → window_of source (evict now d m) ≡ no_failures
unfolding window_of evict exists
window_of-evict source now d [] h = refl
window_of-evict source now d ((s, w) ∷ m) h = ground (arith, window_of-evict source now d m)

window_of-remove :
    (source : String) (m : Sources) → window_of source (remove source m) ≡ no_failures
unfolding window_of remove
window_of-remove source [] = refl
window_of-remove source ((s, w) ∷ m) = ground (arith, window_of-remove source m)

module _ {S : Type 0} (source : String) (now : Time) where
  expire_windows-Limited : (p : Pairing S) → Limited p → Limited (expire_windows source now p)
  unfolding expire_windows
  expire_windows-Limited p l = record {
    global_bounded = let b = l.global_bounded in ground arith;
    sources_bounded = let b = l.sources_bounded in ground (arith, length-remove source p.sources);
    counted = let c = l.counted in ground (arith, remove-Counted p.source_limit source p.sources c);
  }

  -- Room for one more failure: of the source, and of all sources together.
  abbrev pub SourceRoom : Pairing S → Type 0
  SourceRoom p = (window_of source p.sources).count < p.source_limit

  abbrev pub GlobalRoom : Pairing S → Type 0
  GlobalRoom p = p.global.count < p.global_limit

  expire_windows-SourceRoom :
      (p : Pairing S) → SourceRoom p → SourceRoom (expire_windows source now p)
  unfolding expire_windows
  expire_windows-SourceRoom p h = ground (arith, window_of-remove source p.sources)

  expire_windows-GlobalRoom :
      (p : Pairing S) → GlobalRoom p → GlobalRoom (expire_windows source now p)
  unfolding expire_windows
  expire_windows-GlobalRoom p h = ground arith

  source_capacity-Limited : (p : Pairing S) → Limited p → Limited (source_capacity source now p).0
  unfolding source_capacity
  source_capacity-Limited p l =
      elim (Bool-cases (exists source p.sources || ltb (length p.sources) p.global_limit)) [
        | inl e ↦ rw e l
        | inr e ↦ rw e (record {
          global_bounded = l.global_bounded;
          sources_bounded =
              let b = l.sources_bounded in omega (arith, length-evict now p.rate_window p.sources);
          counted = evict-Counted p.source_limit now p.rate_window p.sources l.counted;
        })
      ]

  source_capacity-SourceRoom :
      (p : Pairing S) → SourceRoom p → SourceRoom (source_capacity source now p).0
  unfolding source_capacity
  source_capacity-SourceRoom p h =
      elim (Bool-cases (exists source p.sources || ltb (length p.sources) p.global_limit)) [
        | inl e ↦ rw e h
        | inr e ↦ rw e (ground (arith, window_of-evict source now p.rate_window p.sources))
      ]

  source_capacity-GlobalRoom :
      (p : Pairing S) → GlobalRoom p → GlobalRoom (source_capacity source now p).0
  unfolding source_capacity
  source_capacity-GlobalRoom p h = ground arith

  -- Where there is room, one more write leaves no more sources than the global limit.
  source_capacity-room :
      (p : Pairing S) (w : FailureWindow)
      → Limited p
      → (source_capacity source now p).1 ≡ true
      → length (put source w (source_capacity source now p).0.sources) ≤ p.global_limit
  unfolding source_capacity
  source_capacity-room p w l h =
      let b = l.sources_bounded in
      elim (Bool-cases (exists source p.sources || ltb (length p.sources) p.global_limit)) [
        | inl e ↦ rw e (ground (arith, length-put source w p.sources))
        | inr e ↦ ground (arith, length-put source w (evict now p.rate_window p.sources))
      ]

  source_capacity_limits :
      (p : Pairing S)
      → ((source_capacity source now p).0.source_limit ≡ p.source_limit)
        × ((source_capacity source now p).0.global_limit ≡ p.global_limit)
  unfolding source_capacity
  source_capacity_limits p = (ground arith, ground arith)

  -- A write of the failure window of the source, where there is room.
  add_failure-Limited :
      (r : Pairing S)
      → Limited r
      → (window_of source r.sources).count < r.source_limit
      → length (put source (increment (window_of source r.sources) now) r.sources) ≤ r.global_limit
      → Limited
          (record r { sources = put source (increment (window_of source r.sources) now) r.sources })
  unfolding increment
  add_failure-Limited r l h b = record {
    global_bounded = l.global_bounded;
    sources_bounded = b;
    counted = put-Counted r.source_limit source _ r.sources (omega arith) (omega arith) l.counted;
  }

  count_global :
      (p : Pairing S)
      → Limited p
      → GlobalRoom p
      → Limited (record p { global = increment p.global now })
  unfolding increment
  count_global p l h = record {
    global_bounded = omega arith;
    sources_bounded = l.sources_bounded;
    counted = l.counted;
  }

  -- recordFailureLocked behind the expiry of the windows
  count_failure-Limited :
      (p : Pairing S)
      → Limited p
      → SourceRoom p
      → Limited (
          let (r, room) = source_capacity source now p in
          if not room then r else record r {
            sources = put source (increment (window_of source r.sources) now) r.sources;
          })
  count_failure-Limited p l h =
      let r : Pairing S = (source_capacity source now p).0 in
      elim (Bool-cases (source_capacity source now p).1) [
        | inl e ↦ rw e (
            add_failure-Limited r (source_capacity-Limited p l) (source_capacity-SourceRoom p h) (
              omega (
                arith,
                source_capacity-room p (increment (window_of source r.sources) now) l e,
                source_capacity_limits p,
              )))
        | inr e ↦ rw e (source_capacity-Limited p l)
      ]

  pub record_failure-Limited :
      (p : Pairing S)
      → Limited p
      → SourceRoom p
      → GlobalRoom p
      → Limited (record_failure source now p)
  unfolding record_failure
  record_failure-Limited p l hs hg =
      let q : Pairing S = expire_windows source now p in
      count_failure-Limited (record q { global = increment q.global now })
        (count_global q (expire_windows-Limited p l) (expire_windows-GlobalRoom p hg))
        (expire_windows-SourceRoom p hs)

  -- A call that is not limited leaves room for a failure.
  pub rate_limited-room :
      (p : Pairing S)
      → (rate_limited source now p).1 ≡ false
      → SourceRoom (rate_limited source now p).0 × GlobalRoom (rate_limited source now p).0
  unfolding rate_limited
  rate_limited-room p h =
      let q : Pairing S = expire_windows source now p in
      elim (Bool-cases (
        leb q.global_limit q.global.count
        || leb q.source_limit (window_of source q.sources).count)) [
          | inl e ↦ ground arith
          | inr e ↦ rw e (
            source_capacity-SourceRoom q (ground arith),
            source_capacity-GlobalRoom q (ground arith),
          )
        ]

  pub rate_limited-Limited : (p : Pairing S) → Limited p → Limited (rate_limited source now p).0
  unfolding rate_limited
  rate_limited-Limited p l =
      let q : Pairing S = expire_windows source now p in
      elim (Bool-cases (
        leb q.global_limit q.global.count
        || leb q.source_limit (window_of source q.sources).count)) [
          | inl e ↦ rw e (expire_windows-Limited p l)
          | inr e ↦ rw e (source_capacity-Limited q (expire_windows-Limited p l))
        ]

  -- Counting failures leaves the policy and the PIN as they are.
  pub rate_limited-policy_of :
      (p : Pairing S) → policy_of (rate_limited source now p).0 ≡ policy_of p
  unfolding policy_of rate_limited source_capacity expire_windows
  rate_limited-policy_of p = ground arith

  pub record_failure-policy_of :
      (p : Pairing S) → policy_of (record_failure source now p) ≡ policy_of p
  unfolding policy_of record_failure source_capacity expire_windows
  record_failure-policy_of p = ground arith
