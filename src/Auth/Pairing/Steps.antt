-- ===== src/Auth/Pairing/Steps.antt =====
-- Each method keeps the invariant of the pairing.
use openwrt_wattline.Auth.Windows.{Counted}
use openwrt_wattline.Auth.Pin.Sampling.{IsPin, generate_pin-IsPin}
use openwrt_wattline.Common.{
  ◌&&◌, ◌||◌, none, some, Option, ℕ, ◌≡◌, refl, subst, sym, Bool-cases, Option-cases, arith, inl,
  inr,
}
use openwrt_wattline.Auth.Pairing.{
  Issuer, Pairing, PolicyState, observe_now, refresh, open_now, status, policy_of, exchange,
  check_pin, enroll, reconfigure, rate_limited, record_failure, new_pairing, apply_policy, Bool,
  Duration, Option, String, Time, Bytes, Random, some, false, leb_ℤ, true, not, pos, [], same_bytes,
  generate_pin, zero_time, no_failures, ok,
}
use openwrt_wattline.Auth.Pairing.Invariant.{
  IsValid, DoorValid, Limited, observe_now-IsValid, refresh-IsValid, open_locked-IsValid,
}
use openwrt_wattline.Auth.Pairing.RateLimit.{
  rate_limited-policy_of, record_failure-policy_of, rate_limited-Limited, record_failure-Limited,
  rate_limited-room, SourceRoom, GlobalRoom,
}

module _ {S : Type 0} where
  -- the policy carries what the door needs
  with_policy : (p q : Pairing S) → IsValid p → policy_of q ≡ policy_of p → Limited q → IsValid q
  unfolding policy_of
  with_policy p q v e l = record {
    door = subst (λ (s : PolicyState). DoorValid s.is_open s.pin s.expires_at) (sym e) v.door;
    limits = l;
  }

  pub rate_limited-IsValid :
      (source : String) (now : Time) (p : Pairing S)
      → IsValid p
      → IsValid (rate_limited source now p).0
  rate_limited-IsValid source now p v =
      with_policy p _ v (rate_limited-policy_of source now p)
        (rate_limited-Limited source now p v.limits)

  pub open_now-IsValid : (now : Time) (p : Pairing S) → IsValid p → IsValid (open_now now p).0
  unfolding open_now
  open_now-IsValid now p v = open_locked-IsValid now _ (observe_now-IsValid now p v)

  pub status-IsValid :
      (admin : Bool) (now : Time) (p : Pairing S) → IsValid p → IsValid (status admin now p).0
  unfolding status
  status-IsValid admin now p v = refresh-IsValid now _ (observe_now-IsValid now p v)

  pub blank-IsValid :
      (p : Pairing S)
      → p.is_open ≡ false
      → (p.pin ≡ []) × (p.expires_at ≡ zero_time)
      → (p.sources ≡ []) × (p.global ≡ no_failures)
      → IsValid p
  blank-IsValid p closed hidden clear = record {
    door = subst (λ (b : Bool). DoorValid b p.pin p.expires_at) (sym closed) hidden;
    limits = record {
      global_bounded = ground arith;
      sources_bounded = ground arith;
      counted = subst (Counted p.source_limit) (sym clear.0) tt;
    };
  }

  pub new_pairing-IsValid :
      (tokens : Option S) (ttl : Duration) (always_on : Bool) (random : Random)
      (source_limit global_limit : ℕ) (window : Duration) (now : Time)
      → IsValid (new_pairing tokens ttl always_on random source_limit global_limit window now)
  unfolding new_pairing
  new_pairing-IsValid tokens ttl false random source_limit global_limit window now =
      blank-IsValid _ refl (refl, refl) (refl, refl)
  new_pairing-IsValid tokens ttl true random source_limit global_limit window now =
      open_locked-IsValid now _
        (observe_now-IsValid now _ (blank-IsValid _ refl (refl, refl) (refl, refl)))

  pub apply_policy-IsValid :
      (ttl : Duration) (always_on : Bool) (now : Time) (pin : Bytes) (p : Pairing S)
      → (p.is_open ≡ false → always_on ≡ true → IsPin pin)
      → IsValid p
      → IsValid (apply_policy ttl always_on now pin p)
  unfolding apply_policy
  apply_policy-IsValid ttl always_on now pin p h v = elim (Bool-cases p.is_open) [
    | inl e ↦ rw e (record {
      door = subst (λ (b : Bool). DoorValid b p.pin p.expires_at) e v.door;
      limits = v.limits;
    })
    | inr e ↦ rw e (elim (Bool-cases always_on) [
      | inl a ↦ rw a (record { door = h e a; limits = v.limits })
      | inr a ↦ rw a (record {
        door = subst (λ (b : Bool). DoorValid b p.pin p.expires_at) e v.door;
        limits = v.limits;
      })
    ])
  ]

  set_random :
      (p : Pairing S) (random : Random) → IsValid p → IsValid (record p { random = random })
  set_random p random v = record { door = v.door; limits = v.limits }

  pub reconfigure-IsValid :
      (ttl : Duration) (always_on : Bool) (now : Time) (p : Pairing S)
      → IsValid p
      → IsValid (reconfigure ttl always_on now p).0
  unfolding reconfigure
  reconfigure-IsValid ttl always_on now p v =
      let q : Pairing S = refresh now (observe_now now p) in
      let w : IsValid q = refresh-IsValid now _ (observe_now-IsValid now p v) in
      elim (Bool-cases (leb_ℤ ttl (pos 0))) [
        | inl e ↦ rw e v
        | inr e ↦ rw e (elim (Bool-cases (always_on && not q.is_open)) [
          | inr closed ↦
              rw closed (apply_policy-IsValid ttl always_on now [] q (λ a b. ground arith) w)
          | inl closed ↦ rw closed (elim (Option-cases (generate_pin q.random).0) [
            | inl drawn ↦ rw drawn (set_random q _ w)
            | inr drawn ↦ rw drawn.1 (
                apply_policy-IsValid ttl always_on now drawn.0
                  (record q { random = (generate_pin q.random).1 })
                  (λ _ _. generate_pin-IsPin q.random drawn.0 drawn.1) (set_random q _ w))
          ])
        ])
      ]

  pub set_tokens :
      (p : Pairing S) (tokens : Option S) → IsValid p → IsValid (record p { tokens = tokens })
  set_tokens p tokens v = record { door = v.door; limits = v.limits }

module _ {S M : Type 0} (store : Issuer S M) (source : String) (pin : Bytes) (label : String)
    (now : Time) where
  pub enroll-IsValid :
      (tokens : Option S) (p : Pairing S) → IsValid p → IsValid (enroll store label tokens p).0
  unfolding enroll
  enroll-IsValid none p v = v
  enroll-IsValid (some s) p v = elim (Option-cases (store.issue s label).1) [
    | inl e ↦ rw (e, enroll) (set_tokens p (some (store.issue s label).0) v)
    | inr e ↦ rw (e.1, enroll) (set_tokens p (some (store.issue s label).0) v)
  ]

  pub check_pin-IsValid :
      (p : Pairing S)
      → IsValid p
      → SourceRoom source now p
      → GlobalRoom source now p
      → IsValid (check_pin store source pin label now p).0
  unfolding check_pin
  check_pin-IsValid p v hs hg = elim (Bool-cases (not p.is_open || not (same_bytes pin p.pin))) [
    | inl e ↦ rw e (
        with_policy p (record_failure source now p) v (record_failure-policy_of source now p)
          (record_failure-Limited source now p v.limits hs hg))
    | inr e ↦ rw e (enroll-IsValid p.tokens p v)
  ]

  pub exchange-IsValid :
      (p : Pairing S) → IsValid p → IsValid (exchange store source pin label now p).0
  unfolding exchange
  exchange-IsValid p v =
      let q : Pairing S = refresh now (observe_now now p) in
      let w : IsValid q = refresh-IsValid now _ (observe_now-IsValid now p v) in
      let r : IsValid (rate_limited source now q).0 = rate_limited-IsValid source now q w in
      elim (Bool-cases (store.valid_label label)) [
        | inr e ↦ rw e v
        | inl e ↦ rw e (elim (Bool-cases (rate_limited source now q).1) [
          | inl limited ↦ rw limited r
          | inr free ↦
              let room = rate_limited-room source now q free in
              rw free (check_pin-IsValid (rate_limited source now q).0 r room.0 room.1)
        ])
      ]

module _ {S : Type 0} where
  -- What a rollback brings back is a state of the door that was valid.
  pub reconfigure-DoorValid :
      (ttl : Duration) (always_on : Bool) (now : Time) (p : Pairing S) (before : PolicyState)
      → (reconfigure ttl always_on now p).1 ≡ ok before
      → IsValid p
      → DoorValid before.is_open before.pin before.expires_at
  unfolding reconfigure policy_of
  reconfigure-DoorValid ttl always_on now p before h v =
      let q : Pairing S = refresh now (observe_now now p) in
      let w : IsValid q = refresh-IsValid now _ (observe_now-IsValid now p v) in
      let e : policy_of q ≡ before = ground arith in
      subst (λ (s : PolicyState). DoorValid s.is_open s.pin s.expires_at) e w.door
