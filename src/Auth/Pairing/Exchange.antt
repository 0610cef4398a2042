-- ===== src/Auth/Pairing/Exchange.antt =====
-- Exchange: when a PIN enrolls a client.
use openwrt_wattline.Auth.Pairing.RateLimit.{rate_limited-policy_of}
use openwrt_wattline.Common.{
  true, false, Option, none, some, [], ◌∷◌, String, ◌≡◌, ◌↔◌, refl, arith, inl, inr, nat_eq,
  nat_beq_iff, Option-cases, ◌∙◌, ap, sym, ◌≤◌, ◌≢◌,
}
use openwrt_wattline.Common.Bytes.{Bytes}
use openwrt_wattline.Common.Clock.{Time}
use openwrt_wattline.Common.Result.{ok}
use openwrt_wattline.Auth.Pairing.{
  Issuer, Pairing, PolicyState, observe_now, refresh, policy_of, exchange, check_pin, enroll,
  same_bytes, rate_limited, close, open_locked, source_capacity, expire_windows, opened,
  generate_pin, no_failures,
}

pub same_bytes-eq : (a b : Bytes) → (same_bytes a b ≡ true) ↔ (a ≡ b)
unfolding same_bytes
same_bytes-eq [] [] = (λ _. refl, λ _. refl)
same_bytes-eq [] (y ∷ ys) = (λ e. cc, λ e. ground arith)
same_bytes-eq (x ∷ xs) [] = (λ e. cc, λ e. ground arith)
same_bytes-eq (x ∷ xs) (y ∷ ys) = (
  λ e. ground (arith, nat_beq_iff x y, same_bytes-eq xs ys),
  λ e. ground (arith, nat_beq_iff x y, same_bytes-eq xs ys),
)

open_locked-tokens :
    {S : Type 0} (now : Time) (p : Pairing S) → (open_locked now p).tokens ≡ p.tokens
unfolding open_locked opened close
open_locked-tokens now p = elim (Option-cases (generate_pin p.random).0) [
  | inl e ↦ rw e refl
  | inr e ↦ rw (e.1) refl
]

observe_now-tokens :
    {S : Type 0} (now : Time) (p : Pairing S) → (observe_now now p).tokens ≡ p.tokens
unfolding observe_now close
observe_now-tokens now p =
    ground (arith, open_locked-tokens now (record p { sources = []; global = no_failures }))

refresh-tokens : {S : Type 0} (now : Time) (p : Pairing S) → (refresh now p).tokens ≡ p.tokens
unfolding refresh close
refresh-tokens now p = ground (arith, open_locked-tokens now p)

rate_limited-tokens :
    {S : Type 0} (source : String) (now : Time) (p : Pairing S)
    → (rate_limited source now p).0.tokens ≡ p.tokens
unfolding rate_limited source_capacity expire_windows
rate_limited-tokens source now p = ground arith

module _ {S M : Type 0} (store : Issuer S M) where
  -- What an exchange needs to enroll a client, where `q` is the pairing once the clock was read: a
  -- label in order, a source and a total of failures within the limits, an open pairing that shows
  -- this very PIN, and a store that issues `m`.
  pub record Enrolls (source : String) (pin : Bytes) (label : String) (now : Time) (p q : Pairing S)
      (m : M) : Type 0 where
    pub good_label : store.valid_label label ≡ true
    pub unlimited : (rate_limited source now q).1 ≡ false
    pub is_open : q.is_open ≡ true
    pub shown : pin ≡ q.pin
    pub issued : (s : S) × (p.tokens ≡ some s) × ((store.issue s label).1 ≡ some m)

  enroll-ok :
      (label : String) (tokens : Option S) (p : Pairing S) (m : M)
      → ((enroll store label tokens p).1 ≡ ok m)
        ↔ ((s : S) × (tokens ≡ some s) × ((store.issue s label).1 ≡ some m))
  unfolding enroll
  enroll-ok label none p m = (λ e. ground arith, λ e. ground arith)
  enroll-ok label (some s) p m = elim (Option-cases (store.issue s label).1) [
    | inl e ↦ (λ h. ground arith, λ h. ground arith)
    | inr e ↦ (λ h. (s, refl, ground arith), λ h. ground arith)
  ]

  check_pin-ok :
      (source : String) (pin : Bytes) (label : String) (now : Time) (p : Pairing S) (m : M)
      → ((check_pin store source pin label now p).1 ≡ ok m)
        ↔ ((p.is_open ≡ true) × (pin ≡ p.pin) × ((enroll store label p.tokens p).1 ≡ ok m))
  unfolding check_pin
  check_pin-ok source pin label now p m =
      (λ e. ground (arith, same_bytes-eq pin p.pin), λ e. ground (arith, same_bytes-eq pin p.pin))

  exchange-ok :
      (source : String) (pin : Bytes) (label : String) (now : Time) (p : Pairing S) (m : M)
      → ((exchange store source pin label now p).1 ≡ ok m) ↔ (
          (store.valid_label label ≡ true)
          × ((rate_limited source now (refresh now (observe_now now p))).1 ≡ false)
          × ((check_pin store source pin label now
                (rate_limited source now (refresh now (observe_now now p))).0).1
              ≡ ok m))
  unfolding exchange
  exchange-ok source pin label now p m = (λ e. ground arith, λ e. ground arith)

  -- An exchange enrolls a client exactly when the label is valid, the failures are within the limits,
  -- the pairing is open once the clock was read, the PIN is the one that it then shows, and its store
  -- issues a token for the label.
  pub exchange-Enrolls :
      (source : String) (pin : Bytes) (label : String) (now : Time) (p : Pairing S) (m : M)
      → ((exchange store source pin label now p).1 ≡ ok m)
        ↔ Enrolls source pin label now p (refresh now (observe_now now p)) m
  unfolding policy_of
  exchange-Enrolls source pin label now p m =
      let q : Pairing S = refresh now (observe_now now p) in
      let r : Pairing S = (rate_limited source now q).0 in
      let t : r.tokens ≡ p.tokens =
        rate_limited-tokens source now q
        ∙ refresh-tokens now (observe_now now p)
        ∙ observe_now-tokens now p in
      let w : policy_of r ≡ policy_of q = rate_limited-policy_of source now q in
      let opened : r.is_open ≡ q.is_open = ap (λ (x : PolicyState). x.is_open) w in
      let same_pin : r.pin ≡ q.pin = ap (λ (x : PolicyState). x.pin) w in
      (
        λ e.
            let h = (exchange-ok source pin label now p m).0 e in
            let c = (check_pin-ok source pin label now r m).0 h.2 in
            let (s, has, issued) = (enroll-ok label r.tokens r m).0 c.2 in
            record {
              good_label = h.0;
              unlimited = h.1;
              is_open = sym opened ∙ c.0;
              shown = c.1 ∙ same_pin;
              issued = (s, sym t ∙ has, issued);
            },
        λ e. (exchange-ok source pin label now p m).1 (
          e.good_label,
          e.unlimited,
          (check_pin-ok source pin label now r m).1 (
            opened ∙ e.is_open,
            e.shown ∙ sym same_pin,
            (enroll-ok label r.tokens r m).1 (e.issued.0, t ∙ e.issued.1, e.issued.2),
          ),
        ),
      )

  -- An exchange that the rate limit stops gives the same answer and leaves the same state for every
  -- PIN, the right one included.
  pub exchange-rate_limited :
      (source : String) (pin guess : Bytes) (label : String) (now : Time) (p : Pairing S)
      → (rate_limited source now (refresh now (observe_now now p))).1 ≡ true
      → exchange store source pin label now p ≡ exchange store source guess label now p
  unfolding exchange
  exchange-rate_limited source pin guess label now p h = ground arith

observe_now-closing :
    {S : Type 0} (now : Time) (p : Pairing S)
    → p.always_on ≡ false
    → p.expires_at ≤ now
    → ((observe_now now p).always_on ≡ false) × ((observe_now now p).expires_at ≤ now)
unfolding observe_now close
observe_now-closing now p h e = ground arith

refresh-closing :
    {S : Type 0} (now : Time) (p : Pairing S)
    → p.always_on ≡ false
    → p.expires_at ≤ now
    → (refresh now p).is_open ≡ false
unfolding refresh close
refresh-closing now p h e = ground arith

module _ {S M : Type 0} (store : Issuer S M) where
  -- Once its PIN has expired, a pairing that is not always on enrolls nobody, whatever the PIN and
  -- however the clock was set before.
  pub exchange_expired :
      (source : String) (pin : Bytes) (label : String) (now : Time) (p : Pairing S) (m : M)
      → p.always_on ≡ false
      → p.expires_at ≤ now
      → (exchange store source pin label now p).1 ≢ ok m
  exchange_expired source pin label now p m h e x =
      let w = (exchange-Enrolls store source pin label now p m).0 x in
      let a = w.is_open in
      let c = observe_now-closing now p h e in
      ground (arith, refresh-closing now (observe_now now p) c.0 c.1)
