-- ===== src/Auth/Pairing/Guessing.antt =====
-- How many PINs can be tried.
use openwrt_wattline.Auth.Pairing.RateLimit.{rate_limited-room}
use openwrt_wattline.Common.{
  ℕ, ◌+◌, ◌≤◌, ◌<◌, if◌then◌else◌, Bool, false, ◌&&◌, ◌||◌, not, Option, none, some, List, [], ◌∷◌,
  String, ◌≡◌, refl, arith, inl, inr, nat_eq, Option-cases, Bool-cases, ◌∙◌, ap, ◌⊎◌, subst,
}
use openwrt_wattline.Common.Bytes.{Bytes}
use openwrt_wattline.Common.Clock.{Time, Duration}
use openwrt_wattline.Auth.Windows.{FailureWindow, increment, expired}
use openwrt_wattline.Auth.Pairing.{
  Issuer, Pairing, observe_now, refresh, close, exchange, check_pin, enroll, same_bytes,
  rate_limited, record_failure, expire_windows, source_capacity, opened, open_locked, generate_pin,
  true, pos,
}

-- One exchange, by whom and when.
pub record Attempt : Type 0 where
  pub source : String
  pub pin : Bytes
  pub label : String
  pub now : Time

-- The attempts are in the order of the clock, none before `low` and each before `high`.
abbrev pub Ordered : Time → Time → List Attempt → Type 0
Ordered low high [] = Unit
Ordered low high (a ∷ rest) = (low ≤ a.now) × (a.now < high) × Ordered a.now high rest

-- The part of a pairing that bounds the guesses of all sources together.
record Counters : Type 0 where
  global : FailureWindow
  rate_window : Duration
  global_limit : ℕ
  last_now : Time

abbrev window_over : Time → Counters → Bool
window_over now k = expired k.global now k.rate_window

module _ {S : Type 0} where
  unfoldable counters : Pairing S → Counters
  counters p = record {
    global = p.global;
    rate_window = p.rate_window;
    global_limit = p.global_limit;
    last_now = p.last_now;
  }

  open_locked-counters : (now : Time) (p : Pairing S) → counters (open_locked now p) ≡ counters p
  unfolding open_locked opened close counters
  open_locked-counters now p = elim (Option-cases (generate_pin p.random).0) [
    | inl e ↦ rw e refl
    | inr e ↦ rw (e.1) refl
  ]

  refresh-counters : (now : Time) (p : Pairing S) → counters (refresh now p) ≡ counters p
  unfolding counters refresh close
  refresh-counters now p = ground (arith, open_locked-counters now p)

  observe_now-counters :
      (now : Time) (p : Pairing S)
      → p.last_now ≤ now
      → counters (observe_now now p) ≡ record (counters p) { last_now = now }
  unfolding observe_now counters
  observe_now-counters now p h = ground arith

  rate_limited-counters :
      (source : String) (now : Time) (p : Pairing S)
      → expired p.global now p.rate_window ≡ false
      → counters (rate_limited source now p).0 ≡ counters p
  unfolding rate_limited source_capacity expire_windows counters
  rate_limited-counters source now p h = ground arith

  record_failure-counters :
      (source : String) (now : Time) (p : Pairing S)
      → expired p.global now p.rate_window ≡ false
      → counters (record_failure source now p)
        ≡ record (counters p) { global = increment p.global now }
  unfolding record_failure source_capacity expire_windows counters
  record_failure-counters source now p h = ground arith

module _ {S M : Type 0} (store : Issuer S M) where
  -- Whether the attempt got as far as a PIN that was then found wrong.
  unfoldable pub is_wrong_guess : Attempt → Pairing S → Bool
  is_wrong_guess a p =
      let q : Pairing S = refresh a.now (observe_now a.now p) in
      let r : Pairing S = (rate_limited a.source a.now q).0 in
      store.valid_label a.label
      && not (rate_limited a.source a.now q).1
      && (not r.is_open || not (same_bytes a.pin r.pin))

  unfoldable pub after : Attempt → Pairing S → Pairing S
  after a p = (exchange store a.source a.pin a.label a.now p).0

  unfoldable pub wrong_guesses : List Attempt → Pairing S → ℕ
  wrong_guesses [] p = 0
  wrong_guesses (a ∷ rest) p =
      let n = wrong_guesses rest (after a p) in if is_wrong_guess a p then n + 1 else n

  enroll-counters :
      (label : String) (tokens : Option S) (p : Pairing S)
      → counters (enroll store label tokens p).0 ≡ counters p
  unfolding enroll counters
  enroll-counters label none p = refl
  enroll-counters label (some s) p = elim (Option-cases (store.issue s label).1) [
    | inl e ↦ rw (e, enroll) refl
    | inr e ↦ rw (e.1, enroll) refl
  ]

  check_pin-counters :
      (source : String) (pin : Bytes) (label : String) (now : Time) (p : Pairing S)
      → expired p.global now p.rate_window ≡ false
      → counters (check_pin store source pin label now p).0 ≡ record (counters p) {
        global =
            if not p.is_open || not (same_bytes pin p.pin)
            then increment p.global now
            else p.global;
      }
  unfolding check_pin counters
  check_pin-counters source pin label now p h =
      elim (Bool-cases (not p.is_open || not (same_bytes pin p.pin))) [
        | inl e ↦ rw e (record_failure-counters source now p h)
        | inr e ↦ rw e (enroll-counters label p.tokens p)
      ]

  after-counters :
      (a : Attempt) (p : Pairing S)
      → p.last_now ≤ a.now
      → expired p.global a.now p.rate_window ≡ false
      → store.valid_label a.label ≡ true
      → counters (after a p) ≡ record (counters p) {
        global = if is_wrong_guess a p then increment p.global a.now else p.global;
        last_now = a.now;
      }
  unfolding after is_wrong_guess exchange counters
  after-counters a p h x v =
      let q : Pairing S = refresh a.now (observe_now a.now p) in
      let c : counters q ≡ record (counters p) { last_now = a.now } =
        refresh-counters a.now (observe_now a.now p) ∙ observe_now-counters a.now p h in
      let r : Pairing S = (rate_limited a.source a.now q).0 in
      let d : counters r ≡ record (counters p) { last_now = a.now } =
        rate_limited-counters a.source a.now q (ap (window_over a.now) c ∙ x) ∙ c in
      elim (Bool-cases (rate_limited a.source a.now q).1) [
        | inl l ↦ rw (v, l, after, exchange) d
        | inr l ↦
            rw (v, l, after, exchange)
              (check_pin-counters a.source a.pin a.label a.now r (ap (window_over a.now) d ∙ x)
                ∙ ap
                    (λ (k : Counters). record k {
                      global =
                          if not r.is_open || not (same_bytes a.pin r.pin)
                          then increment k.global a.now
                          else k.global;
                    })
                    d)
      ]

  -- A guess is counted only where there is room for it.
  wrong_guess-room :
      (a : Attempt) (p : Pairing S)
      → p.last_now ≤ a.now
      → expired p.global a.now p.rate_window ≡ false
      → is_wrong_guess a p ≡ true
      → p.global.count < p.global_limit
  unfolding is_wrong_guess counters
  wrong_guess-room a p h x g =
      let q : Pairing S = refresh a.now (observe_now a.now p) in
      let c : counters q ≡ record (counters p) { last_now = a.now } =
        refresh-counters a.now (observe_now a.now p) ∙ observe_now-counters a.now p h in
      let d : counters (rate_limited a.source a.now q).0
          ≡ record (counters p) { last_now = a.now } =
        rate_limited-counters a.source a.now q (ap (window_over a.now) c ∙ x) ∙ c in
      subst (λ (k : Counters). k.global.count < k.global_limit) d
        (rate_limited-room a.source a.now q (ground arith)).1

  -- A label that is refused is no guess, and changes nothing.
  after-refused :
      (a : Attempt) (p : Pairing S)
      → store.valid_label a.label ≡ false
      → (after a p ≡ p) × (is_wrong_guess a p ≡ false)
  unfolding after is_wrong_guess exchange
  after-refused a p v = (ground arith, ground arith)

  -- The window of all sources is empty or was started at `start` or later, within its limit.
  abbrev Budget : Time → Time → ℕ → Pairing S → Type 0
  Budget start low w p =
      (p.last_now ≤ low)
      × ((p.global.count ≡ 0) ⊎ (start ≤ p.global.started))
      × (p.global.count ≤ p.global_limit)
      × (p.rate_window ≡ pos w)

  Budget-expired :
      (start low w now : ℕ) (p : Pairing S)
      → now < start + w
      → Budget start low w p
      → expired p.global now p.rate_window ≡ false
  unfolding expired
  Budget-expired start low w now p h b = ground arith

  after-Budget :
      (start low w : ℕ) (a : Attempt) (p : Pairing S)
      → start ≤ low
      → low ≤ a.now
      → a.now < start + w
      → Budget start low w p
      → Budget start a.now w (after a p)
        × ((after a p).global_limit ≡ p.global_limit)
        × ((after a p).global.count
            ≡ (if is_wrong_guess a p then p.global.count + 1 else p.global.count))
  unfolding counters increment
  after-Budget start low w a p hs hl hw b =
      let x = Budget-expired start low w a.now p hw b in
      let room = wrong_guess-room a p (omega arith) x in
      elim (Bool-cases (store.valid_label a.label)) [
        | inl v ↦ let c = after-counters a p (omega arith) x v in ground arith
        | inr v ↦ let c = after-refused a p v in ground arith
      ]

  guesses-Budget :
      (start low w : ℕ) (attempts : List Attempt) (p : Pairing S)
      → start ≤ low
      → Ordered low (start + w) attempts
      → Budget start low w p
      → wrong_guesses attempts p + p.global.count ≤ p.global_limit
  unfolding wrong_guesses
  guesses-Budget start low w [] p hs ho b = omega arith
  guesses-Budget start low w (a ∷ rest) p hs ho b =
      let (b', e, c) = after-Budget start low w a p hs ho.0 ho.1 b in
      let ih = guesses-Budget start a.now w rest (after a p) (omega arith) ho.2 b' in ground arith

  -- However the exchanges are spread over sources and labels: from a pairing with no failure in its
  -- window, as many PINs as the global limit says are found wrong within one rate window, at most.
  pub wrong_guesses-global_limit :
      (start w : ℕ) (attempts : List Attempt) (p : Pairing S)
      → p.last_now ≤ start
      → p.global.count ≡ 0
      → p.rate_window ≡ pos w
      → Ordered start (start + w) attempts
      → wrong_guesses attempts p ≤ p.global_limit
  wrong_guesses-global_limit start w attempts p hl hc hw ho =
      let h =
        guesses-Budget start start w attempts p (omega arith) ho (hl, inl hc, omega arith, hw) in
      omega arith
