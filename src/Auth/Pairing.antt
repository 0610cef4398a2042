-- ===== src/Auth/Pairing.antt =====
-- pairing.go: one function for each method, over the fields that the mutex guards. A reading of
-- the clock is an argument. The token store is behind the interface `Issuer`.
pub mod Invariant
pub mod Exchange
pub mod RateLimit
pub mod Policy
pub mod Guessing
pub mod Steps
pub mod Calls
use openwrt_wattline.Common.{
  ℕ, ◌+◌, Bool, true, false, not, ◌&&◌, ◌||◌, Option, none, some, List, [], ◌∷◌, length, String,
  ◌==◌, nat_eq, ltb, leb, if◌then◌else◌, ◌*◌,
}
use openwrt_wattline.Common.Bytes.{Bytes}
use openwrt_wattline.Common.Clock.{Time, Duration, zero_time, is_zero, before, add, minute}
use openwrt_wattline.Common.Int.{ℤ, pos, leb_ℤ, ltb_ℤ}
use openwrt_wattline.Common.Result.{Result, ok, err}
use openwrt_wattline.Auth.Pin.{Random, generate_pin}
use openwrt_wattline.Auth.Windows.{
  FailureWindow, no_failures, increment, expired, Sources, window_of, exists, put, remove, evict,
}

-- What the pairing asks of the token store: whether a label may be used, and Issue, which may fail.
-- `S` is the state of a store, `M` what Issue returns.
pub record Issuer (S M : Type 0) : Type 0 where
  pub valid_label : String → Bool
  pub issue : S → String → S × Option M

-- `tokens` is none for a nil store. The PIN is the bytes of its text.
pub record Pairing (S : Type 0) : Type 0 where
  pub tokens : Option S
  pub ttl : Duration
  pub always_on : Bool
  pub random : Random
  pub is_open : Bool
  pub pin : Bytes
  pub expires_at : Time
  pub last_now : Time
  pub source_limit : ℕ
  pub global_limit : ℕ
  pub rate_window : Duration
  pub sources : Sources
  pub global : FailureWindow

pub record PairingStatus : Type 0 where
  pub is_open : Bool
  pub expires_at : Time
  pub pin : Bytes

pub data PairingError : Type 0 where
  invalid_label invalid_or_expired_pin store_unavailable issue_failed : PairingError
  ttl_not_positive no_pin : PairingError

-- subtle.ConstantTimeCompare(a, b) == 1
unfoldable pub same_bytes : Bytes → Bytes → Bool
same_bytes [] [] = true
same_bytes [] (y ∷ ys) = false
same_bytes (x ∷ xs) [] = false
same_bytes (x ∷ xs) (y ∷ ys) = x == y && same_bytes xs ys

module _ {S : Type 0} where
  -- closeLocked
  unfoldable pub close : Pairing S → Pairing S
  close p = record p { is_open = false; pin = []; expires_at = zero_time }

  -- openLocked once the PIN was drawn, or could not be
  unfoldable pub opened : Time → Option Bytes → Pairing S → Pairing S
  opened now none p = close p
  opened now (some pin) p = record p { is_open = true; pin = pin; expires_at = add now p.ttl }

  -- openLocked
  unfoldable pub open_locked : Time → Pairing S → Pairing S
  open_locked now p =
      let (drawn, rest) = generate_pin p.random in opened now drawn (record p { random = rest })

  -- observeNowLocked, for a clock that reads `now`
  unfoldable pub observe_now : Time → Pairing S → Pairing S
  observe_now now p =
      if not (is_zero p.last_now) && before now p.last_now
      then (let q : Pairing S = record p { sources = []; global = no_failures } in
          let r : Pairing S = if q.always_on && q.is_open then open_locked now q else close q in
          record r { last_now = now })
      else record p { last_now = now }

  -- refreshLocked
  unfoldable pub refresh : Time → Pairing S → Pairing S
  refresh now p =
      if not p.is_open || before now p.expires_at
      then p
      else if p.always_on
      then open_locked now p
      else close p

  -- statusLocked(admin)
  unfoldable pub status_locked : Bool → Pairing S → PairingStatus
  status_locked admin p =
      if not p.is_open
      then record { is_open = false; expires_at = zero_time; pin = [] }
      else record { is_open = true; expires_at = p.expires_at; pin = if admin then p.pin else [] }

  -- Open, Status and Close
  unfoldable pub open_now : Time → Pairing S → Pairing S × PairingStatus
  open_now now p =
      let q : Pairing S = open_locked now (observe_now now p) in (q, status_locked true q)

  unfoldable pub status : Bool → Time → Pairing S → Pairing S × PairingStatus
  status admin now p =
      let q : Pairing S = refresh now (observe_now now p) in (q, status_locked admin q)

  -- NewPairing, with the options already applied: `none` leaves a default.
  unfoldable pub new_pairing :
      Option S → Duration → Bool → Random → ℕ → ℕ → Duration → Time → Pairing S
  new_pairing tokens ttl always_on random source_limit global_limit window now =
      let p : Pairing S = record {
        tokens = tokens;
        ttl = if leb_ℤ ttl (pos 0) then pos (5 * minute) else ttl;
        always_on = always_on;
        random = random;
        is_open = false;
        pin = [];
        expires_at = zero_time;
        last_now = zero_time;
        source_limit = source_limit;
        global_limit = global_limit;
        rate_window = window;
        sources = [];
        global = no_failures;
      } in
      if always_on then open_locked now (observe_now now p) else p

  -- expireFailureWindowsLocked, then expireSourceWindowLocked
  unfoldable pub expire_windows : String → Time → Pairing S → Pairing S
  expire_windows source now p = record p {
    global = if expired p.global now p.rate_window then no_failures else p.global;
    sources =
        if expired (window_of source p.sources) now p.rate_window
        then remove source p.sources
        else p.sources;
  }

  -- sourceCapacityAvailableLocked: it evicts only where the map has no room.
  unfoldable pub source_capacity : String → Time → Pairing S → Pairing S × Bool
  source_capacity source now p =
      if exists source p.sources || ltb (length p.sources) p.global_limit
      then (p, true)
      else let kept = evict now p.rate_window p.sources in
        (record p { sources = kept }, ltb (length kept) p.global_limit)

  -- rateLimitedLocked
  unfoldable pub rate_limited : String → Time → Pairing S → Pairing S × Bool
  rate_limited source now p =
      let q : Pairing S = expire_windows source now p in
      if leb q.global_limit q.global.count || leb q.source_limit (window_of source q.sources).count
      then (q, true)
      else let (r, room) = source_capacity source now q in (r, not room)

  -- recordFailureLocked
  unfoldable pub record_failure : String → Time → Pairing S → Pairing S
  record_failure source now p =
      let q : Pairing S = expire_windows source now p in
      let counted : Pairing S = record q { global = increment q.global now } in
      let (r, room) = source_capacity source now counted in
      if not room
      then r
      else record r { sources = put source (increment (window_of source r.sources) now) r.sources }

module _ {S M : Type 0} (store : Issuer S M) where
  -- p.tokens.Issue(label), behind the check for a nil store
  unfoldable pub enroll : String → Option S → Pairing S → Pairing S × Result PairingError M
  enroll label none p = (p, err store_unavailable)
  enroll label (some s) p =
      let (s', issued) = store.issue s label in
      let q : Pairing S = record p { tokens = some s' } in
      elim issued [ none ↦ (q, err issue_failed) | some m ↦ (q, ok m) ]

  -- Exchange behind the check of the rate
  unfoldable pub check_pin :
      String → Bytes → String → Time → Pairing S → Pairing S × Result PairingError M
  check_pin source pin label now p =
      if not p.is_open || not (same_bytes pin p.pin)
      then (record_failure source now p, err invalid_or_expired_pin)
      else enroll label p.tokens p

  unfoldable pub exchange :
      String → Bytes → String → Time → Pairing S → Pairing S × Result PairingError M
  exchange source pin label now p =
      if not (store.valid_label label)
      then (p, err invalid_label)
      else let q : Pairing S = refresh now (observe_now now p) in
        let (r, limited) = rate_limited source now q in
        if limited then (r, err invalid_or_expired_pin) else check_pin source pin label now r

-- what Reconfigure remembers for its rollback
pub record PolicyState : Type 0 where
  pub ttl : Duration
  pub always_on : Bool
  pub is_open : Bool
  pub pin : Bytes
  pub expires_at : Time

module _ {S : Type 0} where
  unfoldable pub policy_of : Pairing S → PolicyState
  policy_of p = record {
    ttl = p.ttl;
    always_on = p.always_on;
    is_open = p.is_open;
    pin = p.pin;
    expires_at = p.expires_at;
  }

  -- Reconfigure once a PIN was drawn, where one was wanted
  unfoldable pub apply_policy : Duration → Bool → Time → Bytes → Pairing S → Pairing S
  apply_policy ttl always_on now new_pin p =
      let q : Pairing S = record p { ttl = ttl; always_on = always_on } in
      if q.is_open
      then record q { expires_at = add now ttl }
      else if always_on
      then record q { is_open = true; pin = new_pin; expires_at = add now ttl }
      else q

  unfoldable pub reconfigure :
      Duration → Bool → Time → Pairing S → Pairing S × Result PairingError PolicyState
  reconfigure ttl always_on now p =
      if leb_ℤ ttl (pos 0)
      then (p, err ttl_not_positive)
      else let q : Pairing S = refresh now (observe_now now p) in
        if always_on && not q.is_open
        then (let (drawn, rest) = generate_pin q.random in
            let r : Pairing S = record q { random = rest } in
            elim drawn [
              | none ↦ (r, err no_pin)
              | some pin ↦ (apply_policy ttl always_on now pin r, ok (policy_of q))
            ])
        else (apply_policy ttl always_on now [] q, ok (policy_of q))

  -- the function that Reconfigure returns, on its first call
  unfoldable pub rollback : PolicyState → Pairing S → Pairing S
  rollback before p = record p {
    ttl = before.ttl;
    always_on = before.always_on;
    is_open = before.is_open;
    pin = before.pin;
    expires_at = before.expires_at;
  }

  -- RebindStore, with the store that its rollback brings back
  unfoldable pub rebind_store : Option S → Pairing S → Pairing S × Option S
  rebind_store tokens p = (record p { tokens = tokens }, p.tokens)
