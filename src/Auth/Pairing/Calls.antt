-- ===== src/Auth/Pairing/Calls.antt =====
-- What calls of the pairing can lead to.
use openwrt_wattline.Common.{ℕ, Bool, Option, List, [], ◌∷◌, ◌++◌, String, ◌≡◌, All}
use openwrt_wattline.Common.Bytes.{Bytes}
use openwrt_wattline.Common.Clock.{Time, Duration}
use openwrt_wattline.Common.Result.{ok, err}
use openwrt_wattline.Auth.Pin.{Random}
use openwrt_wattline.Auth.Pairing.{
  Issuer, Pairing, PolicyState, PairingError, open_now, status, close, exchange, reconfigure,
  rollback, rebind_store, new_pairing,
}
use openwrt_wattline.Auth.Pairing.Invariant.{IsValid, DoorValid, close-IsValid}
use openwrt_wattline.Auth.Pairing.Steps.{
  open_now-IsValid, status-IsValid, new_pairing-IsValid, reconfigure-IsValid, reconfigure-DoorValid,
  exchange-IsValid, set_tokens,
}

-- A pairing, with the rollbacks that its callers still hold.
abbrev pub World : Type 0 → Type 0
World S = Pairing S × List PolicyState

module _ {S M : Type 0} (store : Issuer S M) where
  -- One call under the mutex: a method, or a rollback that Reconfigure returned, called once.
  pub data Call : World S → World S → Type 0 where
    opening :
        (now : Time) (p : Pairing S) (held : List PolicyState)
        → Call (p, held) ((open_now now p).0, held)
    asking :
        (admin : Bool) (now : Time) (p : Pairing S) (held : List PolicyState)
        → Call (p, held) ((status admin now p).0, held)
    closing : (p : Pairing S) (held : List PolicyState) → Call (p, held) (close p, held)
    exchanging :
        (source : String) (pin : Bytes) (label : String) (now : Time) (p : Pairing S)
        (held : List PolicyState)
        → Call (p, held) ((exchange store source pin label now p).0, held)
    reconfiguring :
        (ttl : Duration) (always_on : Bool) (now : Time) (p : Pairing S) (held : List PolicyState)
        (before : PolicyState)
        → (reconfigure ttl always_on now p).1 ≡ ok before
        → Call (p, held) ((reconfigure ttl always_on now p).0, before ∷ held)
    refusing :
        (ttl : Duration) (always_on : Bool) (now : Time) (p : Pairing S) (held : List PolicyState)
        (e : PairingError)
        → (reconfigure ttl always_on now p).1 ≡ err e
        → Call (p, held) ((reconfigure ttl always_on now p).0, held)
    rolling_back :
        (p : Pairing S) (earlier : List PolicyState) (before : PolicyState)
        (later : List PolicyState)
        → Call (p, earlier ++ before ∷ later) (rollback before p, earlier ++ later)
    rebinding :
        (tokens : Option S) (p : Pairing S) (held : List PolicyState)
        → Call (p, held) ((rebind_store tokens p).0, held)

  -- What calls can lead to from a new pairing.
  pub data Reachable : World S → Type 0 where
    created :
        (tokens : Option S) (ttl : Duration) (always_on : Bool) (random : Random)
        (source_limit global_limit : ℕ) (window : Duration) (now : Time)
        → Reachable
            (new_pairing tokens ttl always_on random source_limit global_limit window now, [])
    called : (w w' : World S) → Reachable w → Call w w' → Reachable w'

  abbrev pub HeldValid : List PolicyState → Type 0
  HeldValid = All (λ (s : PolicyState). DoorValid s.is_open s.pin s.expires_at)

  abbrev pub WorldValid : World S → Type 0
  WorldValid w = IsValid w.0 × HeldValid w.1

  All-split :
      (earlier later : List PolicyState) (b : PolicyState)
      → HeldValid (earlier ++ b ∷ later)
      → HeldValid (earlier ++ later) × DoorValid b.is_open b.pin b.expires_at
  All-split [] later b h = (h.1, h.0)
  All-split (x ∷ earlier) later b h = let (k, d) = All-split earlier later b h.1 in ((h.0, k), d)

  rollback-IsValid :
      (b : PolicyState) (p : Pairing S)
      → DoorValid b.is_open b.pin b.expires_at
      → IsValid p
      → IsValid (rollback b p)
  unfolding rollback
  rollback-IsValid b p d v = record { door = d; limits = v.limits }

  Call-WorldValid : {w w' : World S} → Call w w' → WorldValid w → WorldValid w'
  unfolding rebind_store
  Call-WorldValid (opening now p held) (v, h) = (open_now-IsValid now p v, h)
  Call-WorldValid (asking admin now p held) (v, h) = (status-IsValid admin now p v, h)
  Call-WorldValid (closing p held) (v, h) = (close-IsValid p v, h)
  Call-WorldValid (exchanging source pin label now p held) (v, h) =
      (exchange-IsValid store source pin label now p v, h)
  Call-WorldValid (reconfiguring ttl always_on now p held before e) (v, h) = (
    reconfigure-IsValid ttl always_on now p v,
    (reconfigure-DoorValid ttl always_on now p before e v, h),
  )
  Call-WorldValid (refusing ttl always_on now p held e x) (v, h) =
      (reconfigure-IsValid ttl always_on now p v, h)
  Call-WorldValid (rolling_back p earlier before later) (v, h) =
      let (k, d) = All-split earlier later before h in (rollback-IsValid before p d v, k)
  Call-WorldValid (rebinding tokens p held) (v, h) = (set_tokens p tokens v, h)

  -- Whatever the calls, the clock and the random reader: an open pairing shows six digits and a
  -- closed one no PIN and no expiry; no failure window counts past its limit, and no more sources
  -- are remembered than the global limit. A rollback that is still held brings back no other state.
  pub Reachable-WorldValid : {w : World S} → Reachable w → WorldValid w
  Reachable-WorldValid (created tokens ttl always_on random source_limit global_limit window now) =
      (new_pairing-IsValid tokens ttl always_on random source_limit global_limit window now, tt)
  Reachable-WorldValid (called w w' r c) = Call-WorldValid c (Reachable-WorldValid r)
