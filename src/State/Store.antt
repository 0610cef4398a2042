-- ===== src/State/Store.antt =====
-- The store of store.go and device.go: the fields that the mutex guards, and one function for each
-- method, which runs under the lock. What the source reads from the clock is an argument.
pub mod Invariant
pub mod Commands
pub mod History
pub mod Publishing
use openwrt_wattline.Common.{
  ℕ, zero, suc, ◌+◌, ◌-◌, ◌%◌, String, Bool, true, false, not, ◌&&◌, Option, none, some, List, [],
  ◌∷◌, ◌++◌, length, drop, ltb, ◌==◌, nat_eq, string_eq, if◌then◌else◌,
}
use openwrt_wattline.Common.Clock.{Time, is_zero, minute}
use openwrt_wattline.Common.Float64.{Float64}
use openwrt_wattline.Common.Int.{ℤ, pos}
use openwrt_wattline.Proto.Telemetry.{Battery, DcPort, TypeCPort}
use openwrt_wattline.State.Pending.{insert_pending, find_pending, delete_pending}
use openwrt_wattline.State.Subscriber.{Subscriber, enqueue_all, wake_all, cancel_at}
use openwrt_wattline.State.Snapshot.{
  CommandPhase, pending, confirmed, timeout, failed, Identity, Connection, CommandError, Command,
  Snapshot, HistoryPoint,
}

abbrev pub history_cap : ℕ
history_cap = 1440

abbrev pub recent_command_cap : ℕ
recent_command_cap = 32

-- A waiter is the queue of its snapshots.
pub record Store (F V : Type 0) : Type 0 where
  pub snap : Snapshot F V
  pub history : List (HistoryPoint F)
  pub last_min : Time
  pub subs : List (Subscriber F V)
  pub waiters : List (List (Snapshot F V))

-- `l = l[len(l)-cap:]` where the list is longer than the cap
unfoldable pub keep_last {ℓ} : {A : Type ℓ} → ℕ → List A → List A
keep_last cap l = if ltb cap (length l) then drop (length l - cap) l else l

abbrev level_of : {F : Type 0} → Option (Battery F) → ℕ
level_of none = 0
level_of (some b) = b.level

abbrev status_of : {F : Type 0} → Option (Battery F) → ℤ
status_of none = pos 0
status_of (some b) = b.status

module _ {F : Type 0} (fl : Float64 F) where
  abbrev dc_watts : Option (DcPort F) → F
  dc_watts none = fl.of_int (pos 0)
  dc_watts (some d) = d.watts

  abbrev type_c_watts : Option (TypeCPort F) → F
  type_c_watts none = fl.of_int (pos 0)
  type_c_watts (some c) = c.watts

abbrev pub is_terminal : CommandPhase → Bool
is_terminal confirmed = true
is_terminal timeout = true
is_terminal failed = true
is_terminal _ = false

-- the loops over `subs` and `waiters` at the end of publishLocked
unfoldable pub tell_all : {F V : Type 0} → Store F V → Store F V
tell_all s = record s { subs = enqueue_all s.snap s.subs; waiters = wake_all s.snap s.waiters }

module _ {F V : Type 0} (fl : Float64 F) where
  -- the point of the minute `min`
  abbrev point_at : Time → Snapshot F V → HistoryPoint F
  point_at min sn = record {
    at = min;
    level = level_of sn.battery;
    status = status_of sn.battery;
    dc_w = dc_watts fl sn.dc;
    type_c_w = type_c_watts fl sn.type_c;
  }

  -- record(), with `now` its reading of the clock
  unfoldable pub record_point : Time → Store F V → Store F V
  record_point now s =
      let min = now - now % minute in
      if min == s.last_min then s else record s {
        last_min = min;
        history = keep_last history_cap (s.history ++ point_at min s.snap ∷ []);
      }

  -- publishLocked(recordHistory), with its reading of the clock and that of record()
  unfoldable pub publish : Bool → Time → Time → Store F V → Store F V
  publish record_history now now_record s =
      let stamped : Store F V = record s { snap = record (s.snap) { updated_at = now } } in
      tell_all (if record_history then record_point now_record stamped else stamped)

  -- apply(f, recordHistory)
  unfoldable pub apply : (Snapshot F V → Snapshot F V) → Bool → Time → Time → Store F V → Store F V
  apply f record_history now now_record s =
      publish record_history now now_record (record s { snap = f s.snap })

  pub set_battery : Battery F → Time → Time → Store F V → Store F V
  set_battery b = apply (λ sn. record sn { battery = some b }) true

  pub set_dc : DcPort F → Time → Time → Store F V → Store F V
  set_dc d = apply (λ sn. record sn { dc = some d }) true

  pub set_type_c : TypeCPort F → Time → Time → Store F V → Store F V
  set_type_c c = apply (λ sn. record sn { type_c = some c }) true

  pub set_connected : Bool → Time → Time → Store F V → Store F V
  set_connected v = apply (λ sn. record sn { connected = v }) true

  pub set_identity : Identity → Time → Store F V → Store F V
  set_identity i now = apply (λ sn. record sn { device = some i }) false now now

  pub set_connection : Connection → Time → Store F V → Store F V
  set_connection c now = apply (λ sn. record sn { connection = some c }) false now now

  -- `begun` is the reading of the clock before the lock.
  unfoldable pub begin_command : Command V → Time → Time → Store F V → Store F V
  begin_command c begun now =
      let c' : Command V = record c {
        phase = pending;
        started_at = if is_zero c.started_at then begun else c.started_at;
        updated_at = if is_zero c.updated_at then begun else c.updated_at;
      } in
      apply (λ sn. record sn { pending_commands = insert_pending c' sn.pending_commands }) false now
        now

  -- FinishCommand once the command was found
  unfoldable pub finish_found :
      String
      → Command V
      → CommandPhase
      → Option V
      → Option CommandError
      → Time
      → Time
      → Store F V
      → Store F V × Option (Command V)
  finish_found id c phase observed error finished now s =
      let c' : Command V = record c {
        phase = phase;
        observed = observed;
        updated_at = finished;
        error = error;
      } in
      let snap' : Snapshot F V = record (s.snap) {
        pending_commands = delete_pending id s.snap.pending_commands;
        recent_commands = keep_last recent_command_cap (s.snap.recent_commands ++ c' ∷ []);
      } in
      (publish false now now (record s { snap = snap' }), some c')

  -- `none` is the result that says that there was nothing to finish.
  unfoldable pub finish_command :
      String
      → CommandPhase
      → Option V
      → Option CommandError
      → Time
      → Time
      → Store F V
      → Store F V × Option (Command V)
  finish_command id phase observed error finished now s =
      if not (is_terminal phase)
      then (s, none)
      else elim (find_pending id s.snap.pending_commands) [
        | none ↦ (s, none)
        | some c ↦ finish_found id c phase observed error finished now s
      ]

module _ {F V : Type 0} where
  -- SubscribeWithSnapshot: the new subscriber stands last.
  unfoldable pub subscribe : Store F V → Store F V × Snapshot F V
  subscribe s =
      let fresh : Subscriber F V = record { queue = []; registered = true; closes = 0 } in
      (record s { subs = s.subs ++ fresh ∷ [] }, s.snap)

  -- the function that SubscribeWithSnapshot returns, for the subscriber at a place in the list
  unfoldable pub unsubscribe : ℕ → Store F V → Store F V
  unsubscribe i s = record s { subs = cancel_at i s.subs }
