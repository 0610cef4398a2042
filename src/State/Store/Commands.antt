-- ===== src/State/Store/Commands.antt =====
-- The life of a command in the store.
use openwrt_wattline.Common.{
  String, true, Option, none, some, [], ◌∷◌, ◌++◌, ◌≡◌, refl, if◌then◌else◌, ◌==◌, string_eq,
}
use openwrt_wattline.Common.Clock.{Time, is_zero}
use openwrt_wattline.Common.Float64.{Float64}
use openwrt_wattline.State.Pending.{
  find_pending, find_pending-insert_pending, find_pending-delete_pending,
}
use openwrt_wattline.State.Snapshot.{CommandPhase, pending, CommandError, Command}
use openwrt_wattline.State.Store.{
  Store, recent_command_cap, keep_last, publish, tell_all, apply, begin_command, is_terminal,
  finish_found, finish_command,
}

-- `c` as FinishCommand leaves it.
abbrev pub ended :
    {V : Type 0} → Command V → CommandPhase → Option V → Option CommandError → Time → Command V
ended c phase observed error t = record c {
  phase = phase;
  observed = observed;
  updated_at = t;
  error = error;
}

module _ {F V : Type 0} (fl : Float64 F) where
  -- After BeginCommand its ID is found, as a pending command, and every other ID as before.
  pub find_pending-begin_command :
      (c : Command V) (t u : Time) (s : Store F V) (id : String)
      → (find_pending id (begin_command fl c t u s).snap.pending_commands) ≡ (
          if c.id == id
          then some (record c {
            phase = pending;
            started_at = if is_zero c.started_at then t else c.started_at;
            updated_at = if is_zero c.updated_at then t else c.updated_at;
          })
          else find_pending id s.snap.pending_commands)
  unfolding begin_command apply publish tell_all
  find_pending-begin_command c t u s id = find_pending-insert_pending _ id s.snap.pending_commands

  pub finish_command-found :
      (id : String) (phase : CommandPhase) (observed : Option V) (error : Option CommandError)
      (t u : Time) (s : Store F V) (c : Command V) (other : String)
      → is_terminal phase ≡ true
      → find_pending id s.snap.pending_commands ≡ some c
      → let (s', result) = finish_command fl id phase observed error t u s in
        (result ≡ some (ended c phase observed error t))
        × (s'.snap.recent_commands
            ≡ keep_last recent_command_cap
                (s.snap.recent_commands ++ ended c phase observed error t ∷ []))
        × (find_pending other s'.snap.pending_commands
            ≡ (if id == other then none else find_pending other s.snap.pending_commands))
  unfolding finish_command finish_found publish tell_all
  finish_command-found id phase observed error t u s c other terminal found =
      rw (terminal, found)
        (refl, refl, find_pending-delete_pending id other s.snap.pending_commands)
