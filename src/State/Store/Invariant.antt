-- ===== src/State/Store/Invariant.antt =====
-- What holds of the store between two operations.
use openwrt_wattline.Common.{
  ◌==◌, nat_eq, ◌%◌, ℕ, ◌≤◌, String, Bool, true, false, Option, List, length, All, All-append,
  All-drop, length-drop, ltb, ◌≡◌, ◌-◌, refl, arith, Bool-cases, inl, inr, Option-cases,
}
use openwrt_wattline.Common.Clock.{Time, minute}
use openwrt_wattline.Common.Float64.{Float64}
use openwrt_wattline.Proto.Telemetry.{Battery, DcPort, TypeCPort}
use openwrt_wattline.State.Pending.{
  UniqueIds, find_pending, insert_pending-UniqueIds, delete_pending-UniqueIds, insert_pending-All,
  delete_pending-All,
}
use openwrt_wattline.State.Snapshot.{
  CommandPhase, pending, Identity, Connection, CommandError, Command, Snapshot,
}
use openwrt_wattline.State.Subscriber.Delivery.{IsSound, enqueue_all-IsSound, cancel_at-IsSound}
use openwrt_wattline.State.Store.{
  Store, history_cap, recent_command_cap, keep_last, record_point, publish, apply, set_battery,
  set_dc, set_type_c, set_connected, set_identity, set_connection, begin_command, is_terminal,
  finish_found, finish_command, subscribe, unsubscribe, tell_all,
}

-- The pending commands have the phase pending and an ID each of their own; the recent ones have
-- ended, and are at most 32.
pub record CommandsValid {V : Type 0} (waiting recent : List (Command V)) : Type 0 where
  pub recent_bounded : length recent ≤ recent_command_cap
  pub recent_terminal : All (λ (c : Command V). is_terminal c.phase ≡ true) recent
  pub pending_phase : All (λ (c : Command V). c.phase ≡ pending) waiting
  pub pending_unique : UniqueIds waiting

pub record IsValid {F V : Type 0} (s : Store F V) : Type 0 where
  pub history_bounded : length s.history ≤ history_cap
  pub commands : CommandsValid s.snap.pending_commands s.snap.recent_commands
  pub subs_sound : All IsSound s.subs

keep_last-le {ℓ} : {A : Type ℓ} (n : ℕ) (l : List A) → length (keep_last n l) ≤ n
unfolding keep_last
keep_last-le n l = ground (arith, length-drop (length l - n) l)

keep_last-All {ℓ κ} :
    {A : Type ℓ} (P : A → Type κ) (n : ℕ) (l : List A) → All P l → All P (keep_last n l)
unfolding keep_last
keep_last-All P n l h = elim (Bool-cases (ltb n (length l))) [
  | inl long ↦ rw long (All-drop P (length l - n) l h)
  | inr short ↦ rw short h
]

tell_all-IsValid : {F V : Type 0} (s : Store F V) → IsValid s → IsValid (tell_all s)
unfolding tell_all
tell_all-IsValid s v = record {
  history_bounded = v.history_bounded;
  commands = v.commands;
  subs_sound = enqueue_all-IsSound s.snap s.subs v.subs_sound;
}

module _ {F V : Type 0} (fl : Float64 F) where
  stamped-IsValid :
      (t : Time) (s : Store F V)
      → IsValid s
      → IsValid (record s { snap = record (s.snap) { updated_at = t } })
  stamped-IsValid t s v = record {
    history_bounded = v.history_bounded;
    commands = v.commands;
    subs_sound = v.subs_sound;
  }

  record_point-IsValid : (now : Time) (s : Store F V) → IsValid s → IsValid (record_point fl now s)
  unfolding record_point
  record_point-IsValid now s v = elim (Bool-cases (now - now % minute == s.last_min)) [
    | inl same ↦ rw same v
    | inr later ↦ rw later (record {
      history_bounded = keep_last-le history_cap _;
      commands = v.commands;
      subs_sound = v.subs_sound;
    })
  ]

  publish-IsValid :
      (history : Bool) (t u : Time) (s : Store F V) → IsValid s → IsValid (publish fl history t u s)
  unfolding publish
  publish-IsValid true t u s v =
      tell_all-IsValid _ (record_point-IsValid u _ (stamped-IsValid t s v))
  publish-IsValid false t u s v = tell_all-IsValid _ (stamped-IsValid t s v)

  -- A change that leaves the commands alone keeps the store valid.
  apply-IsValid :
      (f : Snapshot F V → Snapshot F V) (history : Bool) (t u : Time) (s : Store F V)
      → CommandsValid (f s.snap).pending_commands (f s.snap).recent_commands
      → IsValid s
      → IsValid (apply fl f history t u s)
  unfolding apply
  apply-IsValid f history t u s c v =
      publish-IsValid history t u (record s { snap = f s.snap })
        (record { history_bounded = v.history_bounded; commands = c; subs_sound = v.subs_sound })

  begin_command-IsValid :
      (c : Command V) (t u : Time) (s : Store F V) → IsValid s → IsValid (begin_command fl c t u s)
  unfolding begin_command
  begin_command-IsValid c t u s v =
      apply-IsValid _ false u u s
        (record {
          recent_bounded = v.commands.recent_bounded;
          recent_terminal = v.commands.recent_terminal;
          pending_phase = insert_pending-All _ _ _ refl v.commands.pending_phase;
          pending_unique = insert_pending-UniqueIds _ _ v.commands.pending_unique;
        })
        v

  finish_found-IsValid :
      (id : String) (c : Command V) (phase : CommandPhase) (observed : Option V)
      (error : Option CommandError) (t u : Time) (s : Store F V)
      → is_terminal phase ≡ true
      → IsValid s
      → IsValid (finish_found fl id c phase observed error t u s).0
  unfolding finish_found
  finish_found-IsValid id c phase observed error t u s terminal v =
      publish-IsValid false u u _ (record {
        history_bounded = v.history_bounded;
        commands = record {
          recent_bounded = keep_last-le recent_command_cap _;
          recent_terminal =
              keep_last-All _ recent_command_cap _
                (All-append _ s.snap.recent_commands _ v.commands.recent_terminal (terminal, tt));
          pending_phase = delete_pending-All _ id _ v.commands.pending_phase;
          pending_unique = delete_pending-UniqueIds id _ v.commands.pending_unique;
        };
        subs_sound = v.subs_sound;
      })

  finish_command-IsValid :
      (id : String) (phase : CommandPhase) (observed : Option V) (error : Option CommandError)
      (t u : Time) (s : Store F V)
      → IsValid s
      → IsValid (finish_command fl id phase observed error t u s).0
  unfolding finish_command
  finish_command-IsValid id phase observed error t u s v = elim (Bool-cases (is_terminal phase)) [
    | inr running ↦ rw running v
    | inl terminal ↦ elim (Option-cases (find_pending id s.snap.pending_commands)) [
      | inl missing ↦ rw (terminal, missing) v
      | inr (c, found) ↦
          rw (terminal, found) (finish_found-IsValid id c phase observed error t u s terminal v)
    ]
  ]

  subscribe-IsValid : (s : Store F V) → IsValid s → IsValid (subscribe s).0
  unfolding subscribe
  subscribe-IsValid s v = record {
    history_bounded = v.history_bounded;
    commands = v.commands;
    subs_sound = All-append _ s.subs _ v.subs_sound (omega arith, tt);
  }

  unsubscribe-IsValid : (i : ℕ) (s : Store F V) → IsValid s → IsValid (unsubscribe i s)
  unfolding unsubscribe
  unsubscribe-IsValid i s v = record {
    history_bounded = v.history_bounded;
    commands = v.commands;
    subs_sound = cancel_at-IsSound i s.subs v.subs_sound;
  }

  -- One call of a method, with what it read from the clock.
  pub data Step : Store F V → Store F V → Type 0 where
    battery : (b : Battery F) (t u : Time) (s : Store F V) → Step s (set_battery fl b t u s)
    dc : (d : DcPort F) (t u : Time) (s : Store F V) → Step s (set_dc fl d t u s)
    type_c : (c : TypeCPort F) (t u : Time) (s : Store F V) → Step s (set_type_c fl c t u s)
    connected : (v : Bool) (t u : Time) (s : Store F V) → Step s (set_connected fl v t u s)
    identity : (i : Identity) (t : Time) (s : Store F V) → Step s (set_identity fl i t s)
    connection : (c : Connection) (t : Time) (s : Store F V) → Step s (set_connection fl c t s)
    begin : (c : Command V) (t u : Time) (s : Store F V) → Step s (begin_command fl c t u s)
    finish :
        (id : String) (phase : CommandPhase) (observed : Option V) (error : Option CommandError)
        (t u : Time) (s : Store F V)
        → Step s (finish_command fl id phase observed error t u s).0
    subscribed : (s : Store F V) → Step s (subscribe s).0
    unsubscribed : (i : ℕ) (s : Store F V) → Step s (unsubscribe i s)

  pub data Reach (s : Store F V) : Store F V → Type 0 where
    here : Reach s s
    next : {t u : Store F V} → Reach s t → Step t u → Reach s u

  Step-IsValid : {s t : Store F V} → Step s t → IsValid s → IsValid t
  unfolding set_battery set_dc set_type_c set_connected set_identity set_connection
  Step-IsValid (battery b t u s) v = apply-IsValid _ true t u s v.commands v
  Step-IsValid (dc d t u s) v = apply-IsValid _ true t u s v.commands v
  Step-IsValid (type_c c t u s) v = apply-IsValid _ true t u s v.commands v
  Step-IsValid (connected b t u s) v = apply-IsValid _ true t u s v.commands v
  Step-IsValid (identity i t s) v = apply-IsValid _ false t t s v.commands v
  Step-IsValid (connection c t s) v = apply-IsValid _ false t t s v.commands v
  Step-IsValid (begin c t u s) v = begin_command-IsValid c t u s v
  Step-IsValid (finish id phase observed error t u s) v =
      finish_command-IsValid id phase observed error t u s v
  Step-IsValid (subscribed s) v = subscribe-IsValid s v
  Step-IsValid (unsubscribed i s) v = unsubscribe-IsValid i s v

  -- From a valid store, whatever the methods that are called and whatever the clock says, the store
  -- stays valid: the history and the recent commands are within their caps, every recent command
  -- has ended and every pending one is pending, no two pending ones share an ID, and no channel is
  -- over its capacity or closed twice.
  pub Reach-IsValid : {s t : Store F V} → Reach s t → IsValid s → IsValid t
  Reach-IsValid here v = v
  Reach-IsValid (next r st) v = Step-IsValid st (Reach-IsValid r v)
