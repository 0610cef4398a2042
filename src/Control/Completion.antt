-- ===== src/Control/Completion.antt =====
-- Every command that reconcile begins is finished by it.
use openwrt_wattline.Common.{
  if◌then◌else◌, ◌==◌, string_eq, inl, inr, ◌⊎◌, Bool-cases, eq_iff, String, true, Option, none,
  some, ◌≡◌, refl, ◌∙◌, ap, arith, Option-cases, subst, sym, ◌≢◌,
}
use openwrt_wattline.Common.Clock.{Duration, Time, is_zero}
use openwrt_wattline.Common.Float64.{Float64}
use openwrt_wattline.Common.Result.{Result-cases}
use openwrt_wattline.State.Pending.{find_pending}
use openwrt_wattline.State.Snapshot.{Snapshot, Command, CommandPhase, confirmed, timeout, failed}
use openwrt_wattline.State.Store.{Store, finish_command, is_terminal}
use openwrt_wattline.State.Store.Commands.{
  finish_command-found, ended as left, find_pending-begin_command,
}
use openwrt_wattline.State.Waiting.{canceled, deadline_exceeded, wait, wait_confirmed}
use openwrt_wattline.Control.{
  disconnected, unsupported, run_begun, reconcile, ControlError, ended, confirmation_timeout,
  Control, Payload, Plan, Outcome, Surroundings, command_error, observed_telemetry, finish_with,
  await, fail_with, issue_control, ble, stopped, pending, begin_command, ContextError, internal,
}

-- The phase in which a command ends, by the error that is returned with it.
abbrev pub phase_of : {E : Type 0} → Option (ControlError E) → CommandPhase
phase_of none = confirmed
phase_of (some confirmation_timeout) = timeout
phase_of (some _) = failed

module _ {W S E F : Type 0} (fl : Float64 F) (d : Surroundings W S E F) where
  abbrev pub found : String → W → Option (Command (Payload F))
  found id w = find_pending id (d.store w).snap.pending_commands

  -- The store is read as it was written, and whoever runs between the steps of a command, other
  -- commands included, leaves the one with this ID alone while it is pending.
  pub record IsOrderly (id : String) : Type 0 where
    pub get_set : (s : Store F (Payload F)) (w : W) → d.store (d.set_store s w) ≡ s
    pub ctx_keeps :
        (c : Command (Payload F)) (w : W)
        → found id w ≡ some c
        → found id (d.ctx_error w).0 ≡ some c
    pub clock_keeps :
        (c : Command (Payload F)) (w : W)
        → found id w ≡ some c
        → found id (d.store_clock w).0 ≡ some c
    pub control_keeps :
        (c : Command (Payload F)) (s : S) (o : Control) (w : W)
        → found id w ≡ some c
        → found id (d.control s o w).0 ≡ some c
    pub published_keeps :
        (c : Command (Payload F)) (t : Duration) (w : W)
        → found id w ≡ some c
        → found id (d.published t w).0 ≡ some c

  -- What was observed: without an error, it is of a snapshot that confirms the command.
  abbrev pub Observed : Plan F → Option (ControlError E) → Payload F → Type 0
  Observed plan none observed =
      (sn : Snapshot F (Payload F)) × (plan.is_confirmed sn ≡ true)
      × (observed ≡ observed_telemetry fl sn plan.kind)
  Observed plan (some e) observed = Unit

  -- The command has ended, in the phase of the error, and is pending no longer.
  abbrev pub Finished : String → Plan F → W × Outcome E F → Type 0
  Finished id plan (w, o) =
      (c : Command (Payload F)) × (o.command ≡ some c)
      × (c.id ≡ id)
      × (c.phase ≡ phase_of o.error)
      × (c.error ≡ command_error o.error)
      × (found id w ≡ none)
      × Observed plan o.error o.observed

  abbrev pub Held : String → W → Type 0
  Held id w = (c : Command (Payload F)) × (found id w ≡ some c) × (c.id ≡ id)

module _ {W S E F : Type 0} (fl : Float64 F) (d : Surroundings W S E F) (id : String)
    (orderly : IsOrderly fl d id) where
  finish_with-Finished :
      (plan : Plan F) (observed : Payload F) (e : Option (ControlError E)) (w : W)
      → is_terminal (phase_of e) ≡ true
      → Observed fl d plan e observed
      → Held fl d id w
      → Finished fl d id plan (finish_with fl d id (phase_of e) observed e w)
  unfolding finish_with
  finish_with-Finished plan observed e w t o (c, f, n) =
      let w1 = (d.store_clock w).0 in
      let at = (d.store_clock w).1 in
      let published_at = (d.store_clock w).2 in
      let held : found fl d id w1 ≡ some c = orderly.clock_keeps c w f in
      let done =
        finish_command-found fl id (phase_of e) (some observed) (command_error e) at published_at
          (d.store w1) c id t held in
      let c' = left c (phase_of e) (some observed) (command_error e) at in
      let s' =
        (finish_command fl id (phase_of e) (some observed) (command_error e) at published_at
          (d.store w1)).0 in
      let gone : found fl d id (d.set_store s' w1) ≡ none =
        ap (λ (st : Store F (Payload F)). find_pending id st.snap.pending_commands)
          (orderly.get_set s' w1)
        ∙ done.2
        ∙ ground (arith, eq_iff id id) in
      let same : finish_with fl d id (phase_of e) observed e w
          ≡ (d.set_store s' w1, record { observed = observed; command = some c'; error = e }) =
        ground (arith, done.0) in
      subst (Finished fl d id plan) (sym same) (c', refl, n, refl, refl, gone, o)

  fail_with-Finished :
      (plan : Plan F) (e : ControlError E) (w : W)
      → phase_of (some e) ≡ failed
      → Held fl d id w
      → Finished fl d id plan (fail_with fl d id plan.kind e w)
  fail_with-Finished plan e w t held =
      let o = observed_telemetry fl (d.store w).snap plan.kind in
      subst (λ (p : CommandPhase). Finished fl d id plan (finish_with fl d id p o (some e) w)) t
        (finish_with-Finished plan o (some e) w (ap is_terminal t) tt held)

  await-Finished :
      (plan : Plan F) (w : W) → Held fl d id w → Finished fl d id plan (await fl d id plan w)
  unfolding await
  await-Finished plan w (c, f, n) =
      let w1 = (d.published plan.patience w).0 in
      let arrivals = (d.published plan.patience w).1 in
      let ending = (d.published plan.patience w).2 in
      let held1 : Held fl d id w1 = (c, orderly.published_keeps c plan.patience w f, n) in
      let waited = wait plan.is_confirmed (d.store w).snap arrivals ending in
      elim (Result-cases waited) [
        | inl (sn, r) ↦
            let o = observed_telemetry fl sn plan.kind in
            let same : await fl d id plan w ≡ finish_with fl d id confirmed o none w1 =
              ground (arith, r) in
            subst (Finished fl d id plan) (sym same) (
              finish_with-Finished plan o none w1 refl
                (sn, wait_confirmed plan.is_confirmed (d.store w).snap arrivals ending sn r, refl)
                held1)
        | inr (canceled, r) ↦
            let same : await fl d id plan w ≡ fail_with fl d id plan.kind (ended canceled) w1 =
              ground (arith, r) in
            subst (Finished fl d id plan) (sym same)
              (fail_with-Finished plan (ended canceled) w1 refl held1)
        | inr (deadline_exceeded, r) ↦
            let w2 = (d.ctx_error w1).0 in
            let held2 : Held fl d id w2 = (c, orderly.ctx_keeps c w1 held1.1, n) in
            elim (Option-cases (d.ctx_error w1).1) [
              | inl q ↦
                  let o = observed_telemetry fl (d.store w2).snap plan.kind in
                  let same : await fl d id plan w
                      ≡ finish_with fl d id timeout o (some confirmation_timeout) w2 =
                    ground (arith, r, q) in
                  subst (Finished fl d id plan) (sym same)
                    (finish_with-Finished plan o (some confirmation_timeout) w2 refl tt held2)
              | inr (e, q) ↦
                  let same : await fl d id plan w
                      ≡ fail_with fl d id plan.kind (ended deadline_exceeded) w2 =
                    ground (arith, r, q) in
                  subst (Finished fl d id plan) (sym same)
                    (fail_with-Finished plan (ended deadline_exceeded) w2 refl held2)
            ]
      ]

  issue_control-Finished :
      (plan : Plan F) (session : S) (w : W)
      → Held fl d id w
      → Finished fl d id plan (issue_control fl d id plan session w)
  unfolding issue_control
  issue_control-Finished plan session w (c, f, n) =
      let w1 = (d.control session plan.control w).0 in
      let w2 = (d.ctx_error w1).0 in
      let held1 : Held fl d id w1 = (c, orderly.control_keeps c session plan.control w f, n) in
      let held2 : Held fl d id w2 = (c, orderly.ctx_keeps c w1 held1.1, n) in
      elim (Option-cases (d.control session plan.control w).1) [
        | inr (e, r) ↦
            let same : issue_control fl d id plan session w
                ≡ fail_with fl d id plan.kind (ble e) w1 =
              ground (arith, r) in
            subst (Finished fl d id plan) (sym same) (fail_with-Finished plan (ble e) w1 refl held1)
        | inl r ↦ elim (Option-cases (d.ctx_error w1).1) [
          | inr (e, q) ↦
              let same : issue_control fl d id plan session w
                  ≡ fail_with fl d id plan.kind (ended e) w2 =
                ground (arith, r, q) in
              subst (Finished fl d id plan) (sym same)
                (fail_with-Finished plan (ended e) w2 refl held2)
          | inl q ↦
              let same : issue_control fl d id plan session w ≡ await fl d id plan w2 =
                ground (arith, r, q) in
              subst (Finished fl d id plan) (sym same) (await-Finished plan w2 held2)
        ]
      ]

  run_begun-Finished :
      (plan : Plan F) (started : Time) (session : Option S) (w : W)
      → Finished fl d id plan (run_begun fl d id plan started session w)
  unfolding run_begun
  run_begun-Finished plan started session w =
      let c : Command (Payload F) = record {
        id = id;
        operation = plan.operation;
        phase = pending;
        requested = some plan.requested;
        observed = none;
        started_at = started;
        updated_at = started;
        error = none;
      } in
      let w1 = (d.store_clock w).0 in
      let begun = (d.store_clock w).1 in
      let at = (d.store_clock w).2 in
      let s' = begin_command fl c begun at (d.store w1) in
      let w2 = d.set_store s' w1 in
      let w3 = (d.ctx_error w2).0 in
      let kept : Command (Payload F) = record c {
        phase = pending;
        started_at = if is_zero started then begun else started;
        updated_at = if is_zero started then begun else started;
      } in
      let held2 : Held fl d id w2 = (
        kept,
        ap (λ (st : Store F (Payload F)). find_pending id st.snap.pending_commands)
              (orderly.get_set s' w1)
            ∙ find_pending-begin_command fl c begun at (d.store w1) id
            ∙ ground (arith, eq_iff id id),
        refl,
      ) in
      let held3 : Held fl d id w3 = (held2.0, orderly.ctx_keeps kept w2 held2.1, held2.2) in
      elim (Option-cases (d.ctx_error w2).1) [
        | inr (e, q) ↦
            let same : run_begun fl d id plan started session w
                ≡ fail_with fl d id plan.kind (ended e) w3 =
              ground (arith, q) in
            subst (Finished fl d id plan) (sym same)
              (fail_with-Finished plan (ended e) w3 refl held3)
        | inl q ↦ elim (Option-cases session) [
          | inl r ↦
              let same : run_begun fl d id plan started session w
                  ≡ fail_with fl d id plan.kind disconnected w3 =
                ground (arith, q, r) in
              subst (Finished fl d id plan) (sym same)
                (fail_with-Finished plan disconnected w3 refl held3)
          | inr (s, r) ↦ elim (Bool-cases (plan.supported (d.store w3).snap)) [
            | inr b ↦
                let same : run_begun fl d id plan started session w
                    ≡ fail_with fl d id plan.kind unsupported w3 =
                  ground (arith, q, r, b) in
                subst (Finished fl d id plan) (sym same)
                  (fail_with-Finished plan unsupported w3 refl held3)
            | inl b ↦
                let same : run_begun fl d id plan started session w
                    ≡ issue_control fl d id plan s w3 =
                  ground (arith, q, r, b) in
                subst (Finished fl d id plan) (sym same) (issue_control-Finished plan s w3 held3)
          ]
        ]
      ]

module _ {W S E F : Type 0} (fl : Float64 F) (d : Surroundings W S E F) where
  -- What a call has done before it begins its command.
  abbrev pub checked : W → W × Option ContextError
  checked w = d.ctx_error w

  -- the ID of its command, and the state behind it
  abbrev pub named : W → W × Option String
  named w = d.new_id (d.now (d.resolve (checked w).0).0).0

  -- A call that begins no command: its context has ended or there is no ID. It writes nothing to the
  -- store, since the state is the one behind its questions, and returns the error.
  abbrev pub NotBegun : W → W × Outcome E F → Type 0
  NotBegun w (w', o) =
      (o.command ≡ none)
      × (((e : ContextError) × ((checked w).1 ≡ some e)
            × (w' ≡ (checked w).0)
            × (o.error ≡ some (ended e)))
          ⊎ (((checked w).1 ≡ none)
              × (((named w).1 ≡ none) ⊎ ((named w).1 ≡ some ""))
              × (w' ≡ (named w).0)
              × (o.error ≡ some internal)))

  -- Whatever the session, the telemetry and the contexts do, and whatever other commands run, as
  -- long as the store is read as it was last written and the others leave the command of this call
  -- alone while it is pending: a call of reconcile whose
  -- context has ended, or that gets no ID, begins no command, writes nothing and returns the
  -- error. Every other call begins a command with the ID that it got, and that command has
  -- ended: it is returned with its ID, in the phase that belongs to the error and with its
  -- code, it is pending no longer, and without an error what is returned was observed in a snapshot
  -- that confirms it.
  pub reconcile-Finished :
      (plan : Plan F) (w : W)
      → ((id : String) → (named w).1 ≡ some id → IsOrderly fl d id)
      → NotBegun w (reconcile fl d plan w)
        ⊎ ((id : String) × ((checked w).1 ≡ none)
            × ((named w).1 ≡ some id)
            × (id ≢ "")
            × Finished fl d id plan (reconcile fl d plan w))
  unfolding reconcile stopped
  reconcile-Finished plan w orderly =
      let w2 = (d.resolve (d.ctx_error w).0).0 in
      let w4 = (named w).0 in
      let started = (d.now w2).1 in
      let session = (d.resolve (d.ctx_error w).0).1 in
      elim (Option-cases (d.ctx_error w).1) [
        | inr (e, q) ↦ inl (ground (arith, q), inl (e, q, ground (arith, q), ground (arith, q)))
        | inl q ↦ elim (Option-cases (named w).1) [
          | inl r ↦
              inl (ground (arith, q, r), inr (q, inl r, ground (arith, q, r), ground (arith, q, r)))
          | inr (i, r) ↦ elim (Bool-cases (i == "")) [
            | inl b ↦ inl (
              ground (arith, q, r, b),
              inr (
                q,
                inr (r ∙ ap some ((eq_iff i "").0 b)),
                ground (arith, q, r, b),
                ground (arith, q, r, b),
              ),
            )
            | inr b ↦
                let same : reconcile fl d plan w ≡ run_begun fl d i plan started session w4 =
                  ground (arith, q, r, b) in
                inr (
                  i,
                  q,
                  r,
                  ground (arith, b, eq_iff i ""),
                  subst (Finished fl d i plan) (sym same)
                      (run_begun-Finished fl d i (orderly i r) plan started session w4),
                )
          ]
        ]
      ]
