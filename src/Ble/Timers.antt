-- ===== src/Ble/Timers.antt =====
-- controls.go of internal/ble: the timers on the device.
use openwrt_wattline.Common.{
  Option-cases, inl, inr, ℕ, ◌+◌, Bool, false, ◌||◌, not, Option, none, some, List, [], ◌∷◌, length,
  take, drop, ltb, leb, ◌==◌, nat_eq, if◌then◌else◌, ◌≡◌, ◌↔◌, ◌≤◌, refl, arith, subst, sym,
}
use openwrt_wattline.Common.Bytes.{Bytes, at}
use openwrt_wattline.Common.Result.{Result-cases, Result, ok, err}
use openwrt_wattline.Proto.Error.{is_err_result}
use openwrt_wattline.Proto.Schedule.{
  Timer, parse_timer, schedule_list, schedule_get, schedule_upsert, schedule_delete,
}
use openwrt_wattline.Ble.Session.{
  Transport, SessionError, reply_refused, timer_not_found, timer_payload_short, timer_id_mismatch,
  ids_empty, ids_short, assigned_id_missing, command, run, query, then_read,
}

unfoldable pub has_timer_id : Bytes → ℕ → Bool
has_timer_id [] id = false
has_timer_id (candidate ∷ ids) id = candidate == id || has_timer_id ids id

unfoldable pub strict_schedule_ids : {E : Type 0} → Bytes → Result (SessionError E) Bytes
strict_schedule_ids payload =
    if ltb (length payload) 1
    then err ids_empty
    else if ltb (length payload) (1 + at payload 0)
    then err (ids_short (at payload 0) (length payload))
    else ok (take (at payload 0) (drop 1 payload))

unfoldable pub strict_upsert_id : {E : Type 0} → Bytes → ℕ → Result (SessionError E) ℕ
strict_upsert_id payload requested =
    if leb 1 (length payload)
    then ok (at payload 0)
    else if requested == 0xff
    then err assigned_id_missing
    else ok requested

-- the error of a GET of one timer: ErrResult becomes ErrTimerNotFound
unfoldable pub get_timer_error : {E : Type 0} → SessionError E → SessionError E
get_timer_error (reply_refused e) = if is_err_result e then timer_not_found else reply_refused e
get_timer_error e = e

unfoldable pub timer_of : {E : Type 0} → ℕ → Bytes → Result (SessionError E) Timer
timer_of id payload =
    if ltb (length payload) 10
    then err (timer_payload_short id)
    else if not (at payload 0 == id)
    then err (timer_id_mismatch id)
    else elim (parse_timer (take 9 (drop 1 payload))) [
      | err e ↦ err (reply_refused e)
      | ok timer ↦ ok (record timer { id = id })
    ]

module _ {W E : Type 0} (t : Transport W E) where
  unfoldable pub timer_ids : W → W × Result (SessionError E) Bytes
  timer_ids = query t schedule_list strict_schedule_ids

  unfoldable pub get_timer : ℕ → W → W × Result (SessionError E) Timer
  get_timer id w =
      let (w', a) = command t (schedule_get id) w in
      elim a.error [ some e ↦ (w', err (get_timer_error e)) | none ↦ (w', timer_of id a.payload) ]

  -- the loop of listTimersLocked, which ends at the first error
  unfoldable pub get_timers : Bytes → W → W × Result (SessionError E) (List Timer)
  get_timers [] w = (w, ok [])
  get_timers (id ∷ ids) w =
      let (w1, one) = get_timer id w in
      let (w2, rest) = get_timers ids w1 in
      elim one [
        | err e ↦ (w1, err e)
        | ok timer ↦ elim rest [ err e ↦ (w2, err e) | ok timers ↦ (w2, ok (timer ∷ timers)) ]
      ]

  unfoldable pub list_timers : W → W × Result (SessionError E) (List Timer)
  list_timers w =
      let (w', ids) = timer_ids w in elim ids [ err e ↦ (w', err e) | ok ids ↦ get_timers ids w' ]

  -- AddTimer: an error of the last list stands beside the ID.
  unfoldable pub add_timer :
      Timer → W → W × Result (SessionError E) (ℕ × Result (SessionError E) (List Timer))
  add_timer timer w =
      let (w', a) = command t (schedule_upsert 0xff timer) w in
      elim a.error [
        | some e ↦ (w', err e)
        | none ↦ elim (strict_upsert_id a.payload 0xff) [
          | err e ↦ (w', err e)
          | ok id ↦ let (w2, timers) = list_timers w' in (w2, ok (id, timers))
        ]
      ]

  -- PutTimer and DeleteTimer behind the list of IDs
  unfoldable pub change_listed : ℕ → Bytes → W → Bytes → W × Result (SessionError E) (List Timer)
  change_listed id ids w req =
      if not (has_timer_id ids id) then (w, err timer_not_found) else then_read t req list_timers w

  unfoldable pub put_timer : ℕ → Timer → W → W × Result (SessionError E) (List Timer)
  put_timer id timer w =
      let (w', ids) = timer_ids w in
      elim ids [ err e ↦ (w', err e) | ok ids ↦ change_listed id ids w' (schedule_upsert id timer) ]

  unfoldable pub delete_timer : ℕ → W → W × Result (SessionError E) (List Timer)
  delete_timer id w =
      let (w', ids) = timer_ids w in
      elim ids [ err e ↦ (w', err e) | ok ids ↦ change_listed id ids w' (schedule_delete id) ]

  unfoldable pub upsert_schedule : ℕ → Timer → W → W × Result (SessionError E) ℕ
  upsert_schedule id timer =
      query t (schedule_upsert id timer) (λ payload. strict_upsert_id payload id)

  unfoldable pub delete_schedule : ℕ → W → W × Option (SessionError E)
  delete_schedule id = run t (schedule_delete id)

-- A timer with the ID `id`, read from a payload of at least ten bytes that starts with that ID.
pub record IsReading (id : ℕ) (payload : Bytes) (timer : Timer) : Type 0 where
  pub long : 10 ≤ length payload
  pub same_id : at payload 0 ≡ id
  pub parsed : Timer
  pub body : parse_timer (take 9 (drop 1 payload)) ≡ ok parsed
  pub whole : timer ≡ record parsed { id = id }

timer_of_iff :
    {E : Type 0} (id : ℕ) (payload : Bytes) (timer : Timer)
    → (timer_of {E = E} id payload ≡ ok timer) ↔ IsReading id payload timer
unfolding timer_of
timer_of_iff id payload timer = (
  λ h. elim (Result-cases (parse_timer (take 9 (drop 1 payload)))) [
    | inl (t, e) ↦ record {
      long = ground arith;
      same_id = ground arith;
      parsed = t;
      body = e;
      whole = ground arith;
    }
    | inr (x, e) ↦ absurd (ground arith)
  ],
  λ r. ground (arith, r.long, r.same_id, r.body, r.whole),
)

module _ {W E : Type 0} (t : Transport W E) where
  -- The device is asked for each ID in turn, and accepts each request; its answers are the timers.
  abbrev pub AreReadings : Bytes → W → List Timer → Type 0
  AreReadings [] w [] = Unit
  AreReadings [] w (timer ∷ timers) = ⊥
  AreReadings (id ∷ ids) w [] = ⊥
  AreReadings (id ∷ ids) w (timer ∷ timers) =
      ((command t (schedule_get id) w).1.error ≡ none)
      × IsReading id (command t (schedule_get id) w).1.payload timer
      × AreReadings ids (command t (schedule_get id) w).0 timers

  get_timer_iff :
      (id : ℕ) (w : W) (timer : Timer)
      → ((get_timer t id w).1 ≡ ok timer) ↔ (
          ((command t (schedule_get id) w).1.error ≡ none)
          × IsReading id (command t (schedule_get id) w).1.payload timer)
  unfolding get_timer
  get_timer_iff id w timer =
      let payload = (command t (schedule_get id) w).1.payload in
      (
        λ h. elim (Option-cases (command t (schedule_get id) w).1.error) [
          | inl e ↦ (e, (timer_of_iff {E = E} id payload timer).0 (ground arith))
          | inr (x, e) ↦ absurd (ground arith)
        ],
        λ (e, r). ground (arith, e, (timer_of_iff {E = E} id payload timer).1 r),
      )

  get_timer-state : (id : ℕ) (w : W) → (get_timer t id w).0 ≡ (command t (schedule_get id) w).0
  unfolding get_timer
  get_timer-state id w = ground arith

  -- The timers of a list of IDs are read without an error exactly when the device accepts the
  -- request for each of them, in the order of the list, and answers with at least ten bytes, the ID
  -- that was asked for and nine that parse; the timers are then those, one for each ID.
  pub get_timers-AreReadings :
      (ids : Bytes) (w : W) (timers : List Timer)
      → ((get_timers t ids w).1 ≡ ok timers) ↔ AreReadings ids w timers
  unfolding get_timers
  get_timers-AreReadings [] w [] = (λ h. tt, λ h. refl)
  get_timers-AreReadings [] w (timer ∷ timers) = (λ h. ground arith, λ h. absurd h)
  get_timers-AreReadings (id ∷ ids) w [] = (
    λ h. elim (Result-cases (get_timer t id w).1) [
      | inr e ↦ ground arith
      | inl one ↦ elim (Result-cases (get_timers t ids (get_timer t id w).0).1) [
        | inr e ↦ ground arith
        | inl rest ↦ ground arith
      ]
    ],
    λ h. absurd h,
  )
  get_timers-AreReadings (id ∷ ids) w (timer ∷ timers) =
      let w1 : W = (get_timer t id w).0 in
      let same : w1 ≡ (command t (schedule_get id) w).0 = get_timer-state id w in
      (
        λ h. elim (Result-cases (get_timer t id w).1) [
          | inr e ↦ absurd (ground arith)
          | inl (one, e) ↦ elim (Result-cases (get_timers t ids w1).1) [
            | inr r ↦ absurd (ground arith)
            | inl (rest, r) ↦
                let head = (get_timer_iff id w timer).0 (ground arith) in
                let tail = (get_timers-AreReadings ids w1 timers).0 (ground arith) in
                (head.0, head.1, subst (λ (v : W). AreReadings ids v timers) same tail)
          ]
        ],
        λ (e, r, more). ground (
          arith,
          (get_timer_iff id w timer).1 (e, r),
          (get_timers-AreReadings ids w1 timers).1
              (subst (λ (v : W). AreReadings ids v timers) (sym same) more),
        ),
      )

  -- Deleting a timer that the device does not list is refused, and writes no more than the query for
  -- the list: the state is the one after that query.
  pub delete_timer-missing :
      (id : ℕ) (w : W) (ids : Bytes)
      → (timer_ids t w).1 ≡ ok ids
      → has_timer_id ids id ≡ false
      → delete_timer t id w ≡ ((timer_ids t w).0, err timer_not_found)
  unfolding delete_timer change_listed
  delete_timer-missing id w ids h m = ground arith
