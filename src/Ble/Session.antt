-- ===== src/Ble/Session.antt =====
-- session.go and transport.go: one write-then-read transaction on the command characteristic. The
-- mutex makes it one step, and its context is the background, which never ends.
use openwrt_wattline.Common.{ℕ, Bool, Option, none, some, [], length, ◌==◌, nat_eq, if◌then◌else◌}
use openwrt_wattline.Common.Bytes.{Bytes}
use openwrt_wattline.Common.Result.{Result, ok, err}
use openwrt_wattline.Proto.Error.{ProtoError}
use openwrt_wattline.Proto.Frames.{Reply, validate_reply, dc_control, type_c_output, bypass_control}

-- What the session asks of a connection on the command characteristic: WriteChar and ReadChar. `W`
-- is the state of the connection and its device, `E` the errors.
pub record Transport (W E : Type 0) : Type 0 where
  pub write : W → Bytes → W × Option E
  pub read : W → W × Result E Bytes

pub data SessionError (E : Type 0) : Type 0 where
  empty_request : SessionError E
  connection_failed : E → SessionError E
  reply_refused : ProtoError → SessionError E
  timer_not_found : SessionError E
  timer_payload_short timer_id_mismatch : ℕ → SessionError E
  ids_empty : SessionError E
  ids_short : ℕ → ℕ → SessionError E
  assigned_id_missing : SessionError E
  barrier_free_payload : SessionError E
  pin_outside : ℕ → SessionError E

-- The three results of a command: as in ValidateReply, they may stand beside an error.
pub record Answer (E : Type 0) : Type 0 where
  pub result : ℕ
  pub payload : Bytes
  pub error : Option (SessionError E)

abbrev pub refused : {E : Type 0} → SessionError E → Answer E
refused e = record { result = 0; payload = []; error = some e }

-- the last line of commandContextLocked
unfoldable pub answer_of : {E : Type 0} → Reply → Answer E
answer_of r = record {
  result = r.result;
  payload = r.payload;
  error = elim r.error [ none ↦ none | some e ↦ some (reply_refused e) ];
}

module _ {W E : Type 0} (t : Transport W E) where
  -- commandContextLocked behind the write
  unfoldable pub read_reply : Bytes → W → W × Answer E
  read_reply req w =
      let (w', reply) = t.read w in
      elim reply [
        | err e ↦ (w', refused (connection_failed e))
        | ok b ↦ (w', answer_of (validate_reply req b))
      ]

  unfoldable pub command : Bytes → W → W × Answer E
  command req w =
      if length req == 0
      then (w, refused empty_request)
      else let (w', failed) = t.write w req in
        elim failed [ some e ↦ (w', refused (connection_failed e)) | none ↦ read_reply req w' ]

  -- `_, _, err := s.command(req)`
  unfoldable pub run : Bytes → W → W × Option (SessionError E)
  run req w = let (w', a) = command req w in (w', a.error)

  -- DCControl, TypeCOutput and BypassControl
  unfoldable pub set_dc_output : Bool → W → W × Option (SessionError E)
  set_dc_output on = run (dc_control on)

  unfoldable pub set_type_c_output : Bool → W → W × Option (SessionError E)
  set_type_c_output on = run (type_c_output on)

  unfoldable pub set_bypass : Bool → W → W × Option (SessionError E)
  set_bypass on = run (bypass_control on)

  -- `if err != nil { return …, err }`, then what is read from the payload
  unfoldable pub query :
      {A : Type 0} → Bytes → (Bytes → Result (SessionError E) A) → W → W × Result (SessionError E) A
  query req parse w =
      let (w', a) = command req w in
      elim a.error [ some e ↦ (w', err e) | none ↦ (w', parse a.payload) ]

  -- a write, then, where it did not fail, a read under the same lock
  unfoldable pub then_read :
      {A : Type 0} → Bytes → (W → W × Result (SessionError E) A) → W → W × Result (SessionError E) A
  then_read req next w =
      let (w', a) = command req w in elim a.error [ some e ↦ (w', err e) | none ↦ next w' ]
