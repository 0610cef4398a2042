-- ===== src/Control.antt =====
-- internal/control: service.go. What the service asks of its surroundings is an interface; `W` is
-- the state of all of them, which others may change between the steps.
pub mod Completion
pub mod Requests
pub mod Timers
pub mod Gate
use openwrt_wattline.Common.{
  ℕ, String, Bool, true, false, not, ◌&&◌, ◌||◌, Option, none, some, List, [], ◌==◌, string_eq,
  nat_eq, bool_eq, if◌then◌else◌, ◌*◌,
}
use openwrt_wattline.Common.Clock.{Time, Duration, second}
use openwrt_wattline.Common.Float64.{Float64}
use openwrt_wattline.Common.Int.{pos}
use openwrt_wattline.Common.Result.{Result, ok, err}
use openwrt_wattline.Proto.Error.{ProtoError}
use openwrt_wattline.Proto.Features.{FeatureSet}
use openwrt_wattline.Proto.Telemetry.{DcPort, TypeCPort}
use openwrt_wattline.State.Snapshot.{
  Snapshot, Identity, Command, CommandPhase, CommandError, pending, confirmed, timeout, failed,
}
use openwrt_wattline.State.Store.{Store, begin_command, finish_command}
use openwrt_wattline.State.Waiting.{ContextError, canceled, deadline_exceeded, wait}

-- The errors of the service; `E` are those of a session.
pub data ControlError (E : Type 0) : Type 0 where
  internal disconnected unsupported advanced_disabled confirmation_timeout not_found :
      ControlError E
  ble : E → ControlError E
  ended : ContextError → ControlError E
  refused : ProtoError → ControlError E
  limit_type limit_mutable timer_reserved running_mode pin_range threshold_range : ControlError E

-- telemetryKind
pub data TelemetryKind : Type 0 where
  dc_telemetry type_c_telemetry : TelemetryKind

-- the payloads of a command: `map[string]any{"on": on}`, and a port
pub data Payload (F : Type 0) : Type 0 where
  requested_on : Bool → Payload F
  dc_port : DcPort F → Payload F
  type_c_port : TypeCPort F → Payload F

-- The methods of Session that the confirmed commands call.
pub data Control : Type 0 where
  dc_control type_c_output bypass_control : Bool → Control

-- `S` are sessions. `published` gives the snapshots that a waiter is handed until its context ends,
-- and the error of the context.
pub record Surroundings (W S E F : Type 0) : Type 0 where
  pub ctx_error : W → W × Option ContextError
  pub resolve : W → W × Option S
  pub now : W → W × Time
  pub new_id : W → W × Option String
  pub advanced : W → W × Bool
  pub store_clock : W → W × Time × Time
  pub control : S → Control → W → W × Option E
  pub published : Duration → W → W × List (Snapshot F (Payload F)) × ContextError
  pub store : W → Store F (Payload F)
  pub set_store : Store F (Payload F) → W → W

abbrev coded : String → String → Option CommandError
coded code message = some (record { code = code; message = message })

module _ {E : Type 0} where
  unfoldable pub command_error : Option (ControlError E) → Option CommandError
  command_error none = none
  command_error (some internal) = coded "internal_error" "Internal server error"
  command_error (some (ble e)) = coded "ble_operation_failed" "BLE operation failed"
  command_error (some disconnected) = coded "device_disconnected" "Link-Power is not connected"
  command_error (some unsupported) = coded "capability_unsupported" "Operation is not supported"
  command_error (some advanced_disabled) =
      coded "advanced_disabled" "Advanced operations are disabled"
  command_error (some confirmation_timeout) =
      coded "command_timeout" "Device telemetry did not confirm the command"
  command_error (some (ended e)) = coded "canceled" "Command was canceled"
  command_error (some _) = coded "internal_error" "Internal server error"

module _ {F V : Type 0} where
  -- appCommand: the identity, in application mode and with a command characteristic
  unfoldable pub app_command : (Identity → Bool) → Snapshot F V → Bool
  app_command capability sn = elim sn.device [
    | none ↦ false
    | some id ↦ id.mode == "app" && id.characteristics "command" && capability id
  ]

  unfoldable pub supports_dc : Snapshot F V → Bool
  supports_dc = app_command (λ id. id.feature_set.dc_out_control && id.characteristics "dc")

  unfoldable pub supports_type_c_output : Snapshot F V → Bool
  supports_type_c_output =
      app_command (λ id. id.feature_set.usb_output_control && id.characteristics "typec")

  unfoldable pub supports_bypass : Snapshot F V → Bool
  supports_bypass = app_command (λ id. id.feature_set.dc_bypass_control && id.characteristics "dc")

  unfoldable pub supports_limits : Snapshot F V → Bool
  supports_limits = app_command (λ id. id.feature_set.usb_power_limit)

  unfoldable pub supports_timers : Snapshot F V → Bool
  supports_timers = app_command (λ id. id.feature_set.dc_out_scheduler)

-- The arguments of reconcile.
pub record Plan (F : Type 0) : Type 0 where
  pub operation : String
  pub requested : Payload F
  pub kind : TelemetryKind
  pub patience : Duration
  pub supported : Snapshot F (Payload F) → Bool
  pub control : Control
  pub is_confirmed : Snapshot F (Payload F) → Bool

-- The results of reconcile; `none` is the zero Command.
pub record Outcome (E F : Type 0) : Type 0 where
  pub observed : Payload F
  pub command : Option (Command (Payload F))
  pub error : Option (ControlError E)

module _ {F : Type 0} (fl : Float64 F) where
  abbrev zero_dc : DcPort F
  zero_dc = record {
    enabled = false;
    status = pos 0;
    volts = fl.of_int (pos 0);
    amps = fl.of_int (pos 0);
    watts = fl.of_int (pos 0);
    bypass = false;
  }

  abbrev zero_type_c : TypeCPort F
  zero_type_c = record {
    enabled = false;
    status = pos 0;
    volts = fl.of_int (pos 0);
    amps = fl.of_int (pos 0);
    watts = fl.of_int (pos 0);
    temp_c = fl.of_int (pos 0);
    mode = 0;
    dc_input = false;
  }

  unfoldable pub observed_telemetry : Snapshot F (Payload F) → TelemetryKind → Payload F
  observed_telemetry sn type_c_telemetry = elim sn.type_c [
    | none ↦ type_c_port zero_type_c
    | some p ↦ type_c_port p
  ]
  observed_telemetry sn dc_telemetry = elim sn.dc [ none ↦ dc_port zero_dc | some p ↦ dc_port p ]

  -- SetDCResult, SetTypeCOutputResult and SetBypassResult: what they ask of reconcile
  unfoldable pub plan_dc : Bool → Plan F
  plan_dc on = record {
    operation = "dc_output";
    requested = requested_on on;
    kind = dc_telemetry;
    patience = pos (5 * second);
    supported = supports_dc;
    control = dc_control on;
    is_confirmed = λ sn. elim sn.dc [ none ↦ false | some p ↦ p.enabled == on ];
  }

  unfoldable pub plan_type_c_output : Bool → Plan F
  plan_type_c_output on = record {
    operation = "usbc_output";
    requested = requested_on on;
    kind = type_c_telemetry;
    patience = pos (5 * second);
    supported = supports_type_c_output;
    control = type_c_output on;
    is_confirmed = λ sn. elim sn.type_c [ none ↦ false | some p ↦ p.mode == (if on then 3 else 1) ];
  }

  unfoldable pub plan_bypass : Bool → Plan F
  plan_bypass on = record {
    operation = "dc_bypass";
    requested = requested_on on;
    kind = dc_telemetry;
    patience = pos (10 * second);
    supported = supports_bypass;
    control = bypass_control on;
    is_confirmed = λ sn. elim sn.dc [ none ↦ false | some p ↦ p.bypass == on ];
  }

module _ {W S E F : Type 0} (fl : Float64 F) (d : Surroundings W S E F) where
  abbrev current : TelemetryKind → W → Payload F
  current kind w = observed_telemetry fl (d.store w).snap kind

  -- an end without a command
  unfoldable pub stopped : TelemetryKind → ControlError E → W → W × Outcome E F
  stopped kind e w = (w, record { observed = current kind w; command = none; error = some e })

  -- the function `finish`
  unfoldable pub finish_with :
      String → CommandPhase → Payload F → Option (ControlError E) → W → W × Outcome E F
  finish_with id phase observed e w =
      let (w1, at, published_at) = d.store_clock w in
      let (s, ended_command) =
        finish_command fl id phase (some observed) (command_error e) at published_at (d.store w1) in
      let w2 = d.set_store s w1 in
      elim ended_command [
        | none ↦ (w2, record { observed = observed; command = none; error = some internal })
        | some c ↦ (w2, record { observed = observed; command = some c; error = e })
      ]

  -- finish(state.CommandFailed, current(), err)
  abbrev fail_with : String → TelemetryKind → ControlError E → W → W × Outcome E F
  fail_with id kind e w = finish_with id failed (current kind w) (some e) w

  -- the store's Wait, with a timeout of its own, and the three ends behind it. The context of the
  -- call is read again where that of the wait has run out.
  unfoldable pub await : String → Plan F → W → W × Outcome E F
  await id plan w =
      let (w1, arrivals, ending) = d.published plan.patience w in
      elim (wait plan.is_confirmed (d.store w).snap arrivals ending) [
        | ok sn ↦ finish_with id confirmed (observed_telemetry fl sn plan.kind) none w1
        | err canceled ↦ fail_with id plan.kind (ended canceled) w1
        | err deadline_exceeded ↦
            let (w2, over) = d.ctx_error w1 in
            elim over [
              | none ↦ finish_with id timeout (current plan.kind w2) (some confirmation_timeout) w2
              | some e ↦ fail_with id plan.kind (ended deadline_exceeded) w2
            ]
      ]

  -- from `issue(session)` on
  unfoldable pub issue_control : String → Plan F → S → W → W × Outcome E F
  issue_control id plan session w =
      let (w1, refusal) = d.control session plan.control w in
      let (w2, over) = d.ctx_error w1 in
      elim refusal [
        | some e ↦ fail_with id plan.kind (ble e) w1
        | none ↦ elim over [
          | some e ↦ fail_with id plan.kind (ended e) w2
          | none ↦ await id plan w2
        ]
      ]

  -- from BeginCommand on
  unfoldable pub run_begun : String → Plan F → Time → Option S → W → W × Outcome E F
  run_begun id plan started session w =
      let c : Command (Payload F) = record {
        id = id;
        operation = plan.operation;
        phase = pending;
        requested = some plan.requested;
        observed = none;
        started_at = started;
        updated_at = started;
        error = none;
      } in
      let (w1, begun, published_at) = d.store_clock w in
      let w2 = d.set_store (begin_command fl c begun published_at (d.store w1)) w1 in
      let (w3, over) = d.ctx_error w2 in
      elim over [
        | some e ↦ fail_with id plan.kind (ended e) w3
        | none ↦ elim session [
          | none ↦ fail_with id plan.kind disconnected w3
          | some s ↦
              if not (plan.supported (d.store w3).snap)
              then fail_with id plan.kind unsupported w3
              else issue_control id plan s w3
        ]
      ]

  unfoldable pub reconcile : Plan F → W → W × Outcome E F
  reconcile plan w =
      let (w1, over) = d.ctx_error w in
      let (w2, session) = d.resolve w1 in
      let (w3, started) = d.now w2 in
      let (w4, id) = d.new_id w3 in
      elim over [
        | some e ↦ stopped plan.kind (ended e) w1
        | none ↦ elim id [
          | none ↦ stopped plan.kind internal w4
          | some i ↦
              if i == "" then stopped plan.kind internal w4 else run_begun i plan started session w4
        ]
      ]
