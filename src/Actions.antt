-- ===== src/Actions.antt =====
-- actions.go: the actions of rules, dispatched to the device and to webhooks.
use openwrt_wattline.Common.{
  Bool, true, false, not, ◌||◌, Option, none, some, List, [], ◌∷◌, String, ℕ, ◌==◌, string_eq, leb,
  if◌then◌else◌, ◌≡◌, ◌≢◌, arith,
}
use openwrt_wattline.Common.Bytes.{Bytes}
use openwrt_wattline.Common.Clock.{Time}
use openwrt_wattline.Common.Result.{Result, ok, err}
use openwrt_wattline.State.Snapshot.{Snapshot}
use Prim.Native.String.{slice, len}
use text.Mathlib.Text.{starts_with}

-- The device behind the executor. `W` is the state of the world outside, `E` its errors.
pub record Device (W E : Type 0) : Type 0 where
  pub dc_control : Bool → W → W × Option E
  pub type_c_output : Bool → W → W × Option E
  pub bypass_control : Bool → W → W × Option E
  pub restart : W → W × Option E
  pub shutdown : W → W × Option E

pub record WebhookPayload (F V : Type 0) : Type 0 where
  pub rule : String
  pub device : String
  pub telemetry : Snapshot F V
  pub fired_at : Time

-- `post` is the POST of a body by the HTTP client, of which the status is read.
pub record Executor (W E : Type 0) : Type 0 where
  pub dev : Device W E
  pub name : String
  pub post : String → Bytes → W → W × Result E ℕ

pub data ActionError (E : Type 0) : Type 0 where
  unknown_action : String → ActionError E
  device_failed : E → ActionError E
  encode_failed : E → ActionError E
  webhook_failed : String → E → ActionError E
  webhook_status : String → ℕ → ActionError E

-- strings.CutPrefix(a, "webhook:")
abbrev pub webhook_url : String → Option String
webhook_url a = if starts_with a "webhook:" then some (slice a 8 (len a)) else none

abbrev is_device_action : String → Bool
is_device_action a =
    a == "dc_on"
    || a == "dc_off"
    || a == "usbc_on"
    || a == "usbc_off"
    || a == "bypass_on"
    || a == "bypass_off"
    || a == "restart"
    || a == "shutdown"

-- `true` is the nil error.
unfoldable pub validate_action : String → Bool
validate_action a =
    if is_device_action a
    then true
    else elim (webhook_url a) [ none ↦ false | some url ↦ not (url == "") ]

-- `marshal` is json.Marshal of a payload.
module _ {W E F V : Type 0} (marshal : WebhookPayload F V → Result E Bytes) (x : Executor W E)
    (snap : Snapshot F V) (rule : String) (fired_at : Time) where
  abbrev failed : W × Option E → W × Option (ActionError E)
  failed (w, none) = (w, none)
  failed (w, some e) = (w, some (device_failed e))

  -- the webhook branch
  unfoldable pub send : String → W → W × Option (ActionError E)
  send url w =
      let payload : WebhookPayload F V = record {
        rule = rule;
        device = x.name;
        telemetry = snap;
        fired_at = fired_at;
      } in
      elim (marshal payload) [
        | err e ↦ (w, some (encode_failed e))
        | ok body ↦
            let (w', reply) = x.post url body w in
            elim reply [
              | err e ↦ (w', some (webhook_failed url e))
              | ok code ↦ (w', if leb 400 code then some (webhook_status url code) else none)
            ]
      ]

  unfoldable pub one : String → W → W × Option (ActionError E)
  one a w =
      if a == "dc_on"
      then failed (x.dev.dc_control true w)
      else if a == "dc_off"
      then failed (x.dev.dc_control false w)
      else if a == "usbc_on"
      then failed (x.dev.type_c_output true w)
      else if a == "usbc_off"
      then failed (x.dev.type_c_output false w)
      else if a == "bypass_on"
      then failed (x.dev.bypass_control true w)
      else if a == "bypass_off"
      then failed (x.dev.bypass_control false w)
      else if a == "restart"
      then failed (x.dev.restart w)
      else if a == "shutdown"
      then failed (x.dev.shutdown w)
      else elim (webhook_url a) [ none ↦ (w, some (unknown_action a)) | some url ↦ send url w ]

  -- Execute: the errors, each with its action
  unfoldable pub execute : List String → W → W × List (String × ActionError E)
  execute [] w = (w, [])
  execute (a ∷ actions) w =
      let (w1, failure) = one a w in
      let (w2, errs) = execute actions w1 in
      (w2, elim failure [ none ↦ errs | some e ↦ (a, e) ∷ errs ])

  send_known : (url a : String) (w : W) → (send url w).1 ≢ some (unknown_action a)
  unfolding send
  send_known url a w h = ground arith

  -- An action that ValidateAction passes is never refused as unknown when it is executed, whatever
  -- the device, the encoder of the payload and the webhook answer.
  pub one-validate_action :
      (a b : String) (w : W) → validate_action a ≡ true → (one a w).1 ≢ some (unknown_action b)
  unfolding one validate_action
  one-validate_action a b w v h = ground (arith, send_known (slice a 8 (len a)) b w)
