-- ===== src/Ble/Passkey.antt =====
-- passkey_prompt.go. A channel is a number, with what its buffer holds; a Wait that is blocked has the
-- channel that it took, which later calls may replace. A reading of the clock is an argument, and the
-- callback onWaiting, which runs outside the lock, is left to its owner.
pub mod Buffers
pub mod Interleaved
use openwrt_wattline.Common.{
  ℕ, ◌+◌, Bool, true, false, not, ◌&&◌, ◌||◌, Option, none, some, List, [], ◌∷◌, ◌++◌, length, leb,
  ◌==◌, nat_eq, if◌then◌else◌, ◌*◌,
}
use openwrt_wattline.Common.Bytes.{Bytes, bytes_eq}
use openwrt_wattline.Common.Clock.{Time, Duration, zero_time, add, second}
use openwrt_wattline.Common.Dict.{Dict, find, insert}
use openwrt_wattline.Common.Int.{pos, leb_ℤ}
use openwrt_wattline.Common.Result.{Result, ok, err}

pub data PromptError : Type 0 where
  passkey_timeout passkey_canceled passkey_not_waiting passkey_invalid already_waiting : PromptError

-- promptOutcome: a PIN, or an error beside an empty one
abbrev pub PromptOutcome : Type 0
PromptOutcome = Result PromptError Bytes

pub record PasskeyPrompt : Type 0 where
  pub duration : Duration
  pub waiting : Bool
  pub terminal : Bool
  pub canceled : Bool
  pub active : Bool
  pub consumed : Bool
  pub result : Option ℕ
  pub deadline : Time
  pub submitted_pin : Bytes
  pub replayed : Bool
  pub buffers : Dict ℕ (List PromptOutcome)
  pub next_channel : ℕ

unfoldable pub new_passkey_prompt : Duration → PasskeyPrompt
new_passkey_prompt timeout = record {
  duration = if leb_ℤ timeout (pos 0) then pos (25 * second) else timeout;
  waiting = false;
  terminal = false;
  canceled = false;
  active = false;
  consumed = false;
  result = none;
  deadline = zero_time;
  submitted_pin = [];
  replayed = false;
  buffers = [];
  next_channel = 0;
}

unfoldable pub buffer : ℕ → PasskeyPrompt → List PromptOutcome
buffer c p = elim (find c p.buffers) [ none ↦ [] | some b ↦ b ]

-- c <- o
unfoldable pub send_outcome : ℕ → PromptOutcome → PasskeyPrompt → PasskeyPrompt
send_outcome c o p = record p { buffers = insert c (buffer c p ++ o ∷ []) p.buffers }

-- p.result = make(chan promptOutcome, 1)
unfoldable pub make_result : PasskeyPrompt → PasskeyPrompt
make_result p = record p {
  result = some p.next_channel;
  buffers = insert p.next_channel [] p.buffers;
  next_channel = p.next_channel + 1;
}

unfoldable pub activate : Time → PasskeyPrompt → PasskeyPrompt
activate now p = make_result (record p {
  active = true;
  waiting = true;
  consumed = false;
  terminal = false;
  submitted_pin = [];
  replayed = false;
  deadline = add now p.duration;
})

unfoldable pub cancel_prompt : PasskeyPrompt → PasskeyPrompt
cancel_prompt p = elim p.result [
  | none ↦ if not p.terminal then record p { canceled = true } else p
  | some c ↦
      if p.waiting && not p.terminal
      then send_outcome c (err passkey_canceled) (record p { terminal = true })
      else if not p.terminal
      then record p { canceled = true }
      else p
]

-- Deactivate under the lock; the flag tells that Cancel is called behind it
unfoldable pub disarm : PasskeyPrompt → PasskeyPrompt × Bool
disarm p =
    let q : PasskeyPrompt = record p { active = false; submitted_pin = []; replayed = true } in
    if q.waiting && not q.consumed
    then (
      record q {
        waiting = false;
        canceled = true;
        deadline = zero_time;
        result = none;
        terminal = true;
      },
      false,
    )
    else (q, true)

unfoldable pub deactivate : PasskeyPrompt → PasskeyPrompt
deactivate p = let (q, again) = disarm p in if again then cancel_prompt q else q

-- What the first half of Wait comes to: an error at once, or a channel to wait on, until a deadline.
pub data WaitStart : Type 0 where
  answered : PromptError → WaitStart
  blocked : Option ℕ → Time → WaitStart

unfoldable pub start_wait : Time → PasskeyPrompt → PasskeyPrompt × WaitStart
start_wait now p =
    let deadline = add now p.duration in
    let q : PasskeyPrompt =
      make_result
        (record p { waiting = true; consumed = true; terminal = false; deadline = deadline }) in
    if p.waiting
    then (if p.consumed
        then (p, answered already_waiting)
        else (record p { consumed = true }, blocked p.result p.deadline))
    else if p.canceled
    then (record p { canceled = false }, answered passkey_canceled)
    else (q, blocked q.result deadline)

-- `out = <-ch`, where there is something to receive
unfoldable pub receive : ℕ → PasskeyPrompt → PasskeyPrompt × Option PromptOutcome
receive c p = elim (buffer c p) [
  | [] ↦ (p, none)
  | o ∷ os ↦ (record p { buffers = insert c os p.buffers }, some o)
]

-- the second half of Wait, behind the select: `none` is the timer
unfoldable pub end_wait : Option PromptOutcome → PasskeyPrompt → PasskeyPrompt × PromptOutcome
end_wait out p = (
  record p { waiting = false; terminal = true; deadline = zero_time; result = none },
  elim out [ none ↦ err passkey_timeout | some o ↦ o ],
)

unfoldable pub all_digits : Bytes → Bool
all_digits [] = true
all_digits (c ∷ s) = leb b'0' c && leb c b'9' && all_digits s

unfoldable pub is_passkey : Bytes → Bool
is_passkey pin = length pin == 6 && all_digits pin

unfoldable pub submit : Bytes → PasskeyPrompt → PasskeyPrompt × Option PromptError
submit pin p = if not (is_passkey pin) then (p, some passkey_invalid) else elim p.result [
  | none ↦ (p, some passkey_not_waiting)
  | some c ↦
      if not p.waiting || p.terminal
      then (p, some passkey_not_waiting)
      else (send_outcome c (ok pin) (record p { terminal = true; submitted_pin = pin }), none)
]

unfoldable pub rearm_submitted : Time → PasskeyPrompt → PasskeyPrompt × Bool
rearm_submitted now p =
    if not p.active || p.submitted_pin == [] || p.replayed then (p, false) else (
      send_outcome p.next_channel (ok p.submitted_pin)
          (record (make_result (record p {
            waiting = true;
            consumed = false;
            terminal = true;
            deadline = add now p.duration;
          })) { replayed = true }),
      true,
    )
