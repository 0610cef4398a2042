-- ===== src/Ble/Passkey/Interleaved.antt =====
-- Every step of the passkey prompt keeps its channels sound.
use openwrt_wattline.Common.{
  ◌⊎◌, ℕ, ◌+◌, true, false, not, ◌&&◌, ◌||◌, Option, none, some, List, [], ◌∷◌, ◌++◌, ◌==◌, nat_eq,
  ◌≡◌, refl, sym, subst, arith, Bool-cases, Option-cases, inl, inr,
}
use openwrt_wattline.Common.Bytes.{Bytes, bytes_eq, equal}
use openwrt_wattline.Common.Clock.{Time, add}
use openwrt_wattline.Common.Dict.{insert, find-insert}
use openwrt_wattline.Common.Result.{ok}
use openwrt_wattline.Ble.Passkey.{
  PromptOutcome, PasskeyPrompt, new_passkey_prompt, buffer, send_outcome, make_result, disarm,
  deactivate, start_wait, receive, end_wait, is_passkey, submit, rearm_submitted,
}
use openwrt_wattline.Ble.Passkey.Buffers.{
  fresh-Sendable, sent-Bounded, PromptStep, activating, disarming, deactivating, starting,
  receiving, expiring, submitting, rearming, canceling, PromptReachable, created, stepped,
  PromptValid, PinValid, OutcomeValid, BufferValid, Bounded, buffer_of, insert-Bounded,
  activate-PromptValid, send_outcome-PromptValid, cancel_prompt-PromptValid, buffer_of-BufferValid,
  rest-BufferValid,
}

disarm-PromptValid : (p : PasskeyPrompt) → PromptValid p → PromptValid (disarm p).0
unfolding disarm
disarm-PromptValid p v = elim (Bool-cases (p.waiting && not p.consumed)) [
  | inl b ↦ rw b (record { bounded = v.bounded; sendable = tt; submitted = tt })
  | inr b ↦ rw b (record { bounded = v.bounded; sendable = v.sendable; submitted = tt })
]

deactivate-PromptValid : (p : PasskeyPrompt) → PromptValid p → PromptValid (deactivate p)
unfolding deactivate
deactivate-PromptValid p v = elim (Bool-cases (disarm p).1) [
  | inl b ↦ rw b (cancel_prompt-PromptValid (disarm p).0 (disarm-PromptValid p v))
  | inr b ↦ rw b (disarm-PromptValid p v)
]

start_wait-PromptValid :
    (now : Time) (p : PasskeyPrompt) → PromptValid p → PromptValid (start_wait now p).0
unfolding start_wait make_result
start_wait-PromptValid now p v = elim (Bool-cases p.waiting) [
  | inl w ↦ elim (Bool-cases p.consumed) [
    | inl c ↦
        let same : (start_wait now p).0 ≡ p = ground (arith, w, c) in subst PromptValid (sym same) v
    | inr c ↦
        let same : (start_wait now p).0 ≡ record p { consumed = true } = ground (arith, w, c) in
        subst PromptValid (sym same)
          (record { bounded = v.bounded; sendable = v.sendable; submitted = v.submitted })
  ]
  | inr w ↦ elim (Bool-cases p.canceled) [
    | inl c ↦
        let same : (start_wait now p).0 ≡ record p { canceled = false } = ground (arith, w, c) in
        subst PromptValid (sym same)
          (record { bounded = v.bounded; sendable = v.sendable; submitted = v.submitted })
    | inr c ↦
        let q : PasskeyPrompt = make_result (record p {
          waiting = true;
          consumed = true;
          terminal = false;
          deadline = add now p.duration;
        }) in
        let same : (start_wait now p).0 ≡ q = ground (arith, w, c) in
        subst PromptValid (sym same) (record {
          bounded = insert-Bounded p.next_channel [] p.buffers tt v.bounded;
          sendable = fresh-Sendable p.next_channel false p.buffers;
          submitted = v.submitted;
        })
  ]
]

List-cases : {A : Type 0} (l : List A) → (l ≡ []) ⊎ ((x : A) × (xs : List A) × (l ≡ x ∷ xs))
List-cases [] = inl refl
List-cases (x ∷ xs) = inr (x, xs, refl)

receive-Bounded : (c : ℕ) (p : PasskeyPrompt) → PromptValid p → Bounded (receive c p).0.buffers
unfolding receive buffer
receive-Bounded c p v = elim (List-cases (buffer_of c p.buffers)) [
  | inl e ↦
      let same : (receive c p).0.buffers ≡ p.buffers = ground (arith, e) in
      subst Bounded (sym same) v.bounded
  | inr (o, os, e) ↦
      let one : BufferValid (o ∷ os) =
        subst BufferValid e (buffer_of-BufferValid c p.buffers v.bounded) in
      let same : (receive c p).0.buffers ≡ insert c os p.buffers = ground (arith, e) in
      subst Bounded (sym same) (
        insert-Bounded c os p.buffers (subst BufferValid (sym (rest-BufferValid o os one)) tt)
          v.bounded)
]

receive-submitted_pin :
    (c : ℕ) (p : PasskeyPrompt) → (receive c p).0.submitted_pin ≡ p.submitted_pin
unfolding receive buffer
receive-submitted_pin c p = elim (List-cases (buffer_of c p.buffers)) [
  | inl e ↦ ground (arith, e)
  | inr (o, os, e) ↦ ground (arith, e)
]

end_wait-PromptValid :
    (out : Option PromptOutcome) (p : PasskeyPrompt)
    → Bounded p.buffers
    → PinValid p.submitted_pin
    → PromptValid (end_wait out p).0
unfolding end_wait
end_wait-PromptValid out p b w = record { bounded = b; sendable = tt; submitted = w }

passkey-PinValid : (pin : Bytes) → is_passkey pin ≡ true → PinValid pin
passkey-PinValid [] k = tt
passkey-PinValid (x ∷ pin) k = k

pin_outcome-OutcomeValid :
    (pin : Bytes) → (pin == []) ≡ false → PinValid pin → OutcomeValid (ok pin)
unfolding equal
pin_outcome-OutcomeValid [] e v = absurd (ground arith)
pin_outcome-OutcomeValid (x ∷ pin) e v = v

submit-PromptValid :
    (pin : Bytes) (p : PasskeyPrompt) → PromptValid p → PromptValid (submit pin p).0
unfolding submit
submit-PromptValid pin p v = elim (Bool-cases (is_passkey pin)) [
  | inr k ↦ let same : (submit pin p).0 ≡ p = ground (arith, k) in subst PromptValid (sym same) v
  | inl k ↦ elim (Option-cases p.result) [
    | inl r ↦
        let same : (submit pin p).0 ≡ p = ground (arith, k, r) in subst PromptValid (sym same) v
    | inr (c, r) ↦ elim (Bool-cases (not p.waiting || p.terminal)) [
      | inl t ↦
          let same : (submit pin p).0 ≡ p = ground (arith, k, r, t) in
          subst PromptValid (sym same) v
      | inr t ↦
          let same : (submit pin p).0
              ≡ send_outcome c (ok pin) (record p { terminal = true; submitted_pin = pin }) =
            ground (arith, k, r, t) in
          let untold : p.terminal ≡ false = ground (arith, t) in
          subst PromptValid (sym same)
            (send_outcome-PromptValid c (ok pin) p pin r untold k (passkey-PinValid pin k) v)
    ]
  ]
]

rearm_submitted-PromptValid :
    (now : Time) (p : PasskeyPrompt) → PromptValid p → PromptValid (rearm_submitted now p).0
unfolding rearm_submitted make_result send_outcome buffer
rearm_submitted-PromptValid now p v =
    elim (Bool-cases (not p.active || p.submitted_pin == [] || p.replayed)) [
      | inl b ↦
          let same : (rearm_submitted now p).0 ≡ p = ground (arith, b) in
          subst PromptValid (sym same) v
      | inr b ↦
          let c = p.next_channel in
          let m = insert c [] p.buffers in
          let q : PasskeyPrompt = record p {
            waiting = true;
            consumed = false;
            terminal = true;
            deadline = add now p.duration;
            replayed = true;
            result = some c;
            next_channel = c + 1;
            buffers = insert c (buffer_of c m ++ ok p.submitted_pin ∷ []) m;
          } in
          let same : (rearm_submitted now p).0 ≡ q = ground (arith, b) in
          let named : (p.submitted_pin == []) ≡ false = ground (arith, b) in
          subst PromptValid (sym same) (record {
            bounded =
                sent-Bounded c (ok p.submitted_pin) m (ground (arith, find-insert c c [] p.buffers))
                  (pin_outcome-OutcomeValid p.submitted_pin named v.submitted)
                  (insert-Bounded c [] p.buffers tt v.bounded);
            sendable = tt;
            submitted = v.submitted;
          })
    ]

PromptStep-PromptValid : (p q : PasskeyPrompt) → PromptStep p q → PromptValid p → PromptValid q
PromptStep-PromptValid _ _ (activating now p) v = activate-PromptValid now p v
PromptStep-PromptValid _ _ (disarming p) v = disarm-PromptValid p v
PromptStep-PromptValid _ _ (deactivating p) v = deactivate-PromptValid p v
PromptStep-PromptValid _ _ (starting now p) v = start_wait-PromptValid now p v
PromptStep-PromptValid _ _ (receiving c p) v =
    end_wait-PromptValid (receive c p).1 (receive c p).0 (receive-Bounded c p v)
      (subst PinValid (sym (receive-submitted_pin c p)) v.submitted)
PromptStep-PromptValid _ _ (expiring p) v = end_wait-PromptValid none p v.bounded v.submitted
PromptStep-PromptValid _ _ (submitting pin p) v = submit-PromptValid pin p v
PromptStep-PromptValid _ _ (rearming now p) v = rearm_submitted-PromptValid now p v
PromptStep-PromptValid _ _ (canceling p) v = cancel_prompt-PromptValid p v

-- Whatever calls and waits are interleaved: a channel holds one outcome at most, so that no send
-- blocks under the lock, while the prompt's own is empty as long as it may be sent to; and a
-- PIN that is handed to a wait is six ASCII digits.
pub PromptReachable-PromptValid : (p : PasskeyPrompt) → PromptReachable p → PromptValid p
unfolding new_passkey_prompt
PromptReachable-PromptValid _ (created timeout) = record {
  bounded = tt;
  sendable = tt;
  submitted = tt;
}
PromptReachable-PromptValid _ (stepped p q r s) =
    PromptStep-PromptValid p q s (PromptReachable-PromptValid p r)
