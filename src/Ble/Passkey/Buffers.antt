-- ===== src/Ble/Passkey/Buffers.antt =====
-- The channels of the passkey prompt, whatever calls and waits are interleaved.
use openwrt_wattline.Common.{
  ℕ, Bool, true, false, Option, none, some, List, [], ◌∷◌, ◌++◌, All, ◌==◌, nat_eq, ◌≡◌, refl, sym,
  subst, arith, Bool-cases, Option-cases, inl, inr,
}
use openwrt_wattline.Common.Bytes.{Bytes, bytes_eq}
use openwrt_wattline.Common.Clock.{Time, Duration}
use openwrt_wattline.Common.Dict.{Dict, find, insert, find-insert}
use openwrt_wattline.Common.Result.{ok, err}
use openwrt_wattline.Ble.Passkey.{
  passkey_canceled, PromptOutcome, PasskeyPrompt, new_passkey_prompt, buffer, send_outcome,
  make_result, activate, cancel_prompt, disarm, deactivate, start_wait, receive, end_wait,
  is_passkey, submit, rearm_submitted,
}

-- One step of anyone who uses the prompt. A wait that was blocked ends by what it receives on its
-- channel, which need not be the prompt's any longer, or by its timer.
pub data PromptStep : PasskeyPrompt → PasskeyPrompt → Type 0 where
  activating : (now : Time) (p : PasskeyPrompt) → PromptStep p (activate now p)
  disarming : (p : PasskeyPrompt) → PromptStep p (disarm p).0
  deactivating : (p : PasskeyPrompt) → PromptStep p (deactivate p)
  starting : (now : Time) (p : PasskeyPrompt) → PromptStep p (start_wait now p).0
  receiving :
      (c : ℕ) (p : PasskeyPrompt) → PromptStep p (end_wait (receive c p).1 (receive c p).0).0
  expiring : (p : PasskeyPrompt) → PromptStep p (end_wait none p).0
  submitting : (pin : Bytes) (p : PasskeyPrompt) → PromptStep p (submit pin p).0
  rearming : (now : Time) (p : PasskeyPrompt) → PromptStep p (rearm_submitted now p).0
  canceling : (p : PasskeyPrompt) → PromptStep p (cancel_prompt p)

pub data PromptReachable : PasskeyPrompt → Type 0 where
  created : (timeout : Duration) → PromptReachable (new_passkey_prompt timeout)
  stepped : (p q : PasskeyPrompt) → PromptReachable p → PromptStep p q → PromptReachable q

-- An outcome is an error or six digits.
abbrev pub OutcomeValid : PromptOutcome → Type 0
OutcomeValid (ok pin) = is_passkey pin ≡ true
OutcomeValid (err e) = Unit

-- One place in the buffer, and nothing in it but an outcome.
abbrev pub BufferValid : List PromptOutcome → Type 0
BufferValid [] = Unit
BufferValid (o ∷ []) = OutcomeValid o
BufferValid (o ∷ x ∷ os) = ⊥

abbrev pub buffer_of : ℕ → Dict ℕ (List PromptOutcome) → List PromptOutcome
buffer_of c m = elim (find c m) [ none ↦ [] | some b ↦ b ]

-- The prompt's channel is empty while an outcome may still be sent to it.
abbrev pub Sendable : Option ℕ → Bool → Dict ℕ (List PromptOutcome) → Type 0
Sendable none terminal m = Unit
Sendable (some c) true m = Unit
Sendable (some c) false m = buffer_of c m ≡ []

abbrev pub PinValid : Bytes → Type 0
PinValid [] = Unit
PinValid (x ∷ pin) = is_passkey (x ∷ pin) ≡ true

pub record PromptValid (p : PasskeyPrompt) : Type 0 where
  pub bounded : All (λ (e : ℕ × List PromptOutcome). BufferValid e.1) p.buffers
  pub sendable : Sendable p.result p.terminal p.buffers
  pub submitted : PinValid p.submitted_pin

abbrev pub Bounded : Dict ℕ (List PromptOutcome) → Type 0
Bounded = All (λ (e : ℕ × List PromptOutcome). BufferValid e.1)

pub insert-Bounded :
    (c : ℕ) (b : List PromptOutcome) (m : Dict ℕ (List PromptOutcome))
    → BufferValid b
    → Bounded m
    → Bounded (insert c b m)
unfolding insert
insert-Bounded c b [] v h = (v, tt)
insert-Bounded c b ((d, x) ∷ m) v h = elim (Bool-cases (d == c)) [
  | inl e ↦ rw e (v, h.1)
  | inr e ↦ rw e (h.0, insert-Bounded c b m v h.1)
]

pub buffer_of-BufferValid :
    (c : ℕ) (m : Dict ℕ (List PromptOutcome)) → Bounded m → BufferValid (buffer_of c m)
unfolding find
buffer_of-BufferValid c [] h = tt
buffer_of-BufferValid c ((d, x) ∷ m) h = elim (Bool-cases (d == c)) [
  | inl e ↦
      let same : buffer_of c ((d, x) ∷ m) ≡ x = ground (arith, e) in
      subst BufferValid (sym same) h.0
  | inr e ↦
      let same : buffer_of c ((d, x) ∷ m) ≡ buffer_of c m = ground (arith, e) in
      subst BufferValid (sym same) (buffer_of-BufferValid c m h.1)
]

-- Taking what is in a buffer leaves it empty.
pub rest-BufferValid :
    (o : PromptOutcome) (os : List PromptOutcome) → BufferValid (o ∷ os) → os ≡ []
rest-BufferValid o [] v = refl
rest-BufferValid o (x ∷ os) v = absurd v

pub insert-Sendable :
    (c : ℕ) (r : Option ℕ) (t : Bool) (m : Dict ℕ (List PromptOutcome))
    → Sendable r t m
    → Sendable r t (insert c [] m)
insert-Sendable c none t m h = tt
insert-Sendable c (some d) true m h = tt
insert-Sendable c (some d) false m h = ground (arith, h, find-insert c d [] m)

pub fresh-Sendable :
    (c : ℕ) (t : Bool) (m : Dict ℕ (List PromptOutcome)) → Sendable (some c) t (insert c [] m)
fresh-Sendable c true m = tt
fresh-Sendable c false m = ground (arith, find-insert c c [] m)

-- A send on the prompt's channel while it is empty.
pub sent-Bounded :
    (c : ℕ) (o : PromptOutcome) (m : Dict ℕ (List PromptOutcome))
    → buffer_of c m ≡ []
    → OutcomeValid o
    → Bounded m
    → Bounded (insert c (buffer_of c m ++ o ∷ []) m)
sent-Bounded c o m e v h =
    insert-Bounded c (buffer_of c m ++ o ∷ []) m
      (subst (λ (b : List PromptOutcome). BufferValid (b ++ o ∷ [])) (sym e) v) h

pub Sendable-done : (r : Option ℕ) (m : Dict ℕ (List PromptOutcome)) → Sendable r true m
Sendable-done none m = tt
Sendable-done (some c) m = tt

pub make_result-PromptValid : (p : PasskeyPrompt) → PromptValid p → PromptValid (make_result p)
unfolding make_result
make_result-PromptValid p v = record {
  bounded = insert-Bounded p.next_channel [] p.buffers tt v.bounded;
  sendable = fresh-Sendable p.next_channel p.terminal p.buffers;
  submitted = v.submitted;
}

pub activate-PromptValid :
    (now : Time) (p : PasskeyPrompt) → PromptValid p → PromptValid (activate now p)
unfolding activate make_result
activate-PromptValid now p v = record {
  bounded = insert-Bounded p.next_channel [] p.buffers tt v.bounded;
  sendable = fresh-Sendable p.next_channel false p.buffers;
  submitted = tt;
}

-- What a send makes of a valid prompt that may still be sent to.
pub send_outcome-PromptValid :
    (c : ℕ) (o : PromptOutcome) (p : PasskeyPrompt) (pin : Bytes)
    → p.result ≡ some c
    → p.terminal ≡ false
    → OutcomeValid o
    → PinValid pin
    → PromptValid p
    → PromptValid (send_outcome c o (record p { terminal = true; submitted_pin = pin }))
unfolding send_outcome buffer
send_outcome-PromptValid c o p pin r t v w h =
    let empty : buffer_of c p.buffers ≡ [] =
      subst (λ (x : Option ℕ). Sendable x false p.buffers) r
        (subst (λ (x : Bool). Sendable p.result x p.buffers) t h.sendable) in
    record {
      bounded = sent-Bounded c o p.buffers empty v h.bounded;
      sendable = Sendable-done p.result (insert c (buffer_of c p.buffers ++ o ∷ []) p.buffers);
      submitted = w;
    }

pub cancel_prompt-PromptValid : (p : PasskeyPrompt) → PromptValid p → PromptValid (cancel_prompt p)
unfolding cancel_prompt
cancel_prompt-PromptValid p v = elim (Option-cases p.result) [
  | inl r ↦ elim (Bool-cases p.terminal) [
    | inl t ↦
        let same : cancel_prompt p ≡ p = ground (arith, r, t) in subst PromptValid (sym same) v
    | inr t ↦
        let same : cancel_prompt p ≡ record p { canceled = true } = ground (arith, r, t) in
        subst PromptValid (sym same)
          (record { bounded = v.bounded; sendable = v.sendable; submitted = v.submitted })
  ]
  | inr (c, r) ↦ elim (Bool-cases p.terminal) [
    | inl t ↦
        let same : cancel_prompt p ≡ p = ground (arith, r, t) in subst PromptValid (sym same) v
    | inr t ↦ elim (Bool-cases p.waiting) [
      | inl w ↦
          let same : cancel_prompt p
              ≡ send_outcome c (err passkey_canceled) (record p { terminal = true }) =
            ground (arith, r, t, w) in
          subst PromptValid (sym same) (
            send_outcome-PromptValid c (err passkey_canceled) p p.submitted_pin r t tt v.submitted
              v)
      | inr w ↦
          let same : cancel_prompt p ≡ record p { canceled = true } = ground (arith, r, t, w) in
          subst PromptValid (sym same)
            (record { bounded = v.bounded; sendable = v.sendable; submitted = v.submitted })
    ]
  ]
]
