-- ===== src/Tests/Prompt.antt =====
-- The passkey prompt: a PIN that is submitted while a wait is blocked.
use openwrt_wattline.Common.{some, ◌≡◌, refl}
use openwrt_wattline.Common.Bytes.{ascii}
use openwrt_wattline.Common.Dict.{find, insert}
use openwrt_wattline.Common.Int.{pos}
use openwrt_wattline.Common.Result.{ok}
use openwrt_wattline.Ble.Passkey.{
  PasskeyPrompt, new_passkey_prompt, activate, make_result, start_wait, submit, is_passkey,
  all_digits, send_outcome, buffer, receive, end_wait,
}
use openwrt_wattline.Ble.Passkey.Buffers.{
  created, stepped, activating, starting, submitting, receiving, PromptValid,
}
use openwrt_wattline.Ble.Passkey.Interleaved.{PromptReachable-PromptValid}

abbrev fresh : PasskeyPrompt
fresh = new_passkey_prompt (pos 0)

abbrev asked : PasskeyPrompt
asked = (start_wait 6 (activate 5 fresh)).0

abbrev told : PasskeyPrompt
told = (submit (ascii "123456") asked).0

-- The wait gets the PIN.
told_outcome : (receive 0 told).1 ≡ some (ok (ascii "123456"))
unfolding receive buffer submit is_passkey all_digits start_wait activate make_result send_outcome
    new_passkey_prompt find insert
told_outcome = refl

PromptReachable-PromptValid_example : PromptValid (end_wait (receive 0 told).1 (receive 0 told).0).0
PromptReachable-PromptValid_example =
    PromptReachable-PromptValid (end_wait (receive 0 told).1 (receive 0 told).0).0 (
      stepped told (end_wait (receive 0 told).1 (receive 0 told).0).0
        (stepped asked told
          (stepped (activate 5 fresh) asked
            (stepped fresh (activate 5 fresh) (created (pos 0)) (activating 5 fresh))
            (starting 6 (activate 5 fresh)))
          (submitting (ascii "123456") asked))
        (receiving 0 told))
