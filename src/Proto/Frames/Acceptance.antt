-- ===== src/Proto/Frames/Acceptance.antt =====
-- What ValidateReply accepts.
use openwrt_wattline.Common.{◌≤◌, none, length, drop, bit_or, ◌≡◌, ◌⊎◌, ◌↔◌, arith, ◌<◌}
use openwrt_wattline.Common.Bytes.{Bytes, at}
use openwrt_wattline.Proto.Frames.{validate_reply, cmd_bypass_control}

-- The protocol's rule: the reply echoes the command, its second byte echoes the action with the
-- top bit set (where the request has one), and its third is the result, which is 0 or belongs to
-- the bypass command.
pub record Answers (req reply : Bytes) : Type 0 where
  pub asked : 1 ≤ length req
  pub headed : 3 ≤ length reply
  pub echo : at reply 0 ≡ at req 0
  pub action : (length req < 2) ⊎ (at reply 1 ≡ bit_or (at req 1) 0x80)
  pub succeeded : (at reply 2 ≡ 0) ⊎ (at req 0 ≡ cmd_bypass_control)

-- A reply is accepted, with the nil error, exactly when it answers the request.
pub validate_reply_iff :
    (req reply : Bytes) → ((validate_reply req reply).error ≡ none) ↔ Answers req reply
unfolding validate_reply
validate_reply_iff req reply = (λ h. ground arith, λ h. ground arith)

-- Of a reply that answers the request, the result byte and everything behind the header are handed
-- on, with the nil error.
pub validate_reply-payload :
    (req reply : Bytes)
    → Answers req reply
    → validate_reply req reply
      ≡ record { result = at reply 2; payload = drop 3 reply; error = none }
unfolding validate_reply
validate_reply-payload req reply h = ground arith
