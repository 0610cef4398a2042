-- ===== src/Proto/Schedule/Codec.antt =====
-- Encode and ParseTimer undo one another.
use openwrt_wattline.Common.{◌^◌, ◌<◌, ◌≡◌, ◌++◌, take, arith}
use openwrt_wattline.Common.Bytes.{Bytes, IsBytes}
use openwrt_wattline.Common.Int.{IsInt8, int8-byte_of}
use openwrt_wattline.Common.Result.{ok}
use openwrt_wattline.Proto.Schedule.{Timer, encode, parse_timer}

-- The fields fit their Go types.
pub record InRange (t : Timer) : Type 0 where
  pub status : IsInt8 t.status
  pub repeat : t.repeat < 2 ^ 32

-- A timer whose status and recurrence fit their Go types is read back from its encoding, without
-- its ID, whatever trailer follows.
pub parse_timer-encode :
    (t : Timer) (trailer : Bytes)
    → InRange t
    → parse_timer (encode t ++ trailer) ≡ ok (record t { id = 0 })
unfolding parse_timer encode
parse_timer-encode t trailer h = ground (arith, int8-byte_of t.status h.status)

-- A timer that was read from a list of bytes is encoded as its first nine bytes.
pub encode-parse_timer :
    (b : Bytes) (t : Timer) → IsBytes b → parse_timer b ≡ ok t → encode t ≡ take 9 b
unfolding parse_timer encode
encode-parse_timer b t h e = ground arith
