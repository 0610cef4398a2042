-- ===== src/Proto/Controls/Limits.antt =====
-- The limit table and the frames that may be sent.
use openwrt_wattline.Common.{ℕ, ◌<◌, ◌≤◌, ◌≡◌, ◌≢◌, ◌↔◌, [], arith}
use openwrt_wattline.Common.Int.{ℤ, pos, negsuc, ◌≤ℤ◌}
use openwrt_wattline.Proto.Controls.{
  level_to_watts, watts_to_level, validate_limit_write, type_c_limit_set,
}

-- Level to watts and back is the identity on the six documented levels.
pub watts_to_level-level_to_watts :
    (n : ℕ) → n < 6 → watts_to_level (pos (level_to_watts (pos n))) ≡ pos n
unfolding watts_to_level level_to_watts
watts_to_level-level_to_watts n h = ground arith

-- A number of watts has a level exactly when it stands in the table; level -1 means that it does not.
pub level_to_watts-watts_to_level :
    (w : ℕ) → watts_to_level (pos w) ≢ negsuc 0 → level_to_watts (watts_to_level (pos w)) ≡ w
unfolding watts_to_level level_to_watts
level_to_watts-watts_to_level w h = ground arith

-- A set frame is emitted exactly for the three mutable limits at a documented level.
pub type_c_limit_set-nonempty :
    (typ : ℕ) (level : ℤ)
    → (type_c_limit_set typ level ≢ [])
      ↔ ((1 ≤ typ) × (typ ≤ 3) × (pos 0 ≤ℤ level) × (level ≤ℤ pos 5))
unfolding type_c_limit_set validate_limit_write
type_c_limit_set-nonempty typ level = (λ h. ground arith, λ h e. ground arith)
