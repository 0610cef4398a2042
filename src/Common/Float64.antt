-- ===== src/Common/Float64.antt =====
-- float64 and the functions of package math that the program calls, which are no part of it: an
-- interface, with the laws that each theorem needs stated where it stands.
use openwrt_wattline.Common.Int.{ℤ}
use mathlib.Core.Bool.{Bool}

pub record Float64 (F : Type 0) : Type 0 where
  pub nan : F
  pub is_nan : F → Bool
  pub lt : F → F → Bool
  pub le : F → F → Bool
  pub add : F → F → F
  pub sub : F → F → F
  pub mul : F → F → F
  pub div : F → F → F
  pub of_int : ℤ → F  -- float64(i)
  pub to_int : F → ℤ  -- int(f), for an f that stands for an integer
  pub pow10 : ℤ → F  -- math.Pow(10, e)
  pub round : F → F  -- math.Round
