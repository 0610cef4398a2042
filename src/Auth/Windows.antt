-- ===== src/Auth/Windows.antt =====
-- The failure windows of pairing.go, and the map from sources to windows.
use openwrt_wattline.Common.{
  ℕ, ◌+◌, ◌≤◌, Bool, false, not, ◌&&◌, ◌||◌, List, [], ◌∷◌, length, String, ◌≡◌, ◌==◌, string_eq,
  nat_eq, ltb, if◌then◌else◌, All, refl, arith, eq_iff,
}
use openwrt_wattline.Common.Clock.{Time, Duration, zero_time, before, add}

pub record FailureWindow : Type 0 where
  pub started : Time
  pub count : ℕ

abbrev pub no_failures : FailureWindow
no_failures = record { started = zero_time; count = 0 }

unfoldable pub increment : FailureWindow → Time → FailureWindow
increment w now = record { started = if w.count == 0 then now else w.started; count = w.count + 1 }

unfoldable pub expired : FailureWindow → Time → Duration → Bool
expired w now duration = ltb 0 w.count && not (before now (add w.started duration))

abbrev pub Sources : Type 0
Sources = List (String × FailureWindow)

-- sources[source]: the zero window where there is none
unfoldable pub window_of : String → Sources → FailureWindow
window_of source [] = no_failures
window_of source ((s, w) ∷ rest) = if s == source then w else window_of source rest

unfoldable pub exists : String → Sources → Bool
exists source [] = false
exists source ((s, w) ∷ rest) = s == source || exists source rest

-- sources[source] = w
unfoldable pub put : String → FailureWindow → Sources → Sources
put source w [] = (source, w) ∷ []
put source w ((s, v) ∷ rest) = if s == source then (s, w) ∷ rest else (s, v) ∷ put source w rest

-- delete(sources, source)
unfoldable pub remove : String → Sources → Sources
remove source [] = []
remove source ((s, w) ∷ rest) =
    let rest' = remove source rest in if s == source then rest' else (s, w) ∷ rest'

-- the loop of evictExpiredSourcesLocked
unfoldable pub evict : Time → Duration → Sources → Sources
evict now duration [] = []
evict now duration ((s, w) ∷ rest) =
    let rest' = evict now duration rest in if expired w now duration then rest' else (s, w) ∷ rest'

-- Every source has failed once at least, and at most `limit` times.
abbrev pub Counted : ℕ → Sources → Type 0
Counted limit = All (λ (e : String × FailureWindow). (1 ≤ e.1.count) × (e.1.count ≤ limit))

pub remove-Counted :
    (limit : ℕ) (source : String) (m : Sources) → Counted limit m → Counted limit (remove source m)
unfolding remove
remove-Counted limit source [] h = tt
remove-Counted limit source ((s, w) ∷ m) h = ground (arith, remove-Counted limit source m h.1)

pub evict-Counted :
    (limit : ℕ) (now : Time) (d : Duration) (m : Sources)
    → Counted limit m
    → Counted limit (evict now d m)
unfolding evict
evict-Counted limit now d [] h = tt
evict-Counted limit now d ((s, w) ∷ m) h = ground (arith, evict-Counted limit now d m h.1)

pub put-Counted :
    (limit : ℕ) (source : String) (w : FailureWindow) (m : Sources)
    → 1 ≤ w.count
    → w.count ≤ limit
    → Counted limit m
    → Counted limit (put source w m)
unfolding put
put-Counted limit source w [] lo hi h = ((lo, hi), tt)
put-Counted limit source w ((s, v) ∷ m) lo hi h =
    ground (arith, put-Counted limit source w m lo hi h.1)

pub length-remove : (source : String) (m : Sources) → length (remove source m) ≤ length m
unfolding remove
length-remove source [] = omega arith
length-remove source ((s, w) ∷ m) = ground (arith, length-remove source m)

pub length-evict : (now : Time) (d : Duration) (m : Sources) → length (evict now d m) ≤ length m
unfolding evict
length-evict now d [] = omega arith
length-evict now d ((s, w) ∷ m) = ground (arith, length-evict now d m)

-- A write adds an entry exactly where there is none.
pub length-put :
    (source : String) (w : FailureWindow) (m : Sources)
    → length (put source w m) ≡ (if exists source m then length m else length m + 1)
unfolding put exists
length-put source w [] = refl
length-put source w ((s, v) ∷ m) = ground (arith, length-put source w m)

pub window_of-put :
    (source other : String) (w : FailureWindow) (m : Sources)
    → window_of other (put source w m) ≡ (if source == other then w else window_of other m)
unfolding window_of put
window_of-put source other w [] = refl
window_of-put source other w ((s, v) ∷ m) =
    ground
      (arith, eq_iff s source, eq_iff s other, eq_iff source other, window_of-put source other w m)
