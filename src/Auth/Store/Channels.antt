-- ===== src/Auth/Store/Channels.antt =====
-- The channels of the subscribers: which are open, which were closed.
use openwrt_wattline.Common.{
  ℕ, ◌+◌, ◌≤◌, ◌<◌, ◌==◌, nat_eq, if◌then◌else◌, List, [], ◌∷◌, ◌++◌, All, ◌≡◌, refl, subst, arith,
  Bool-cases, inl, inr, ◌-◌,
}
use openwrt_wattline.Common.Bytes.{Bytes, bytes_eq, equal, equal_iff}
use openwrt_wattline.Common.Dict.{Dict, find, insert, erase}
use openwrt_wattline.Common.Distinct.{
  count, count-append, keys_of, IsDistinct, IsDistinct-count, count-IsDistinct, find-none,
  erase-none,
}
use openwrt_wattline.Auth.Store.{all_channels, channels_of, remove_channel}

abbrev Subscribers : Type 0
Subscribers = Dict Bytes (List ℕ)

pub count-insert_channels :
    (c : ℕ) (id : Bytes) (cs : List ℕ) (m : Subscribers)
    → count c (all_channels (insert id cs m)) + count c (channels_of (find id m))
      ≡ count c cs + count c (all_channels m)
unfolding all_channels insert find
count-insert_channels c id cs [] = ground (arith, count-append c cs [])
count-insert_channels c id cs ((i, ds) ∷ m) = ground (
  arith,
  count-append c cs (all_channels m),
  count-append c ds (all_channels m),
  count-append c ds (all_channels (insert id cs m)),
  count-insert_channels c id cs m,
)

pub count-erase_channels :
    (c : ℕ) (id : Bytes) (m : Subscribers)
    → IsDistinct (keys_of m)
    → count c (all_channels (erase id m)) + count c (channels_of (find id m))
      ≡ count c (all_channels m)
unfolding all_channels erase find
count-erase_channels c id [] d = refl
count-erase_channels c id ((i, ds) ∷ m) d = elim (Bool-cases (equal i id)) [
  | inl t ↦
      let gone : erase id m ≡ m = erase-none id m (
        find-none id m
          (subst (λ (x : Bytes). count x (keys_of m) ≡ 0) ((equal_iff i id).0 t) d.0)) in
      ground (arith, t, gone, count-append c ds (all_channels m))
  | inr t ↦ ground (
    arith,
    t,
    count-append c ds (all_channels m),
    count-append c ds (all_channels (erase id m)),
    count-erase_channels c id m d.1,
  )
]

pub count-remove_channel :
    (c d : ℕ) (cs : List ℕ) → count c (remove_channel d cs) ≡ (if d == c then 0 else count c cs)
unfolding remove_channel
count-remove_channel c d [] = ground arith
count-remove_channel c d (x ∷ cs) = ground (arith, count-remove_channel c d cs)

abbrev pub Below : ℕ → List ℕ → Type 0
Below n = All (λ c. c < n)

pub Below-count : (n : ℕ) (cs : List ℕ) → ((c : ℕ) → n ≤ c → count c cs ≡ 0) → Below n cs
Below-count n [] h = tt
Below-count n (c ∷ cs) h = (ground (arith, h c), Below-count n cs (λ d le. ground (arith, h d le)))

pub count-Below : (n c : ℕ) (cs : List ℕ) → n ≤ c → Below n cs → count c cs ≡ 0
count-Below n c [] h b = refl
count-Below n c (d ∷ cs) h b = ground (arith, count-Below n c cs h b.1)

-- The open channels and the closed ones are each other's complement among those that were made, and
-- none was closed twice.
pub record ChannelsValid (next : ℕ) (m : Subscribers) (closed : List ℕ) : Type 0 where
  pub owners : IsDistinct (keys_of m)
  pub once : IsDistinct (all_channels m ++ closed)
  pub made : Below next (all_channels m ++ closed)

-- A change that opens no channel but the next, and closes none that was not open.
pub ChannelsValid-counts :
    (next next' : ℕ) (m m' : Subscribers) (closed closed' : List ℕ)
    → IsDistinct (keys_of m')
    → ((c : ℕ)
        → count c (all_channels m' ++ closed')
          ≤ (if c == next then next' - next else 0) + count c (all_channels m ++ closed))
    → next ≤ next'
    → next' ≤ next + 1
    → ChannelsValid next m closed
    → ChannelsValid next' m' closed'
ChannelsValid-counts next next' m m' closed closed' d h lo hi v = record {
  owners = d;
  once = IsDistinct-count (all_channels m' ++ closed') (λ c. ground (
    arith,
    h c,
    count-IsDistinct c (all_channels m ++ closed) v.once,
    count-Below next next (all_channels m ++ closed) (omega arith) v.made,
  ));
  made = Below-count next' (all_channels m' ++ closed') (λ c le.
      ground (arith, h c, count-Below next c (all_channels m ++ closed) (omega arith) v.made));
}
