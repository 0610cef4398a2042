-- ===== src/Auth/Store/Invariant.antt =====
-- What holds of the store between two calls, and that every call keeps it.
use openwrt_wattline.Common.{
  ℕ, ◌+◌, Bool, true, false, ◌||◌, ◌==◌, nat_eq, bool_eq, some, List, [], ◌∷◌, ◌++◌, All, ◌≡◌, refl,
  sym, subst, arith, is_some, Bool-cases, Option-cases, inl, inr,
}
use openwrt_wattline.Common.Bytes.{Bytes, bytes_eq, equal, equal_iff}
use openwrt_wattline.Common.Dict.{Dict, find, insert, erase}
use openwrt_wattline.Common.Distinct.{
  count, count-append, keys_of, IsDistinct, erase-IsDistinct, insert-IsDistinct,
}
use openwrt_wattline.Auth.Tokens.{TokenRecord, bootstrap_id}
use openwrt_wattline.Auth.Store.{
  Store, notify_revoked, subscribe_revocation, cancel_subscription, invalidate_managed_subscribers,
  channels_of, all_channels, keep_channels, remove_channel,
}
use openwrt_wattline.Auth.Store.Matching.{All-find, All-insert, All-erase}
use openwrt_wattline.Auth.Store.Records.{RecordsValid}
use openwrt_wattline.Auth.Store.Channels.{
  ChannelsValid, ChannelsValid-counts, count-insert_channels, count-erase_channels,
  count-remove_channel,
}

-- Who subscribes to the revocation of a token: there is such a token, and it is managed.
abbrev pub OwnerValid : Dict Bytes TokenRecord → Bytes × List ℕ → Type 0
OwnerValid records (id, cs) = (is_some (find id records) ≡ true) × ((id == bootstrap_id) ≡ false)

abbrev pub Quiet : Bool → Dict Bytes (List ℕ) → Type 0
Quiet true m = m ≡ []
Quiet false m = Unit

pub record StateValid (records : Dict Bytes TokenRecord) (subscribers : Dict Bytes (List ℕ))
    (next : ℕ) (closed : List ℕ) (invalidated : Bool) : Type 0 where
  pub tokens : RecordsValid records
  pub channels : ChannelsValid next subscribers closed
  pub owned : All (OwnerValid records) subscribers
  pub quiet : Quiet invalidated subscribers

abbrev pub IsValid : {W : Type 0} → Store W → Type 0
IsValid s = StateValid s.records s.subscribers s.next_channel s.closed s.invalidated

-- The owners under a change of the records that keeps every one of them but `id`.
pub owned_other :
    (records records' : Dict Bytes TokenRecord) (id : Bytes) (m : Dict Bytes (List ℕ))
    → ((j : Bytes)
        → (id == j) ≡ false
        → is_some (find j records) ≡ true
        → is_some (find j records') ≡ true)
    → count id (keys_of m) ≡ 0
    → All (OwnerValid records) m
    → All (OwnerValid records') m
owned_other records records' id [] k n h = tt
owned_other records records' id ((j, cs) ∷ m) k n h =
    let other : equal id j ≡ false = ground (arith, equal_iff id j, equal_iff j id) in
    ((k j other h.0.0, h.0.1), owned_other records records' id m k (omega arith) h.1)

pub owned-All :
    (records records' : Dict Bytes TokenRecord) (m : Dict Bytes (List ℕ))
    → ((j : Bytes) → is_some (find j records) ≡ true → is_some (find j records') ≡ true)
    → All (OwnerValid records) m
    → All (OwnerValid records') m
owned-All records records' [] k h = tt
owned-All records records' ((j, cs) ∷ m) k h =
    ((k j h.0.0, h.0.1), owned-All records records' m k h.1)

Quiet-erase : (b : Bool) (id : Bytes) (m : Dict Bytes (List ℕ)) → Quiet b m → Quiet b (erase id m)
unfolding erase
Quiet-erase true id m h = rw h refl
Quiet-erase false id m h = tt

Quiet-keep_channels :
    (b : Bool) (id : Bytes) (cs ds : List ℕ) (m : Dict Bytes (List ℕ))
    → find id m ≡ some ds
    → Quiet b m
    → Quiet b (keep_channels id cs m)
unfolding keep_channels erase find
Quiet-keep_channels true id cs ds m f h = absurd (ground (arith, h, f))
Quiet-keep_channels false id cs ds m f h = tt

keep_channels-IsDistinct :
    (id : Bytes) (cs : List ℕ) (m : Dict Bytes (List ℕ))
    → IsDistinct (keys_of m)
    → IsDistinct (keys_of (keep_channels id cs m))
unfolding keep_channels
keep_channels-IsDistinct id [] m h = erase-IsDistinct id m h
keep_channels-IsDistinct id (c ∷ cs) m h = insert-IsDistinct id (c ∷ cs) m h

All-keep_channels :
    (P : Bytes × List ℕ → Type 0) (id : Bytes) (cs : List ℕ) (m : Dict Bytes (List ℕ))
    → P (id, cs)
    → All P m
    → All P (keep_channels id cs m)
unfolding keep_channels
All-keep_channels P id [] m p h = All-erase P id m h
All-keep_channels P id (c ∷ cs) m p h = All-insert P id (c ∷ cs) m p h

count-keep_channels :
    (c : ℕ) (id : Bytes) (cs : List ℕ) (m : Dict Bytes (List ℕ))
    → IsDistinct (keys_of m)
    → count c (all_channels (keep_channels id cs m)) + count c (channels_of (find id m))
      ≡ count c cs + count c (all_channels m)
unfolding keep_channels
count-keep_channels c id [] m h = ground (arith, count-erase_channels c id m h)
count-keep_channels c id (d ∷ cs) m h = count-insert_channels c id (d ∷ cs) m

module _ {W : Type 0} where
  pub notify_revoked-IsValid :
      (id : Bytes) (s : Store W) → IsValid s → IsValid (notify_revoked id s)
  unfolding notify_revoked
  notify_revoked-IsValid id s v = record {
    tokens = v.tokens;
    channels =
        ChannelsValid-counts s.next_channel s.next_channel s.subscribers (erase id s.subscribers)
          s.closed (s.closed ++ channels_of (find id s.subscribers))
          (erase-IsDistinct id s.subscribers v.channels.owners)
          (λ c. ground (
            arith,
            count-erase_channels c id s.subscribers v.channels.owners,
            count-append c (all_channels (erase id s.subscribers))
                (s.closed ++ channels_of (find id s.subscribers)),
            count-append c s.closed (channels_of (find id s.subscribers)),
            count-append c (all_channels s.subscribers) s.closed,
          ))
          (omega arith) (omega arith) v.channels;
    owned = All-erase (OwnerValid s.records) id s.subscribers v.owned;
    quiet = Quiet-erase s.invalidated id s.subscribers v.quiet;
  }

  pub cancel_subscription-IsValid :
      (id : Bytes) (c : ℕ) (s : Store W) → IsValid s → IsValid (cancel_subscription id c s)
  unfolding cancel_subscription
  cancel_subscription-IsValid id c s v = elim (Option-cases (find id s.subscribers)) [
    | inl e ↦
        let same : cancel_subscription id c s ≡ s = ground (arith, e) in subst IsValid (sym same) v
    | inr (cs, e) ↦
        let m' = keep_channels id (remove_channel c cs) s.subscribers in
        let same : cancel_subscription id c s ≡ record s { subscribers = m' } = ground (arith, e) in
        subst IsValid (sym same) (record {
          tokens = v.tokens;
          channels =
              ChannelsValid-counts s.next_channel s.next_channel s.subscribers m' s.closed s.closed
                (keep_channels-IsDistinct id (remove_channel c cs) s.subscribers v.channels.owners)
                (λ d. ground (
                  arith,
                  e,
                  count-keep_channels d id (remove_channel c cs) s.subscribers v.channels.owners,
                  count-remove_channel d c cs,
                  count-append d (all_channels m') s.closed,
                  count-append d (all_channels s.subscribers) s.closed,
                ))
                (omega arith) (omega arith) v.channels;
          owned =
              All-keep_channels (OwnerValid s.records) id (remove_channel c cs) s.subscribers
                (All-find (OwnerValid s.records) id cs s.subscribers e v.owned) v.owned;
          quiet =
              Quiet-keep_channels s.invalidated id (remove_channel c cs) cs s.subscribers e v.quiet;
        })
  ]

  pub invalidate-IsValid : (s : Store W) → IsValid s → IsValid (invalidate_managed_subscribers s)
  unfolding invalidate_managed_subscribers all_channels
  invalidate-IsValid s v = record {
    tokens = v.tokens;
    channels =
        ChannelsValid-counts s.next_channel s.next_channel s.subscribers [] s.closed
          (s.closed ++ all_channels s.subscribers) tt
          (λ c. ground (
            arith,
            count-append c s.closed (all_channels s.subscribers),
            count-append c (all_channels s.subscribers) s.closed,
          ))
          (omega arith) (omega arith) v.channels;
    owned = tt;
    quiet = refl;
  }

  abbrev subscribed : Bytes → Store W → Store W
  subscribed id s = record s {
    subscribers =
        insert id (channels_of (find id s.subscribers) ++ s.next_channel ∷ []) s.subscribers;
    next_channel = s.next_channel + 1;
  }

  subscribed-IsValid :
      (id : Bytes) (r : TokenRecord) (s : Store W)
      → find id s.records ≡ some r
      → (id == bootstrap_id) ≡ false
      → s.invalidated ≡ false
      → IsValid s
      → IsValid (subscribed id s)
  subscribed-IsValid id r s e n q v =
      let cs = channels_of (find id s.subscribers) ++ s.next_channel ∷ [] in
      record {
        tokens = v.tokens;
        channels =
            ChannelsValid-counts s.next_channel (s.next_channel + 1) s.subscribers
              (insert id cs s.subscribers) s.closed s.closed
              (insert-IsDistinct id cs s.subscribers v.channels.owners)
              (λ d. ground (
                arith,
                count-insert_channels d id cs s.subscribers,
                count-append d (channels_of (find id s.subscribers)) (s.next_channel ∷ []),
                count-append d (all_channels (insert id cs s.subscribers)) s.closed,
                count-append d (all_channels s.subscribers) s.closed,
              ))
              (omega arith) (omega arith) v.channels;
        owned =
            All-insert (OwnerValid s.records) id cs s.subscribers (ground (arith, e), n) v.owned;
        quiet = subst (λ (b : Bool). Quiet b (insert id cs s.subscribers)) (sym q) tt;
      }

  pub subscribe_revocation-IsValid :
      (id : Bytes) (s : Store W) → IsValid s → IsValid (subscribe_revocation id s).0
  unfolding subscribe_revocation
  subscribe_revocation-IsValid id s v = elim (Option-cases (find id s.records)) [
    | inl e ↦
        let same : (subscribe_revocation id s).0 ≡ s = ground (arith, e) in
        subst IsValid (sym same) v
    | inr (r, e) ↦ elim (Bool-cases (equal id bootstrap_id || s.invalidated || r.meta.bootstrap)) [
      | inl b ↦
          let same : (subscribe_revocation id s).0 ≡ s = ground (arith, e, b) in
          subst IsValid (sym same) v
      | inr b ↦
          let same : (subscribe_revocation id s).0 ≡ subscribed id s = ground (arith, e, b) in
          subst IsValid (sym same)
            (subscribed-IsValid id r s e (ground (arith, b)) (ground (arith, b)) v)
    ]
  ]
