-- ===== src/Auth/Store/Revocation.antt =====
-- A subscription, whatever else is called, up to the revocation of its token.
use openwrt_wattline.Common.{
  ℕ, ◌+◌, ◌≤◌, Option, none, some, [], ◌∷◌, ◌++◌, List, nat_eq, ◌≡◌, ◌∙◌, ap, arith, inl, inr,
  Bool-cases, Option-cases, sym, subst, if◌then◌else◌, ◌==◌,
}
use openwrt_wattline.Common.Bytes.{Bytes, bytes_eq, equal, equal_iff}
use openwrt_wattline.Common.Clock.{Time}
use openwrt_wattline.Common.Dict.{Dict, find, insert, erase, find-insert, find-erase}
use openwrt_wattline.Common.Distinct.{count, count-append, count-IsDistinct}
use openwrt_wattline.Auth.Files.{FileSystem}
use openwrt_wattline.Auth.Tokens.{Codec, TokenRecord, StoreError, hash_secret}
use openwrt_wattline.Auth.Store.{
  Store, authenticate, flush_last_seen, add_record, issue, revoke, notify_revoked, matching,
  subscribe_revocation, cancel_subscription, invalidate_managed_subscribers, all_channels,
  channels_of, remove_channel, keep_channels, true, new_secret, seen_at, new_record,
}
use openwrt_wattline.Auth.Store.Calls.{
  Call, authenticating, issuing, revoking, subscribing, cancelling, invalidating, Call-IsValid,
}
use openwrt_wattline.Auth.Store.Channels.{count-remove_channel}
use openwrt_wattline.Auth.Store.Invariant.{IsValid, subscribe_revocation-IsValid}
use openwrt_wattline.Auth.Store.Preserved.{
  persist_frame, revoke_cases, revoke-IsValid, add_record_cases,
}

abbrev pub Subscribers : Type 0
Subscribers = Dict Bytes (List ℕ)

-- How often a channel is among a token's.
abbrev listening : ℕ → Bytes → Subscribers → ℕ
listening c id m = count c (channels_of (find id m))

listening-all_channels :
    (c : ℕ) (id : Bytes) (m : Subscribers) → listening c id m ≤ count c (all_channels m)
unfolding find all_channels
listening-all_channels c id [] = omega arith
listening-all_channels c id ((i, cs) ∷ m) = elim (Bool-cases (equal i id)) [
  | inl b ↦ ground (arith, b, count-append c cs (all_channels m))
  | inr b ↦ ground (arith, b, count-append c cs (all_channels m), listening-all_channels c id m)
]

listening-keep_channels :
    (c : ℕ) (id j : Bytes) (cs : List ℕ) (m : Subscribers)
    → listening c j (keep_channels id cs m) ≡ (if id == j then count c cs else listening c j m)
unfolding keep_channels
listening-keep_channels c id j [] m = elim (Bool-cases (equal id j)) [
  | inl b ↦ ground (arith, b, find-erase id j m)
  | inr b ↦ ground (arith, b, find-erase id j m)
]
listening-keep_channels c id j (d ∷ cs) m = elim (Bool-cases (equal id j)) [
  | inl b ↦ ground (arith, b, find-insert id j (d ∷ cs) m)
  | inr b ↦ ground (arith, b, find-insert id j (d ∷ cs) m)
]

listening-insert :
    (c : ℕ) (id j : Bytes) (ds : List ℕ) (m : Subscribers)
    → listening c j m ≤ listening c j (insert id (channels_of (find id m) ++ ds) m)
listening-insert c id j ds m =
    let cs = channels_of (find id m) in
    elim (Bool-cases (equal id j)) [
      | inl b ↦
          let here : count c cs ≡ listening c j m =
            ap (λ (i : Bytes). listening c i m) ((equal_iff id j).0 b) in
          let there : listening c j (insert id (cs ++ ds) m) ≡ count c (cs ++ ds) =
            ground (arith, b, find-insert id j (cs ++ ds) m) in
          omega (arith, here, there, count-append c cs ds)
      | inr b ↦
          let there : listening c j (insert id (cs ++ ds) m) ≡ listening c j m =
            ground (arith, b, find-insert id j (cs ++ ds) m) in
          omega (arith, there)
    ]

-- The channel is subscribed to the token, or was closed.
abbrev pub IsTold : {W : Type 0} → Bytes → ℕ → Store W → Type 0
IsTold id c s = 1 ≤ listening c id s.subscribers + count c s.closed

-- A store with the same channels.
abbrev SameChannels : {W : Type 0} → Store W → Store W → Type 0
SameChannels s t = (t.subscribers ≡ s.subscribers) × (t.closed ≡ s.closed)

module _ {W : Type 0} where
  SameChannels-IsTold :
      (id : Bytes) (c : ℕ) (s t : Store W) → SameChannels s t → IsTold id c s → IsTold id c t
  SameChannels-IsTold id c s t (e, f) h = rw (e, f) h

  notify_revoked-IsTold :
      (id j : Bytes) (c : ℕ) (s : Store W) → IsTold j c s → IsTold j c (notify_revoked id s)
  unfolding notify_revoked
  notify_revoked-IsTold id j c s h =
      let cs = channels_of (find id s.subscribers) in
      elim (Bool-cases (equal id j)) [
        | inl b ↦
            let e : id ≡ j = (equal_iff id j).0 b in
            let here : count c (channels_of (find id s.subscribers)) ≡ listening c j s.subscribers =
              ap (λ (i : Bytes). listening c i s.subscribers) e in
            omega (arith, h, here, count-append c s.closed cs)
        | inr b ↦
            let gone : listening c j (erase id s.subscribers) ≡ listening c j s.subscribers =
              ground (arith, b, find-erase id j s.subscribers) in
            omega (arith, h, gone, count-append c s.closed cs)
      ]

  subscribe_revocation-IsTold :
      (id j : Bytes) (c : ℕ) (s : Store W) → IsTold j c s → IsTold j c (subscribe_revocation id s).0
  unfolding subscribe_revocation
  subscribe_revocation-IsTold id j c s h =
      ground (arith, listening-insert c id j (s.next_channel ∷ []) s.subscribers)

  cancel_subscription-IsTold :
      (id j : Bytes) (c d : ℕ) (s : Store W)
      → ¬ ((id ≡ j) × (d ≡ c))
      → IsTold j c s
      → IsTold j c (cancel_subscription id d s)
  unfolding cancel_subscription
  cancel_subscription-IsTold id j c d s other h = elim (Option-cases (find id s.subscribers)) [
    | inl e ↦ ground (arith, e)
    | inr (cs, e) ↦
        let left = listening-keep_channels c id j (remove_channel d cs) s.subscribers in
        elim (Bool-cases (equal id j)) [
          | inl b ↦
              let i : id ≡ j = (equal_iff id j).0 b in
              let here : count c cs ≡ listening c j s.subscribers =
                ap (λ (o : Option (List ℕ)). count c (channels_of o)) (sym e)
                ∙ ap (λ (k : Bytes). listening c k s.subscribers) i in
              let differs : ¬ (d ≡ c) = λ same. other (i, same) in
              ground (arith, e, b, left, here, differs, count-remove_channel c d cs)
          | inr b ↦ ground (arith, e, b, left)
        ]
  ]

  invalidate-IsTold :
      (id : Bytes) (c : ℕ) (s : Store W)
      → IsTold id c s
      → IsTold id c (invalidate_managed_subscribers s)
  unfolding invalidate_managed_subscribers find
  invalidate-IsTold id c s h = omega (
    arith,
    h,
    count-append c s.closed (all_channels s.subscribers),
    listening-all_channels c id s.subscribers,
  )

  -- The channel that a subscription returns is among the token's.
  subscribed_channel-IsTold :
      (id : Bytes) (s : Store W) (c : ℕ)
      → (subscribe_revocation id s).1 ≡ some c
      → IsTold id c (subscribe_revocation id s).0
  unfolding subscribe_revocation
  subscribed_channel-IsTold id s c e =
      let cs = channels_of (find id s.subscribers) in
      ground (
        arith,
        e,
        count-append c cs (s.next_channel ∷ []),
        equal_iff id id,
        find-insert id id (cs ++ s.next_channel ∷ []) s.subscribers,
      )

module _ {W F D : Type 0} (codec : Codec) (fs : FileSystem W F D)
    (read_full : ℕ → W → W × Option Bytes) where
  flush_last_seen-SameChannels :
      (now : Time) (s : Store W) → SameChannels s (flush_last_seen codec fs now s)
  unfolding flush_last_seen
  flush_last_seen-SameChannels now s = ground (arith, persist_frame codec fs true s)

  authenticate-SameChannels :
      (secret : Bytes) (now : Time) (s : Store W)
      → SameChannels s (authenticate codec fs secret now s).0
  unfolding authenticate
  authenticate-SameChannels secret now s =
      elim (Option-cases (matching (hash_secret codec secret) s.records)) [
        | inl e ↦ ground (arith, e)
        | inr ((id, r), e) ↦
            let seen = seen_at now r.meta in
            let r' : TokenRecord = record r { meta = record r.meta { last_seen_at = some seen } } in
            let t : Store W = record s { records = insert id r' s.records } in
            ground (arith, e, flush_last_seen-SameChannels seen t)
      ]

  add_record-SameChannels :
      (secret : Bytes) (r : TokenRecord) (s : Store W)
      → SameChannels s (add_record codec fs secret r s).0
  add_record-SameChannels secret r s = elim (add_record_cases codec fs secret r s) [
    | inl (x, w, l, same) ↦ ground (arith, same)
    | inr (w, l, f, u, same) ↦ ground (arith, same)
  ]

  issue-SameChannels :
      (label : Bytes) (now : Time) (s : Store W)
      → SameChannels s (issue codec fs read_full label now s).0
  unfolding issue
  issue-SameChannels label now s = elim (Option-cases (read_full 32 s.world).1) [
    | inl e ↦ ground (arith, e)
    | inr (raw, e) ↦
        let t : Store W = record s { world = (read_full 32 s.world).0 } in
        ground
          (arith, e, add_record-SameChannels (new_secret raw) (new_record codec raw label now) t)
  ]

  revoke-IsTold :
      (id j : Bytes) (c : ℕ) (s : Store W) → IsTold j c s → IsTold j c (revoke codec fs id s).0
  revoke-IsTold id j c s h = elim (revoke_cases codec fs id s) [
    | inl (x, same) ↦ subst (λ (p : Store W × Option StoreError). IsTold j c p.0) (sym same) h
    | inr (inl (r, x, w, l, f, same)) ↦
        subst (λ (p : Store W × Option StoreError). IsTold j c p.0) (sym same) h
    | inr (inr (r, w, l, f, n, same)) ↦
        subst (λ (p : Store W × Option StoreError). IsTold j c p.0) (sym same)
          (notify_revoked-IsTold id j c
            (record s { records = erase id s.records; world = w; last_error = l }) h)
  ]

  -- A call that is not the cancellation of this subscription.
  abbrev pub LeavesAlone :
      (id : Bytes) (c : ℕ) (s t : Store W) → Call codec fs read_full s t → Type 0
  LeavesAlone id c _ _ (cancelling j d s) = ¬ ((j ≡ id) × (d ≡ c))
  LeavesAlone id c _ _ _ = Unit

  -- Any calls between two stores, the cancellation of this subscription excepted.
  pub data Uncancelled (id : Bytes) (c : ℕ) : Store W → Store W → Type 0 where
    at_once : (s : Store W) → Uncancelled id c s s
    then_called :
        (s t u : Store W)
        → Uncancelled id c s t
        → (call : Call codec fs read_full t u) → LeavesAlone id c t u call
        → Uncancelled id c s u

  Call-IsTold :
      (id : Bytes) (c : ℕ) (s t : Store W) (call : Call codec fs read_full s t)
      → LeavesAlone id c s t call
      → IsTold id c s
      → IsTold id c t
  Call-IsTold id c _ _ (authenticating secret now s) k h =
      SameChannels-IsTold id c s (authenticate codec fs secret now s).0
        (authenticate-SameChannels secret now s) h
  Call-IsTold id c _ _ (issuing label now s) k h =
      SameChannels-IsTold id c s (issue codec fs read_full label now s).0
        (issue-SameChannels label now s) h
  Call-IsTold id c _ _ (revoking j s) k h = revoke-IsTold j id c s h
  Call-IsTold id c _ _ (subscribing j s) k h = subscribe_revocation-IsTold j id c s h
  Call-IsTold id c _ _ (cancelling j d s) k h = cancel_subscription-IsTold j id c d s k h
  Call-IsTold id c _ _ (invalidating s) k h = invalidate-IsTold id c s h

  Uncancelled-IsTold :
      (id : Bytes) (c : ℕ) (s t : Store W)
      → Uncancelled id c s t
      → IsValid s
      → IsTold id c s
      → IsValid t × IsTold id c t
  Uncancelled-IsTold id c _ _ (at_once s) v h = (v, h)
  Uncancelled-IsTold id c _ _ (then_called s t u calls call k) v h =
      let before = Uncancelled-IsTold id c s t calls v h in
      (Call-IsValid codec fs read_full t u call before.0, Call-IsTold id c t u call k before.1)

  -- In a valid store a subscriber learns of the revocation, whatever calls come in between, those of
  -- other subscribers of the token included, as long as it does not cancel: the channel that it got
  -- has been closed, once, when Revoke of its token returns without an error.
  pub revoke-subscribe_revocation :
      (id : Bytes) (s t : Store W) (c : ℕ)
      → IsValid s
      → (subscribe_revocation id s).1 ≡ some c
      → Uncancelled id c (subscribe_revocation id s).0 t
      → (revoke codec fs id t).1 ≡ none
      → count c (revoke codec fs id t).0.closed ≡ 1
  unfolding notify_revoked
  revoke-subscribe_revocation id s t c v e calls n =
      let s1 = (subscribe_revocation id s).0 in
      let (v1, told) =
        Uncancelled-IsTold id c s1 t calls (subscribe_revocation-IsValid id s v)
          (subscribed_channel-IsTold id s c e) in
      let cs = channels_of (find id t.subscribers) in
      let s2 = (revoke codec fs id t).0 in
      let open2 = all_channels s2.subscribers in
      let once =
        count-IsDistinct c (open2 ++ s2.closed) (revoke-IsValid codec fs id t v1).channels.once in
      elim (revoke_cases codec fs id t) [
        | inl (x, same) ↦ absurd (ground (arith, same, n))
        | inr (inl (r, x, w, l, f, same)) ↦ absurd (ground (arith, same, n))
        | inr (inr (r, w, l, f, b, same)) ↦
            let all : s2.closed ≡ t.closed ++ cs =
              ap (λ (p : Store W × Option StoreError). p.0.closed) same in
            let least : count c s2.closed ≡ count c t.closed + count c cs =
              ap (count c) all ∙ count-append c t.closed cs in
            omega (arith, once, least, count-append c open2 s2.closed, told)
      ]
