-- ===== src/Tests/Device.antt =====
-- The store at concrete states.
use openwrt_wattline.Common.{
  ℕ, true, String, some, [], ◌∷◌, ◌≡◌, refl, arith, string_eq, List, false, ◌++◌,
}
use openwrt_wattline.Common.Clock.{minute}
use openwrt_wattline.State.Snapshot.{pending}
use openwrt_wattline.State.Pending.{find_pending}
use openwrt_wattline.State.Subscriber.Delivery.{holding_of, each_of}
use openwrt_wattline.State.Store.Publishing.{
  Publication, published_by, frames_of, publish_all, publish_all-subscribe,
}
use openwrt_wattline.State.Store.{
  Store, begin_command, set_connected, record_point, apply, subscribe, publish, tell_all,
}
use openwrt_wattline.State.Store.Commands.{find_pending-begin_command}
use openwrt_wattline.State.Store.History.{InOrder, record_point-InOrder}
use openwrt_wattline.State.Store.Invariant.{
  IsValid, begin, connected, Reach, here, next, Reach-IsValid,
}
use openwrt_wattline.Tests.Data.{fixed, snapshot_at, turn_on, empty_store}

empty_IsValid : IsValid empty_store
empty_IsValid = record {
  history_bounded = omega arith;
  commands = record {
    recent_bounded = omega arith;
    recent_terminal = tt;
    pending_phase = tt;
    pending_unique = tt;
  };
  subs_sound = tt;
}

abbrev begun : Store ℕ String
begun = begin_command fixed turn_on 7 8 empty_store

abbrev two_calls : Reach fixed empty_store (set_connected fixed true 9 9 begun)
two_calls = next (next here (begin turn_on 7 8 empty_store)) (connected true 9 9 begun)

Reach-IsValid_example : IsValid (set_connected fixed true 9 9 begun)
Reach-IsValid_example = Reach-IsValid fixed two_calls empty_IsValid

find_pending-begin_command_example :
    find_pending "c1" begun.snap.pending_commands ≡ some (record turn_on { phase = pending })
find_pending-begin_command_example = find_pending-begin_command fixed turn_on 7 8 empty_store "c1"

-- the charge falls twice
abbrev falling : List (Publication ℕ String)
falling =
    record { change = λ sn. snapshot_at true 50; recorded = false; now = 7; now_record = 8 }
    ∷ record { change = λ sn. snapshot_at true 49; recorded = true; now = 9; now_record = 9 }
    ∷ []

publish_all-subscribe_example :
    let frames = frames_of fixed falling (subscribe empty_store).0 in
    (publish_all fixed falling (subscribe empty_store).0).subs
    ≡ each_of frames empty_store.subs ++ holding_of frames ∷ []
publish_all-subscribe_example = publish_all-subscribe fixed falling empty_store

two_held : holding_of (frames_of fixed falling (subscribe empty_store).0) ≡ record {
  queue =
      record (snapshot_at true 50) { updated_at = 7 }
      ∷ record (snapshot_at true 49) { updated_at = 9 }
      ∷ [];
  registered = true;
  closes = 0;
}
unfolding subscribe frames_of published_by apply publish tell_all record_point
two_held = refl

empty_InOrder : InOrder empty_store
empty_InOrder = record { ordered = tt; whole = refl }

record_point-InOrder_example : InOrder (record_point fixed minute empty_store)
record_point-InOrder_example =
    record_point-InOrder fixed minute empty_store (omega arith) empty_InOrder
