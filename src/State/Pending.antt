-- ===== src/State/Pending.antt =====
-- The map of pending commands of device.go, by command ID.
use openwrt_wattline.Common.{
  String, Option, none, some, List, [], ◌∷◌, ◌≡◌, refl, ◌==◌, string_eq, if◌then◌else◌, eq_iff,
  arith, All,
}
use openwrt_wattline.State.Snapshot.{Command}

module _ {V : Type 0} where
  -- PendingCommands[command.ID] = command
  unfoldable pub insert_pending : Command V → List (Command V) → List (Command V)
  insert_pending c [] = c ∷ []
  insert_pending c (d ∷ ds) = if d.id == c.id then c ∷ ds else d ∷ insert_pending c ds

  unfoldable pub find_pending : String → List (Command V) → Option (Command V)
  find_pending id [] = none
  find_pending id (d ∷ ds) = if d.id == id then some d else find_pending id ds

  -- delete(PendingCommands, id)
  unfoldable pub delete_pending : String → List (Command V) → List (Command V)
  delete_pending id [] = []
  delete_pending id (d ∷ ds) =
      let rest = delete_pending id ds in if d.id == id then rest else d ∷ rest

  -- No two pending commands share an ID.
  abbrev pub UniqueIds : List (Command V) → Type 0
  UniqueIds [] = Unit
  UniqueIds (c ∷ cs) = (find_pending c.id cs ≡ none) × UniqueIds cs

  pub find_pending-insert_pending :
      (c : Command V) (id : String) (cs : List (Command V))
      → find_pending id (insert_pending c cs) ≡ (if c.id == id then some c else find_pending id cs)
  unfolding find_pending insert_pending
  find_pending-insert_pending c id [] = refl
  find_pending-insert_pending c id (d ∷ ds) =
      ground (
        arith,
        eq_iff d.id c.id,
        eq_iff d.id id,
        eq_iff c.id id,
        find_pending-insert_pending c id ds,
      )

  pub find_pending-delete_pending :
      (gone id : String) (cs : List (Command V))
      → find_pending id (delete_pending gone cs) ≡ (if gone == id then none else find_pending id cs)
  unfolding find_pending delete_pending
  find_pending-delete_pending gone id [] = ground arith
  find_pending-delete_pending gone id (d ∷ ds) = ground (
    arith,
    eq_iff d.id gone,
    eq_iff d.id id,
    eq_iff gone id,
    find_pending-delete_pending gone id ds,
  )

  pub insert_pending-UniqueIds :
      (c : Command V) (cs : List (Command V)) → UniqueIds cs → UniqueIds (insert_pending c cs)
  unfolding insert_pending find_pending
  insert_pending-UniqueIds c [] h = (refl, tt)
  insert_pending-UniqueIds c (d ∷ ds) h = ground (
    arith,
    eq_iff d.id c.id,
    eq_iff c.id d.id,
    find_pending-insert_pending c d.id ds,
    insert_pending-UniqueIds c ds h.1,
  )

  pub delete_pending-UniqueIds :
      (id : String) (cs : List (Command V)) → UniqueIds cs → UniqueIds (delete_pending id cs)
  unfolding delete_pending find_pending
  delete_pending-UniqueIds id [] h = tt
  delete_pending-UniqueIds id (d ∷ ds) h =
      ground (arith, find_pending-delete_pending id d.id ds, delete_pending-UniqueIds id ds h.1)

  pub insert_pending-All :
      (P : Command V → Type 0) (c : Command V) (cs : List (Command V))
      → P c
      → All P cs
      → All P (insert_pending c cs)
  unfolding insert_pending
  insert_pending-All P c [] p h = (p, tt)
  insert_pending-All P c (d ∷ ds) p h = ground (arith, insert_pending-All P c ds p h.1)

  pub delete_pending-All :
      (P : Command V → Type 0) (id : String) (cs : List (Command V))
      → All P cs
      → All P (delete_pending id cs)
  unfolding delete_pending
  delete_pending-All P id [] h = tt
  delete_pending-All P id (d ∷ ds) h = ground (arith, delete_pending-All P id ds h.1)
