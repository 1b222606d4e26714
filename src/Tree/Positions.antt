-- ===== src/Tree/Positions.antt =====
-- The positions of a parent's children: `reindexPositions` of tree_mutations.go, and the snapshots
-- that a rollback restores. `sort.SliceStable` is a stable insertion sort.
pub mod Members
use leafwiki.Base.{
  ℕ, zero, suc, String, List, [], ◌∷◌, Option, none, some, leb, if◌then◌else◌, str_eq,
}
use leafwiki.Tree.Node.{Ref, PageNode}
use leafwiki.Tree.State.{Heap, write}

unfoldable pub insert_by : (Ref → ℕ) → Ref → List Ref → List Ref
insert_by key r [] = r ∷ []
insert_by key r (x ∷ xs) =
    let rest = insert_by key r xs in if leb (key r) (key x) then r ∷ x ∷ xs else x ∷ rest

unfoldable pub sort_stable : (Ref → ℕ) → List Ref → List Ref
unfolding insert_by
sort_stable key [] = []
sort_stable key (r ∷ rs) = insert_by key r (sort_stable key rs)

-- `for i, child := range … { child.Position = i }`, from `i` on
unfoldable pub assign_positions : ℕ → List Ref → Heap → Heap
assign_positions i [] h = h
assign_positions i (r ∷ rs) h =
    assign_positions (suc i) rs (write r (record (h r) { position = i }) h)

abbrev pub set_children : Ref → List Ref → Heap → Heap
set_children r cs h = write r (record (h r) { children = cs }) h

-- `reindexPositions`
unfoldable pub reindex_positions : Ref → Heap → Heap
unfolding sort_stable assign_positions
reindex_positions parent h =
    let sorted = sort_stable (λ c. (h c).position) (h parent).children in
    assign_positions 0 sorted (set_children parent sorted h)

-- `snapshotChildPositions`: the positions of the children by id
unfoldable pub snapshot_child_positions : Heap → List Ref → String → Option ℕ
snapshot_child_positions h [] id = none
snapshot_child_positions h (c ∷ cs) id = elim (snapshot_child_positions h cs id) [
  | some n ↦ some n
  | none ↦ if str_eq (h c).id id then some (h c).position else none
]

abbrev pub or_position : Option ℕ → ℕ → ℕ
or_position none n = n
or_position (some m) n = m

-- one round of the loop in `restoreChildSnapshot`
unfoldable pub restore_child : Ref → (String → Option ℕ) → Ref → Heap → Heap
restore_child parent positions c h =
    write c
      (record (h c) {
        parent = some parent;
        position = or_position (positions (h c).id) (h c).position;
      })
      h

unfoldable pub restore_children : Ref → (String → Option ℕ) → List Ref → Heap → Heap
unfolding restore_child
restore_children parent positions [] h = h
restore_children parent positions (c ∷ cs) h =
    restore_children parent positions cs (restore_child parent positions c h)

-- `restoreChildSnapshot`
unfoldable pub restore_child_snapshot : Ref → List Ref → (String → Option ℕ) → Heap → Heap
unfolding restore_children
restore_child_snapshot parent children positions h =
    restore_children parent positions children (set_children parent children h)
