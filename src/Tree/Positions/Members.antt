-- ===== src/Tree/Positions/Members.antt =====
-- Sorting and numbering move no node in or out, and numbering writes positions alone.
use leafwiki.Base.{
  ℕ, suc, ◌≡◌, refl, true, false, List, [], ◌∷◌, String, Option, none, some, arith, if◌then◌else◌,
  ◌≢◌, inl, inr, Option-cases, eq_iff, ap, ◌∙◌,
}
use leafwiki.Base.Members.{mem, NoRepeat}
use leafwiki.Tree.Node.{Ref}
use leafwiki.Tree.State.{Heap, write}
use leafwiki.Tree.Positions.{
  insert_by, sort_stable, assign_positions, restore_child, restore_children, or_position,
  reindex_positions, set_children, snapshot_child_positions,
}

pub mem-insert_by :
    (x : Ref) (key : Ref → ℕ) (r : Ref) (rs : List Ref)
    → mem x (insert_by key r rs) ≡ mem x (r ∷ rs)
unfolding mem insert_by
mem-insert_by x key r [] = refl
mem-insert_by x key r (y ∷ rs) = ground (arith, mem-insert_by x key r rs)

pub mem-sort_stable :
    (x : Ref) (key : Ref → ℕ) (rs : List Ref) → mem x (sort_stable key rs) ≡ mem x rs
unfolding mem sort_stable
mem-sort_stable x key [] = refl
mem-sort_stable x key (r ∷ rs) =
    ground (arith, mem-insert_by x key r (sort_stable key rs), mem-sort_stable x key rs)

-- A node that is not among those that are numbered stays as it is.
pub assign_positions_other :
    (x : Ref) (i : ℕ) (rs : List Ref) (h : Heap)
    → mem x rs ≡ false
    → assign_positions i rs h x ≡ h x
unfolding mem assign_positions
assign_positions_other x i [] h m = refl
assign_positions_other x i (r ∷ rs) h m =
    ground (arith, assign_positions_other x (suc i) rs (write r (record (h r) { position = i }) h))

-- Of any other node the position alone is written.
pub assign_positions_same :
    (x : Ref) (i : ℕ) (rs : List Ref) (h : Heap)
    → assign_positions i rs h x ≡ record (h x) { position = (assign_positions i rs h x).position }
unfolding assign_positions
assign_positions_same x i [] h = refl
assign_positions_same x i (r ∷ rs) h =
    ground (arith, assign_positions_same x (suc i) rs (write r (record (h r) { position = i }) h))

pub restore_children_lem :
    (x parent : Ref) (positions : String → Option ℕ) (cs : List Ref) (h : Heap)
    → restore_children parent positions cs h x ≡ (
        if mem x cs
        then record (h x) {
          parent = some parent;
          position = or_position (positions (h x).id) (h x).position;
        }
        else h x)
unfolding mem restore_children
restore_children_lem x parent positions [] h = refl
restore_children_lem x parent positions (c ∷ cs) h =
    ground (arith, restore_children_lem x parent positions cs (restore_child parent positions c h))

pub mem-reindex_positions :
    (x p q : Ref) (h : Heap) → mem x (reindex_positions p h q).children ≡ mem x (h q).children
unfolding reindex_positions
mem-reindex_positions x p q h =
    let sorted = sort_stable (λ c. (h c).position) (h p).children in
    ground (
      arith,
      assign_positions_same q 0 sorted (set_children p sorted h),
      mem-sort_stable x (λ c. (h c).position) (h p).children,
    )

snapshot_some :
    (h : Heap) (cs : List Ref) (id : String) (n : ℕ)
    → snapshot_child_positions h cs id ≡ some n
    → (e : Ref) × (mem e cs ≡ true) × ((h e).id ≡ id) × (n ≡ (h e).position)
unfolding snapshot_child_positions mem
snapshot_some h [] id n e = absurd (ground arith)
snapshot_some h (c ∷ cs) id n e = elim (Option-cases (snapshot_child_positions h cs id)) [
  | inl p ↦ (c, ground arith, ground (arith, eq_iff (h c).id id), ground arith)
  | inr (m, p) ↦ let (d, a, b, q) = snapshot_some h cs id m p in (d, ground arith, b, ground arith)
]

snapshot_none :
    (h : Heap) (cs : List Ref) (c : Ref)
    → mem c cs ≡ true
    → snapshot_child_positions h cs (h c).id ≢ none
unfolding snapshot_child_positions mem
snapshot_none h [] c m = ground arith
snapshot_none h (d ∷ cs) c m = ground (arith, snapshot_none h cs c, eq_iff (h d).id (h c).id)

-- No two of these nodes have one id.
abbrev pub DistinctIds : Heap → List Ref → Type 0
DistinctIds h cs = (c d : Ref) → mem c cs ≡ true → mem d cs ≡ true → (h c).id ≡ (h d).id → c ≡ d

pub snapshot_child_positions_lem :
    (h : Heap) (cs : List Ref) (c : Ref)
    → DistinctIds h cs
    → mem c cs ≡ true
    → snapshot_child_positions h cs (h c).id ≡ some (h c).position
snapshot_child_positions_lem h cs c u m =
    elim (Option-cases (snapshot_child_positions h cs (h c).id)) [
      | inl p ↦ absurd (snapshot_none h cs c m p)
      | inr (n, p) ↦
          let (e, a, b, q) = snapshot_some h cs (h c).id n p in
          p ∙ ap some (q ∙ ap (λ r. (h r).position) (u e c a m b))
    ]

insert_by-NoRepeat :
    (key : Ref → ℕ) (r : Ref) (rs : List Ref)
    → mem r rs ≡ false
    → NoRepeat rs
    → NoRepeat (insert_by key r rs)
unfolding insert_by mem
insert_by-NoRepeat key r [] m n = (refl, tt)
insert_by-NoRepeat key r (x ∷ rs) m (f, n) =
    ground (arith, insert_by-NoRepeat key r rs, mem-insert_by x key r rs)

pub sort_stable-NoRepeat :
    (key : Ref → ℕ) (rs : List Ref) → NoRepeat rs → NoRepeat (sort_stable key rs)
unfolding sort_stable
sort_stable-NoRepeat key [] n = n
sort_stable-NoRepeat key (r ∷ rs) (f, n) =
    insert_by-NoRepeat key r (sort_stable key rs) (mem-sort_stable r key rs ∙ f)
      (sort_stable-NoRepeat key rs n)

pub reindex_positions-NoRepeat :
    (p q : Ref) (h : Heap)
    → NoRepeat (h p).children
    → NoRepeat (h q).children
    → NoRepeat (reindex_positions p h q).children
unfolding reindex_positions
reindex_positions-NoRepeat p q h n m =
    let sorted = sort_stable (λ c. (h c).position) (h p).children in
    ground (
      arith,
      assign_positions_same q 0 sorted (set_children p sorted h),
      sort_stable-NoRepeat (λ c. (h c).position) (h p).children n,
    )

pub parent-reindex_positions :
    (p q : Ref) (h : Heap) → (reindex_positions p h q).parent ≡ (h q).parent
unfolding reindex_positions
parent-reindex_positions p q h =
    let sorted = sort_stable (λ c. (h c).position) (h p).children in
    ground (arith, assign_positions_same q 0 sorted (set_children p sorted h))

-- Of a node `reindexPositions` writes the position, and of the parent the order of children.
pub reindex_positions_same :
    (p q : Ref) (h : Heap)
    → reindex_positions p h q ≡ record (h q) {
      children = (reindex_positions p h q).children;
      position = (reindex_positions p h q).position;
    }
unfolding reindex_positions
reindex_positions_same p q h =
    let sorted = sort_stable (λ c. (h c).position) (h p).children in
    ground (arith, assign_positions_same q 0 sorted (set_children p sorted h))
