-- ===== src/Vis/Laws.antt =====
-- `Vis::merge` joins what replicas know; `Vis::descend` narrows what a reader sees.
use qumulus.Base.{◌≡◌, true, ◌≤◌, max, min, arith}
use qumulus.Vis.{Vis, u64_max, permanent, descend, is_visible, merge}

pub merge-updated : (a b : Vis) → (merge a b).updated ≡ max a.updated b.updated
unfolding merge
merge-updated a b = ground arith

pub merge-deleted : (a b : Vis) → (merge a b).deleted ≡ max a.deleted b.deleted
unfolding merge
merge-deleted a b = ground arith

pub descend-updated : (a b : Vis) → (descend a b).updated ≡ min a.updated b.updated
unfolding descend
descend-updated a b = ground arith

pub descend-deleted : (a b : Vis) → (descend a b).deleted ≡ max a.deleted b.deleted
unfolding descend
descend-deleted a b = ground arith

-- `Vis::merge` is a join: the order and the number of deliveries of diffs do not matter.
pub merge_semilattice :
    (a b c : Vis)
    → (merge a b ≡ merge b a) × (merge (merge a b) c ≡ merge a (merge b c)) × (merge a a ≡ a)
unfolding merge
merge_semilattice a b c = (ground arith, ground arith, ground arith)

-- A node is visible through its ancestors exactly when its own and their smallest `updated`
-- passes the largest `deleted`: visibility through a child implies that of the parent.
pub descend-is_visible :
    (a b : Vis) → is_visible (descend a b) ≡ true → (is_visible a ≡ true) × (is_visible b ≡ true)
unfolding descend is_visible
descend-is_visible a b h = (ground arith, ground arith)

-- Under a permanent root a node of the tree with 64-bit timestamps sees itself alone.
pub descend-permanent : (b : Vis) → b.updated ≤ u64_max → descend permanent b ≡ b
unfolding descend
descend-permanent b h = ground arith
