-- ===== src/Replication.antt =====
-- The replicas of a zone: a client's change is merged where it arrives, and what `merge` leaves of
-- the diff goes to the other replicas (src/zone.rs `merge` with `replicate`, src/cluster.rs).
pub mod Channel
pub mod Content
pub mod Converges
use qumulus.Base.{ℕ, ◌≡◌, ◌<◌, Bool, true, false, not, List, [], ◌∷◌, ◌++◌, ◌==◌, if◌then◌else◌}
use qumulus.Node.{Node, is_noop}
use qumulus.Node.Merge.{node_merge, Merged}
use qumulus.Node.Merge.View.{IsLocal, IsMap, updated_at, deleted_along, value_at, Same}
use qumulus.TreePath.{TreePath}
use qumulus.Value.{Value}
use qumulus.Vis.{Vis}

-- A replica: its tree, and the diffs that are under way to it.
pub record Site : Type 0 where
  pub tree : Node
  pub inbox : List Node

-- The replicas by their number.
abbrev pub System : Type 0
System = ℕ → Site

-- A diff is sent only if `merge` has left something of it.
abbrev pub send_diff : Node → List Node → List Node
send_diff diff inbox = if is_noop diff then inbox else inbox ++ diff ∷ []

-- A change of a client at the replica `i`; `vo` and `vn` are the zone's visibility before and after.
abbrev pub write_at : ℕ → Node → Vis → Vis → System → System
write_at i d vo vn sys j =
    let m = node_merge (sys i).tree d vo vn in
    if j == i
    then record { tree = m.node; inbox = (sys i).inbox }
    else record { tree = (sys j).tree; inbox = send_diff m.diff (sys j).inbox }

-- A diff arrives at the replica `i`, which does not send it on; `rest` stays under way.
abbrev pub deliver_at : ℕ → Node → List Node → Vis → Vis → System → System
deliver_at i d rest vo vn sys j =
    if j == i then record { tree = (node_merge (sys i).tree d vo vn).node; inbox = rest } else sys j

-- The diff writes at every path what `wrote` says for the time of the write.
abbrev pub Writes : (TreePath → ℕ → Value) → Node → Type 0
Writes wrote d = (p : TreePath) → 0 < updated_at d p → value_at d p ≡ wrote p (updated_at d p)

-- Where a tree's write is not deleted, it holds what was written then.
abbrev pub Holds : (TreePath → ℕ → Value) → Node → Type 0
Holds wrote n =
    (p : TreePath)
    → deleted_along n p < updated_at n p
    → Same (value_at n p) (wrote p (updated_at n p))

-- The systems that come of replicas with the tree `n` by the changes in the list, the latest first,
-- and by arrivals, in any order. The changes are maps without delegations, and no two write
-- different values at one path and time.
pub data Reachable (wrote : TreePath → ℕ → Value) (n : Node) : List Node → System → Type 0 where
  start : IsLocal n → Holds wrote n → Reachable wrote n [] (λ j. record { tree = n; inbox = [] })
  write :
      {ds : List Node} {sys : System} (i : ℕ) (d : Node) (vo vn : Vis)
      → Reachable wrote n ds sys
      → IsLocal d
      → IsMap d
      → Writes wrote d
      → Reachable wrote n (d ∷ ds) (write_at i d vo vn sys)
  deliver :
      {ds : List Node} {sys : System} (i : ℕ) (d : Node) (before after : List Node) (vo vn : Vis)
      → Reachable wrote n ds sys
      → (sys i).inbox ≡ before ++ d ∷ after
      → Reachable wrote n ds (deliver_at i d (before ++ after) vo vn sys)
