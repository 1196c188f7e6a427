-- ===== src/Node/Merge/Pointwise.antt =====
-- What src/node.rs `merge` makes of the timestamps and of the value at one path.
use qumulus.Base.{◌≡◌, ◌≤◌, ◌<◌, List, max, arith}
use qumulus.Node.{Node}
use qumulus.Node.Merge.{External, merge}
use qumulus.Node.Merge.Joins.{merge-Meets}
use qumulus.Node.Merge.Local.{merge-IsLocal}
use qumulus.Node.Merge.View.{updated_at, deleted_along, value_at, IsLocal, IsMap, Same}
use qumulus.TreePath.{TreePath}
use qumulus.Vis.{Vis}

-- A merge of undelegated trees, the diff's keys ascending, takes at every path the newer of the
-- two writes, and of the deletes at the path or above it the newest of both trees.
pub merge_times :
    (stack : TreePath) (n d : Node) (vo vn : Vis) (ex : List External) (p : TreePath)
    → IsLocal n
    → IsLocal d
    → IsMap d
    → let m = (merge stack n d vo vn ex).node in
      (updated_at m p ≡ max (updated_at n p) (updated_at d p))
      × (deleted_along m p ≡ max (deleted_along n p) (deleted_along d p))
merge_times stack n d vo vn ex p l e m =
    let meets = merge-Meets stack n d vo vn ex p l e m in (meets.updated, meets.deleted)

-- In the same merge, a write of the diff that is newer than the tree's, and than every delete
-- that reaches its path, leaves its value there, equal as the program compares values.
pub merge_newer_value :
    (stack : TreePath) (n d : Node) (vo vn : Vis) (ex : List External) (p : TreePath)
    → IsLocal n
    → IsLocal d
    → IsMap d
    → updated_at n p < updated_at d p
    → deleted_along (merge stack n d vo vn ex).node p < updated_at d p
    → Same (value_at (merge stack n d vo vn ex).node p) (value_at d p)
merge_newer_value stack n d vo vn ex p l e m h k =
    let meets = merge-Meets stack n d vo vn ex p l e m in
    meets.newer_value h (omega (arith, meets.updated))

-- In the same merge, a write of the diff that is no newer than the tree's leaves the tree's value,
-- as long as no delete that reaches the path is as late as it.
pub merge_older_value :
    (stack : TreePath) (n d : Node) (vo vn : Vis) (ex : List External) (p : TreePath)
    → IsLocal n
    → IsLocal d
    → IsMap d
    → updated_at d p ≤ updated_at n p
    → deleted_along (merge stack n d vo vn ex).node p < updated_at n p
    → value_at (merge stack n d vo vn ex).node p ≡ value_at n p
merge_older_value stack n d vo vn ex p l e m h k =
    let meets = merge-Meets stack n d vo vn ex p l e m in
    meets.older_value h (omega (arith, meets.updated))

-- A merge of undelegated trees delegates no node, and moves no data out to other zones.
pub merge_stays-IsLocal :
    (stack : TreePath) (n d : Node) (vo vn : Vis) (ex : List External)
    → IsLocal n
    → IsLocal d
    → IsLocal (merge stack n d vo vn ex).node × ((merge stack n d vo vn ex).externals ≡ ex)
merge_stays-IsLocal stack n d vo vn ex l e = merge-IsLocal stack n d vo vn ex l e
