-- ===== src/Node/Merge/Register.antt =====
-- The abstract replica: at each path a register of which the last writer decides, and the merge of
-- src/node.rs as its implementation.
use qumulus.Base.{ℕ, ◌≡◌, refl, ◌<◌, ◌≤◌, inl, List, [], ◌∷◌, max, ltb, if◌then◌else◌, arith}
use qumulus.Node.{Node}
use qumulus.Node.Merge.{merge}
use qumulus.Node.Merge.Joins.{merge-Meets, Meets}
use qumulus.Node.Merge.Local.{merge-IsLocal}
use qumulus.Node.Merge.Replicas.{merge_all, AllPlain}
use qumulus.Node.Merge.View.{updated_at, deleted_along, value_at, IsLocal, Same}
use qumulus.TreePath.{TreePath}
use qumulus.Value.{Value}
use qumulus.Vis.{Vis}

-- What is known at one path: the times of the last write and of the last delete, and the content,
-- which counts only if the write is later.
pub record Register : Type 0 where
  pub written : ℕ
  pub deleted : ℕ
  pub content : Value

abbrev pub register : Node → TreePath → Register
register n p = record {
  written = updated_at n p;
  deleted = deleted_along n p;
  content = value_at n p;
}

-- A register takes in another's write if it is later, and its delete.
abbrev pub take_in : Register → Register → Register
take_in a b = record {
  written = max a.written b.written;
  deleted = max a.deleted b.deleted;
  content = if ltb a.written b.written then b.content else a.content;
}

abbrev pub take_in_all : Register → TreePath → List Node → Register
take_in_all a p [] = a
take_in_all a p (d ∷ ds) = take_in_all (take_in a (register d p)) p ds

-- The same times, and where the write is later than the delete the same content, as the program
-- compares values.
abbrev pub Agrees : Register → Register → Type 0
Agrees a b =
    (a.written ≡ b.written)
    × (a.deleted ≡ b.deleted)
    × (a.deleted < a.written → Same a.content b.content)

take_in-content :
    (a b : Register) (val : Value)
    → (a.written < b.written → Same val b.content)
    → (b.written ≤ a.written → Same val a.content)
    → Same val (take_in a b).content
take_in-content a b val newer older = ground arith

take_in-Agrees :
    (n d m : Node) (p : TreePath) (a : Register)
    → Meets n d m p
    → Agrees (register n p) a
    → Agrees (register m p) (take_in a (register d p))
take_in-Agrees n d m p a e (w, g, c) = (
  omega (arith, e.updated),
  omega (arith, e.deleted),
  λ live.
      let wins = e.newer_value in
      let stays = e.older_value in
      take_in-content a (register d p) (value_at m p) (λ h. wins (omega arith) live)
        (λ h. rw (stays (omega arith) live) (c (omega (arith, e.updated, e.deleted)))),
)

-- From any register that agrees with the tree, a replica that merges diffs one after the other
-- agrees with the register that takes in theirs in the same order.
merge_all-Agrees :
    (vo vn : Vis) (n : Node) (ds : List Node) (p : TreePath) (a : Register)
    → IsLocal n
    → AllPlain ds
    → Agrees (register n p) a
    → Agrees (register (merge_all vo vn n ds) p) (take_in_all a p ds)
unfolding merge_all
merge_all-Agrees vo vn n [] p a l w h = h
merge_all-Agrees vo vn n (d ∷ ds) p a l w h =
    let m = (merge [] n d vo vn []).node in
    merge_all-Agrees vo vn m ds p (take_in a (register d p)) (merge-IsLocal [] n d vo vn [] l w.0).0
      w.2 (take_in-Agrees n d m p a (merge-Meets [] n d vo vn [] p l w.0 w.1) h)

-- The merge implements a register that the last writer decides, at every path: after any diffs,
-- one after the other, the tree holds the time of the newest write and of the newest delete that
-- reaches the path, and, where the write is later than the delete, the content that the register
-- took in, as the program compares values. The diffs are maps, and neither they nor the tree hold
-- delegations.
pub merge_all_refines :
    (vo vn : Vis) (n : Node) (ds : List Node) (p : TreePath)
    → IsLocal n
    → AllPlain ds
    → Agrees (register (merge_all vo vn n ds) p) (take_in_all (register n p) p ds)
merge_all_refines vo vn n ds p l w =
    merge_all-Agrees vo vn n ds p (register n p) l w (refl, refl, λ h. inl refl)
