-- ===== src/Node/Merge/Noop.antt =====
-- The guarantee above `merge` in src/node.rs: a diff that is left a noop has changed nothing.
use qumulus.Base.{ℕ, true, ◌&&◌, ◌==◌, ltb, if◌then◌else◌, ◌≡◌, Option, none, List, arith}
use qumulus.Node.{Node, node, Keys, no_keys, some_keys, is_noop, is_no_keys}
use qumulus.Node.Merge.{
  External, Settled, merge, merge_flat, settle_values, propagate_keys, own_change,
}
use qumulus.Node.Merge.Settle.{settle_delegation-node, settle_delegation-diff, newer}
use qumulus.Node.Merge.View.{IsLocal}
use qumulus.TreePath.{TreePath}
use qumulus.Update.{Update}
use qumulus.Value.{Value}
use qumulus.Vis
use qumulus.Vis.{Vis, descend}

-- Nothing was settled, and nothing is to be propagated.
record Unsettled (v : Vis) (val : Value) (s : Settled) : Type 0 where
  same_vis : s.vis ≡ v
  same_value : s.value ≡ val
  no_propagate : s.propagate ≡ none

settle_values-noop :
    (v : Vis) (val : Value) (dv : Vis) (dval : Value)
    → Vis.is_noop (settle_values v val dv dval).diff_vis ≡ true
    → Unsettled v val (settle_values v val dv dval)
unfolding settle_values Vis.is_noop
settle_values-noop v val dv dval h = ground arith

newer_noop : (g dg : ℕ) → ((if ltb 0 dg && ltb g dg then dg else 0) == 0) ≡ true → newer g dg ≡ g
newer_noop g dg h = ground arith

noop_parts :
    (v : Vis) (val : Value) (ks : Keys) (g : ℕ)
    → is_noop (node v val ks g) ≡ true
    → (Vis.is_noop v ≡ true) × (is_no_keys ks ≡ true) × ((g == 0) ≡ true)
unfolding is_noop
noop_parts v val ks g h = (ground arith, ground arith, ground arith)

unchanged :
    (stack : TreePath) (ks : Keys) (old new : Vis) (u : Update) (ex : List External) {v v' : Vis}
    {val val' : Value} {o : Option Node} {g g' : ℕ}
    → v' ≡ v
    → val' ≡ val
    → o ≡ none
    → g' ≡ g
    → node v' val' (propagate_keys stack ks o old new u ex).keys g' ≡ node v val ks g
unfolding merge_flat
unchanged stack no_keys old new u ex a b c d = rw (a, b, d)
unchanged stack (some_keys ch) old new u ex a b c d = rw (a, b, c, d)

-- Where neither the tree nor the diff has a delegated node, and `merge` leaves the diff a noop, it
-- has left the node as it was: so a change of such a node always shows in the diff, by which a zone
-- is marked dirty and replicates.
pub merge-noop :
    (stack : TreePath) (n d : Node) (vo vn : Vis) (ex : List External)
    → IsLocal n
    → IsLocal d
    → is_noop (merge stack n d vo vn ex).diff ≡ true
    → (merge stack n d vo vn ex).node ≡ n
unfolding merge
merge-noop stack (node v val ks g) (node dv dval no_keys dg) vo vn ex l e h =
    let s = settle_values v val dv dval in
    let parts = noop_parts s.diff_vis s.diff_value no_keys _ (rw settle_delegation-diff at h) in
    let same = settle_values-noop v val dv dval parts.0 in
    rw (settle_delegation-node _ _ _ g _ dg _ _ _ l.0 e.0) (
      unchanged stack ks (descend vo v) (descend vn s.vis) (own_change v val s vo vn) ex
        same.same_vis same.same_value same.no_propagate (newer_noop g dg parts.2))
merge-noop stack (node v val ks g) (node dv dval (some_keys dc) dg) vo vn ex l e h =
    let k = rw settle_delegation-diff at h in absurd (ground arith)
