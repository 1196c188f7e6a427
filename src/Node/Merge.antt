-- ===== src/Node/Merge.antt =====
-- src/node.rs, the recursive `merge`. A step returns what the source leaves in its `&mut`
-- arguments; `Node.Steps` holds the stretches of its body between the recursive calls.
-- `merge_flat` is the function at a diff without keys, which is how it is called to propagate, so
-- that `merge` may recur on the diff.
pub mod View
pub mod Settle
pub mod Entries
pub mod Flat
pub mod Local
pub mod Joins
pub mod Pointwise
pub mod Replicas
pub mod Noop
pub mod Sorted
pub mod Drained
pub mod Whole
pub mod Below
pub mod Held
pub mod Moved
pub mod Written
pub mod Fresh
pub mod Delegated
pub mod Register
pub mod CutDown
pub mod DiffShape
use qumulus.Base.{
  ℕ, ◌+◌, ◌%◌, Bool, true, false, not, ◌&&◌, ◌||◌, Option, none, some, List, [], ◌∷◌, ◌++◌, ltb,
  ◌==◌, if◌then◌else◌, is_empty,
}
unfoldable pub use qumulus.Node.Steps.{
  settle_value, settle_deletion, settle_values, visible_change, settle_delegation,
}
pub use qumulus.Node.Steps.{External, Settled, Merged, is_odd, own_change}
use qumulus.Node.{
  Node, node, Keys, no_keys, some_keys, Children, nil, cons, NodeTree, children_of, default,
  is_noop, is_no_keys, get_child, insert_child,
}
use qumulus.Text.{Text}
use qumulus.TreePath.{TreePath}
use qumulus.Update
use qumulus.Update.{Update, update, unless_noop}
use qumulus.Value.{Value, null, value_eq, is_null}
use qumulus.Vis
use qumulus.Vis.{Vis, descend, is_visible}

-- Passing the new timestamps on to the children threads the diff, the update and the externals.
pub record Spread : Type 0 where
  pub keys : Keys
  pub update : Update
  pub externals : List External

pub record Spreading : Type 0 where
  pub children : Children
  pub update : Update
  pub externals : List External

-- `merge` at a diff without keys, and the loop that propagates to the children. One diff goes
-- through the whole loop, and each child may cut it down for the next.
unfoldable mutual
  unfolding settle_values visible_change settle_delegation Update.add_child descend is_visible

  pub merge_flat : TreePath → Node → Node → Vis → Vis → List External → Merged
  merge_flat stack (node v val ks g) (node dv dval dks dg) vis_old vis_new externals =
      let s = settle_values v val dv dval in
      let new = descend vis_new s.vis in
      let p =
        propagate_keys stack ks s.propagate (descend vis_old v) new
          (own_change v val s vis_old vis_new) externals in
      settle_delegation stack s p.keys g no_keys dg new p.update p.externals

  pub propagate_keys : TreePath → Keys → Option Node → Vis → Vis → Update → List External → Spread
  propagate_keys stack no_keys p vis_old vis_new u externals = record {
    keys = no_keys;
    update = u;
    externals = externals;
  }
  propagate_keys stack (some_keys c) none vis_old vis_new u externals = record {
    keys = some_keys c;
    update = u;
    externals = externals;
  }
  propagate_keys stack (some_keys c) (some p) vis_old vis_new u externals =
      let r = propagate stack c p vis_old vis_new u externals in
      record { keys = some_keys r.children; update = r.update; externals = r.externals }

  pub propagate : TreePath → Children → Node → Vis → Vis → Update → List External → Spreading
  propagate stack nil p vis_old vis_new u externals = record {
    children = nil;
    update = u;
    externals = externals;
  }
  propagate stack (cons k n c) p vis_old vis_new u externals =
      let m = merge_flat (stack ++ k ∷ []) n p vis_old vis_new externals in
      let r =
        propagate stack c m.diff vis_old vis_new (Update.add_child u k m.update) m.externals in
      record { children = cons k m.node r.children; update = r.update; externals = r.externals }

-- The loop over the diff's keys also leaves the diff's children.
pub record Joined : Type 0 where
  pub keys : Keys
  pub diff_keys : Keys
  pub update : Update
  pub externals : List External

pub record Joining : Type 0 where
  pub children : Children
  pub diff_children : Children
  pub update : Update
  pub externals : List External

abbrev pub or_default : Option Node → Node
or_default none = default
or_default (some n) = n

-- An occupied entry is merged in place, a vacant one filled unless the result is a noop.
unfoldable pub put_child : Text → Option Node → Node → Children → Children
unfolding is_noop insert_child
put_child k (some old) n c = insert_child k n c
put_child k none n c = if is_noop n then c else insert_child k n c

unfoldable mutual
  unfolding settle_values visible_change settle_delegation Update.add_child descend is_visible
      merge_flat get_child put_child

  pub merge : TreePath → Node → Node → Vis → Vis → List External → Merged
  merge stack (node v val ks g) (node dv dval dks dg) vis_old vis_new externals =
      let s = settle_values v val dv dval in
      let old = descend vis_old v in
      let new = descend vis_new s.vis in
      let p =
        propagate_keys stack ks s.propagate old new (own_change v val s vis_old vis_new)
          externals in
      let j = merge_keys stack p.keys dks old new p.update p.externals in
      settle_delegation stack s j.keys g j.diff_keys dg new j.update j.externals

  pub merge_keys : TreePath → Keys → Keys → Vis → Vis → Update → List External → Joined
  merge_keys stack ks no_keys vis_old vis_new u externals = record {
    keys = ks;
    diff_keys = no_keys;
    update = u;
    externals = externals;
  }
  merge_keys stack ks (some_keys dc) vis_old vis_new u externals =
      let r = merge_children stack (children_of ks) dc vis_old vis_new u externals in
      record {
        keys = some_keys r.children;
        diff_keys = some_keys r.diff_children;
        update = r.update;
        externals = r.externals;
      }

  pub merge_children : TreePath → Children → Children → Vis → Vis → Update → List External → Joining
  merge_children stack c nil vis_old vis_new u externals = record {
    children = c;
    diff_children = nil;
    update = u;
    externals = externals;
  }
  merge_children stack c (cons k d dc) vis_old vis_new u externals =
      let entry = get_child k c in
      let m = merge (stack ++ k ∷ []) (or_default entry) d vis_old vis_new externals in
      let r =
        merge_children stack (put_child k entry m.node c) dc vis_old vis_new
          (Update.add_child u k m.update) m.externals in
      record {
        children = r.children;
        diff_children = cons k m.diff r.diff_children;
        update = r.update;
        externals = r.externals;
      }

-- `Node::merge`: from an empty stack and with no externals yet.
unfoldable pub node_merge : Node → Node → Vis → Vis → Merged
unfolding merge
node_merge self diff vis_old vis_new = merge [] self diff vis_old vis_new []

pub record TreeMerged : Type 0 where
  pub tree : NodeTree
  pub diff : NodeTree
  pub update : Option Update
  pub externals : List External

-- `NodeTree::merge`: the diff's visibility takes in the tree's and becomes the tree's.
unfoldable pub tree_merge : NodeTree → NodeTree → TreeMerged
unfolding node_merge Vis.merge
tree_merge self diff =
    let v = Vis.merge diff.vis self.vis in
    let m = node_merge self.node diff.node self.vis v in
    record {
      tree = record { node = m.node; vis = v };
      diff = record { node = m.diff; vis = v };
      update = m.update;
      externals = m.externals;
    }
