-- ===== src/Tests/Delegations.antt =====
-- Merges that delegate a part of the document.
use qumulus.Base.{true, ◌≡◌, ◌⊎◌, refl, [], ◌∷◌}
use qumulus.Node
use qumulus.Node.{Node, node, no_keys, some_keys, nil, cons}
use qumulus.Node.Merge.{merge, tree_merge, node_merge}
use qumulus.Node.Merge.Delegated.{Arrives, delegation_loses_nothing}
use qumulus.Node.Merge.Fresh.{shown}
use qumulus.Node.Merge.Held.{data_at}
use qumulus.Node.Merge.Drained.{KeysDrained, tree_merge_drains}
use qumulus.Node.Merge.Below.{Found}
use qumulus.Node.Merge.Moved.{tree_merge_keeps}
use qumulus.Node.Merge.Whole.{whole}
use qumulus.Tests.Trees.{stored_tree, stored, moo, stored-IsMap}
use qumulus.Text.{text, text_cmp}
use qumulus.Value.{null, u64, value_eq}
use qumulus.Vis
use qumulus.Vis.{vis}

-- Delegates `moo` at the time 8.
abbrev delegating : Node
delegating = node Vis.default null (some_keys (cons (text "moo") (Node.delegate 8) nil)) 0

-- The value at `moo` moves to the new zone.
delegated_moo :
    (tree_merge stored_tree (Node.noop_vis delegating)).externals
    ≡ record {
      path = moo;
      tree = record { node = node (vis 5 0) (u64 2) no_keys 9; vis = vis 5 0 };
      initial = true;
    }
      ∷ []
unfolding tree_merge node_merge merge text_cmp Node.delegate
delegated_moo = refl

tree_merge_drains_example :
    KeysDrained (Node.keys_of (tree_merge stored_tree (Node.noop_vis delegating)).tree.node)
tree_merge_drains_example =
    tree_merge_drains stored_tree (Node.noop_vis delegating)
      (((λ h. cc), tt), (((λ h. cc), tt), tt))

tree_merge_keeps_example :
    Found []
      (tree_merge stored_tree (Node.noop_vis delegating)).tree.node
      (tree_merge stored_tree (Node.noop_vis delegating)).externals
      moo
      (whole stored delegating)
unfolding Node.delegate
tree_merge_keeps_example =
    tree_merge_keeps stored_tree (Node.noop_vis delegating) moo
      (((λ h. cc), tt), (((λ h. cc), tt), tt)) (tt, tt, tt)

-- The new zone has it.
delegation_loses_nothing_example :
    (data_at (whole stored delegating) moo
      ≡ data_at (tree_merge stored_tree (Node.noop_vis delegating)).tree.node moo)
    ⊎ Arrives
        (tree_merge stored_tree (Node.noop_vis delegating)).externals
        moo
        (shown (data_at (whole stored delegating) moo))
unfolding Node.delegate
delegation_loses_nothing_example =
    delegation_loses_nothing stored_tree (Node.noop_vis delegating) moo
      (((λ h. cc), tt), (((λ h. cc), tt), tt)) stored-IsMap
      ((λ h. refl), (((λ h. cc), tt), (((λ h. cc), tt), tt))) (tt, tt, tt)
      ((λ h. refl), (((λ h. refl), tt), tt))

arrived_moo :
    data_at
      (tree_merge Node.default_tree
        (record { node = node (vis 5 0) (u64 2) no_keys 9; vis = vis 5 0 })).tree.node
      []
    ≡ (vis 5 0, u64 2)
unfolding tree_merge node_merge merge value_eq
arrived_moo = refl
