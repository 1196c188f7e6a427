-- ===== src/Node/Merge/Moved.antt =====
-- The data that a merge of src/node.rs takes out of delegated nodes is in its externals.
use qumulus.Base.{◌≡◌, refl, sym, ap, subst, ◌∙◌, inl, inr, List, [], ◌∷◌, ◌++◌, arith}
use qumulus.Node.{
  Node, node, NodeTree, Keys, no_keys, some_keys, Children, nil, cons, keys_of, children_of,
  get_child,
}
use qumulus.Node.Merge.{
  External, propagate_keys, own_change, settle_values, merge, merge_keys, merge_children,
  or_default, put_child, tree_merge, node_merge,
}
use qumulus.Node.Merge.Below.{Found, Below, settle_delegation-Found, first-Below}
use qumulus.Node.Merge.Drained.{
  IsDrained, KeysDrained, ChildrenDrained, KeysDrained-children, propagate_keys-KeysDrained,
  IsDrained-below, merge-DrainedAt, put_child-ChildrenDrained, get_child-KeysDrained,
}
use qumulus.Node.Merge.Entries.{get_child-put_ne}
use qumulus.Node.Merge.Local.{merge-IsLocal}
use qumulus.Node.Merge.Settle.{settle_values-propagate}
use qumulus.Node.Merge.View.{IsLocal, LocalKeys, LocalChildren, IsMap, MapKeys, MapChildren}
use qumulus.Node.Merge.Whole.{whole, whole_keys, whole_children, propagate_keys-whole}
use qumulus.Text.{Text}
use qumulus.Text.Order.{eq_or_ne}
use qumulus.TreePath.{TreePath}
use qumulus.Update
use qumulus.Update.{Update}
use qumulus.Vis.{Vis, descend}
use qumulus.Node.Merge.Held.{data_at, Held}

mutual
  unfolding merge whole whole_keys whole_children

  merge-Found :
      (stack : TreePath) (n d : Node) (vo vn : Vis) (ex : List External) (q : TreePath)
      → KeysDrained (keys_of n)
      → IsMap d
      → Found stack
          (merge stack n d vo vn ex).node
          (merge stack n d vo vn ex).externals
          q
          (whole n d)
  merge-Found stack (node v val ks g) (node dv dval dks dg) vo vn ex [] h m =
      settle_delegation-Found stack (settle_values v val dv dval) _ g _ dg _ _ _ []
        (whole (node v val ks g) (node dv dval dks dg)) (inl refl)
  merge-Found stack (node v val ks g) (node dv dval dks dg) vo vn ex (k ∷ q) h m =
      let s = settle_values v val dv dval in
      let old = descend vo v in
      let new = descend vn s.vis in
      let u = own_change v val s vo vn in
      let p = propagate_keys stack ks s.propagate old new u ex in
      let j = merge_keys stack p.keys dks old new p.update p.externals in
      let same =
        propagate_keys-whole stack ks s.propagate old new u ex dv.deleted h
          (settle_values-propagate v val dv dval dv.deleted (omega arith)) in
      let below =
        merge_keys-Below stack p.keys dks old new p.update p.externals k q
          (propagate_keys-KeysDrained stack ks s.propagate old new u ex h) m in
      settle_delegation-Found stack s _ g _ dg _ _ _ (k ∷ q)
        (whole (node v val ks g) (node dv dval dks dg))
        (subst
          (λ x. Below stack (children_of j.keys) j.externals k q (children_of (whole_keys x dks)))
          same.0 below)

  merge_keys-Below :
      (stack : TreePath) (ks dks : Keys) (vo vn : Vis) (u : Update) (ex : List External) (k : Text)
      (q : TreePath)
      → KeysDrained ks
      → MapKeys dks
      → let r = merge_keys stack ks dks vo vn u ex in
        Below stack (children_of r.keys) r.externals k q (children_of (whole_keys ks dks))
  merge_keys-Below stack ks no_keys vo vn u ex k q h m = inl refl
  merge_keys-Below stack ks (some_keys dc) vo vn u ex k q h m =
      merge_children-Below stack (children_of ks) (children_of ks) dc vo vn u ex k q refl
        (KeysDrained-children ks h) m

  merge_children-Below :
      (stack : TreePath) (c cw dc : Children) (vo vn : Vis) (u : Update) (ex : List External)
      (j : Text) (q : TreePath)
      → get_child j c ≡ get_child j cw
      → ChildrenDrained c
      → MapChildren dc
      → let r = merge_children stack c dc vo vn u ex in
        Below stack r.children r.externals j q (whole_children cw dc)
  merge_children-Below stack c cw nil vo vn u ex j q e h m =
      inl (ap (λ o. data_at (or_default o) q) (sym e))
  merge_children-Below stack c cw (cons k d dc) vo vn u ex j q e h m =
      let entry = get_child k c in
      let n = or_default entry in
      let m' = merge (stack ++ k ∷ []) n d vo vn ex in
      let w = whole (or_default (get_child k cw)) d in
      let r = merge_children stack c (cons k d dc) vo vn u ex in
      elim (eq_or_ne j k) [
        | inl here ↦
            subst (λ i. Below stack r.children r.externals i q (whole_children cw (cons k d dc)))
              (sym here)
              (first-Below stack c cw dc d vo vn u ex k q
                (subst (λ i. get_child i c ≡ get_child i cw) here e) m.1
                (merge-Found (stack ++ k ∷ []) n d vo vn ex q (get_child-KeysDrained k c h) m.0))
        | inr other ↦
            merge_children-Below stack (put_child k entry m'.node c)
              (put_child k (get_child k cw) w cw) dc vo vn (Update.add_child u k m'.update)
              m'.externals j q
              (get_child-put_ne j k entry m'.node c other
                ∙ e
                ∙ sym (get_child-put_ne j k (get_child k cw) w cw other))
              (put_child-ChildrenDrained k entry m'.node c
                (IsDrained-below stack k m'.node
                  (merge-DrainedAt (stack ++ k ∷ []) n d vo vn ex (get_child-KeysDrained k c h)))
                h)
              m.2
      ]

-- A merge loses nothing of what it moves out of a zone's tree: whatever the same merge without
-- the delegations would have at a path, its timestamps and its value, the tree has at this path, or
-- an external has it at this path. Before the merge no node below the root that is delegated holds
-- data, and the diff's keys ascend.
pub tree_merge_keeps :
    (t diff : NodeTree) (q : TreePath)
    → KeysDrained (keys_of t.node)
    → IsMap diff.node
    → Found []
        (tree_merge t diff).tree.node
        (tree_merge t diff).externals
        q
        (whole t.node diff.node)
unfolding tree_merge node_merge
tree_merge_keeps t diff q h m = merge-Found [] t.node diff.node t.vis _ [] q h m

mutual
  IsLocal-IsDrained : (n : Node) → IsLocal n → IsDrained n
  IsLocal-IsDrained (node v val ks g) l = ((λ odd. cc), LocalKeys-KeysDrained ks l.1)

  LocalKeys-KeysDrained : (ks : Keys) → LocalKeys ks → KeysDrained ks
  LocalKeys-KeysDrained no_keys l = tt
  LocalKeys-KeysDrained (some_keys c) l = LocalChildren-ChildrenDrained c l

  LocalChildren-ChildrenDrained : (c : Children) → LocalChildren c → ChildrenDrained c
  LocalChildren-ChildrenDrained nil l = tt
  LocalChildren-ChildrenDrained (cons k n c) l =
      (IsLocal-IsDrained n l.0, LocalChildren-ChildrenDrained c l.1)

IsLocal-keys : (n : Node) → IsLocal n → KeysDrained (keys_of n)
IsLocal-keys (node v val ks g) l = LocalKeys-KeysDrained ks l.1

-- Where nothing is delegated the reference is the merge itself.
pub tree_merge-whole :
    (t diff : NodeTree) (q : TreePath)
    → IsLocal t.node
    → IsLocal diff.node
    → IsMap diff.node
    → data_at (whole t.node diff.node) q ≡ data_at (tree_merge t diff).tree.node q
unfolding tree_merge node_merge
tree_merge-whole t diff q l e m = elim (tree_merge_keeps t diff q (IsLocal-keys t.node l) m) [
  | inl same ↦ same
  | inr held ↦ absurd (
      subst (λ ex. Held ex q (data_at (whole t.node diff.node) q))
        (merge-IsLocal [] t.node diff.node t.vis _ [] l e).1 held)
]
