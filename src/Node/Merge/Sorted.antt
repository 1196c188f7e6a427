-- ===== src/Node/Merge/Sorted.antt =====
-- A merge of src/node.rs keeps the children of every node a map.
use Prim.Native.Nat.Ordering.{lt}
use qumulus.Base.{ℕ, ◌≡◌, Option, none, some, List, [], ◌∷◌, ◌++◌, arith}
use qumulus.Node.{
  Node, node, Keys, no_keys, some_keys, Children, nil, cons, children_of, insert_child, get_child,
}
use qumulus.Node.Merge.{
  External, Settled, merge_flat, propagate_keys, propagate, own_change, settle_values,
  settle_delegation, merge, merge_keys, merge_children, or_default, put_child,
}
use qumulus.Node.Merge.View.{IsMap, MapKeys, MapChildren, Above}
use qumulus.Node.Merge.Entries.{Above-trans}
use qumulus.Text.{Text, text_cmp}
use qumulus.Text.Order.{lt_of_gt}
use qumulus.TreePath.{TreePath}
use qumulus.Update
use qumulus.Update.{Update}
use qumulus.Vis.{Vis, descend}

insert-Above :
    (j k : Text) (m : Node) (c : Children)
    → text_cmp j k ≡ lt
    → Above j c
    → Above j (insert_child k m c)
unfolding insert_child
insert-Above j k m nil h a = (h, tt)
insert-Above j k m (cons i n c) h a = ground (arith, insert-Above j k m c h a.1)

insert-MapChildren :
    (k : Text) (m : Node) (c : Children)
    → IsMap m
    → MapChildren c
    → MapChildren (insert_child k m c)
unfolding insert_child
insert-MapChildren k m nil h a = (h, tt, tt)
insert-MapChildren k m (cons i n c) h a = ground (
  arith,
  insert-MapChildren k m c h a.2,
  insert-Above i k m c,
  lt_of_gt k i,
  Above-trans k i c,
  a,
)

pub put_child-MapChildren :
    (k : Text) (o : Option Node) (n : Node) (c : Children)
    → IsMap n
    → MapChildren c
    → MapChildren (put_child k o n c)
unfolding put_child
put_child-MapChildren k (some old) n c h a = insert-MapChildren k n c h a
put_child-MapChildren k none n c h a = ground (arith, insert-MapChildren k n c h a)

pub get_child-IsMap : (k : Text) (c : Children) → MapChildren c → IsMap (or_default (get_child k c))
unfolding get_child
get_child-IsMap k nil m = tt
get_child-IsMap k (cons j n c) m = ground (arith, get_child-IsMap k c)

settle_delegation-IsMap :
    (stack : TreePath) (s : Settled) (ks : Keys) (g : ℕ) (dks : Keys) (dg : ℕ) (vn : Vis)
    (u : Update) (ex : List External)
    → MapKeys ks
    → IsMap (settle_delegation stack s ks g dks dg vn u ex).node
unfolding settle_delegation
settle_delegation-IsMap stack s ks g dks dg vn u ex h = ground arith

mutual
  unfolding merge_flat

  pub merge_flat-IsMap :
      (stack : TreePath) (n d : Node) (vo vn : Vis) (ex : List External)
      → IsMap n
      → IsMap (merge_flat stack n d vo vn ex).node
  merge_flat-IsMap stack (node v val ks g) (node dv dval dks dg) vo vn ex h =
      let s = settle_values v val dv dval in
      settle_delegation-IsMap stack s _ g no_keys dg _ _ _ (
        propagate_keys-MapKeys stack ks s.propagate (descend vo v) (descend vn s.vis)
          (own_change v val s vo vn) ex h)

  pub propagate_keys-MapKeys :
      (stack : TreePath) (ks : Keys) (o : Option Node) (vo vn : Vis) (u : Update)
      (ex : List External)
      → MapKeys ks
      → MapKeys (propagate_keys stack ks o vo vn u ex).keys
  propagate_keys-MapKeys stack no_keys o vo vn u ex h = h
  propagate_keys-MapKeys stack (some_keys c) none vo vn u ex h = h
  propagate_keys-MapKeys stack (some_keys c) (some p) vo vn u ex h =
      propagate-MapChildren stack c p vo vn u ex h

  propagate-MapChildren :
      (stack : TreePath) (c : Children) (p : Node) (vo vn : Vis) (u : Update) (ex : List External)
      → MapChildren c
      → MapChildren (propagate stack c p vo vn u ex).children
  propagate-MapChildren stack nil p vo vn u ex h = h
  propagate-MapChildren stack (cons k n c) p vo vn u ex h =
      let m = merge_flat (stack ++ k ∷ []) n p vo vn ex in
      let u' = Update.add_child u k m.update in
      (
        merge_flat-IsMap (stack ++ k ∷ []) n p vo vn ex h.0,
        propagate-Above k stack c m.diff vo vn u' m.externals h.1,
        propagate-MapChildren stack c m.diff vo vn u' m.externals h.2,
      )

  propagate-Above :
      (j : Text) (stack : TreePath) (c : Children) (p : Node) (vo vn : Vis) (u : Update)
      (ex : List External)
      → Above j c
      → Above j (propagate stack c p vo vn u ex).children
  propagate-Above j stack nil p vo vn u ex h = h
  propagate-Above j stack (cons k n c) p vo vn u ex h =
      let m = merge_flat (stack ++ k ∷ []) n p vo vn ex in
      (h.0, propagate-Above j stack c m.diff vo vn (Update.add_child u k m.update) m.externals h.1)

pub MapKeys-children : (ks : Keys) → MapKeys ks → MapChildren (children_of ks)
MapKeys-children no_keys m = tt
MapKeys-children (some_keys c) m = m

mutual
  unfolding merge

  pub merge-IsMap :
      (stack : TreePath) (n d : Node) (vo vn : Vis) (ex : List External)
      → IsMap n
      → IsMap (merge stack n d vo vn ex).node
  merge-IsMap stack (node v val ks g) (node dv dval dks dg) vo vn ex h =
      let s = settle_values v val dv dval in
      let old = descend vo v in
      let new = descend vn s.vis in
      let u = own_change v val s vo vn in
      let p = propagate_keys stack ks s.propagate old new u ex in
      let kept = propagate_keys-MapKeys stack ks s.propagate old new u ex h in
      settle_delegation-IsMap stack s _ g _ dg _ _ _
        (merge_keys-MapKeys stack p.keys dks old new p.update p.externals kept)

  pub merge_keys-MapKeys :
      (stack : TreePath) (ks dks : Keys) (vo vn : Vis) (u : Update) (ex : List External)
      → MapKeys ks
      → MapKeys (merge_keys stack ks dks vo vn u ex).keys
  merge_keys-MapKeys stack ks no_keys vo vn u ex h = h
  merge_keys-MapKeys stack ks (some_keys dc) vo vn u ex h =
      merge_children-MapChildren stack (children_of ks) dc vo vn u ex (MapKeys-children ks h)

  merge_children-MapChildren :
      (stack : TreePath) (c dc : Children) (vo vn : Vis) (u : Update) (ex : List External)
      → MapChildren c
      → MapChildren (merge_children stack c dc vo vn u ex).children
  merge_children-MapChildren stack c nil vo vn u ex h = h
  merge_children-MapChildren stack c (cons k d dc) vo vn u ex h =
      let entry = get_child k c in
      let n = or_default entry in
      let m = merge (stack ++ k ∷ []) n d vo vn ex in
      let one = merge-IsMap (stack ++ k ∷ []) n d vo vn ex (get_child-IsMap k c h) in
      merge_children-MapChildren stack (put_child k entry m.node c) dc vo vn
        (Update.add_child u k m.update) m.externals (put_child-MapChildren k entry m.node c one h)

-- Whatever is merged into a tree, delegations included, its children stay maps: at every node the
-- keys ascend, each once.
pub merge_keeps-IsMap :
    (stack : TreePath) (n d : Node) (vo vn : Vis) (ex : List External)
    → IsMap n
    → IsMap (merge stack n d vo vn ex).node
merge_keeps-IsMap stack n d vo vn ex h = merge-IsMap stack n d vo vn ex h
