-- ===== src/Node/Merge/Drained.antt =====
-- A merge of src/node.rs leaves no data in a delegated node below the root.
use qumulus.Base.{
  ℕ, ◌≡◌, refl, true, false, Option, none, some, List, [], ◌∷◌, ◌++◌, is_empty, arith,
}
use qumulus.Node.{
  Node, node, Keys, no_keys, some_keys, Children, nil, cons, keys_of, children_of, insert_child,
  get_child, is_no_keys, NodeTree,
}
use qumulus.Node.Merge.{
  External, Settled, merge_flat, propagate_keys, propagate, own_change, settle_values,
  settle_delegation, merge, merge_keys, merge_children, or_default, put_child, is_odd, tree_merge,
  node_merge,
}
use qumulus.Text.{Text}
use qumulus.TreePath.{TreePath}
use qumulus.Update
use qumulus.Update.{Update}
use qumulus.Value.{Value, is_null}
use qumulus.Vis.{Vis, descend}

-- A delegated node, which has an odd timestamp, holds no value and no children.
abbrev pub Emptied : Value → Keys → ℕ → Type 0
Emptied val ks g = is_odd g ≡ true → (is_null val ≡ true) × (is_no_keys ks ≡ true)

abbrev mutual
  pub IsDrained : Node → Type 0
  IsDrained (node v val ks g) = Emptied val ks g × KeysDrained ks

  pub KeysDrained : Keys → Type 0
  KeysDrained no_keys = Unit
  KeysDrained (some_keys c) = ChildrenDrained c

  pub ChildrenDrained : Children → Type 0
  ChildrenDrained nil = Unit
  ChildrenDrained (cons k n c) = IsDrained n × ChildrenDrained c

-- The root of a zone keeps its data, whatever it says.
abbrev pub DrainedAt : TreePath → Node → Type 0
DrainedAt stack (node v val ks g) = (is_empty stack ≡ false → Emptied val ks g) × KeysDrained ks

pub IsDrained-below :
    (stack : TreePath) (k : Text) (n : Node) → DrainedAt (stack ++ k ∷ []) n → IsDrained n
IsDrained-below [] k (node v val ks g) h = (h.0 refl, h.1)
IsDrained-below (j ∷ stack) k (node v val ks g) h = (h.0 refl, h.1)

IsDrained-keys : (n : Node) → IsDrained n → KeysDrained (keys_of n)
IsDrained-keys (node v val ks g) h = h.1

pub KeysDrained-children : (ks : Keys) → KeysDrained ks → ChildrenDrained (children_of ks)
KeysDrained-children no_keys h = tt
KeysDrained-children (some_keys c) h = h

insert_child-ChildrenDrained :
    (k : Text) (m : Node) (c : Children)
    → IsDrained m
    → ChildrenDrained c
    → ChildrenDrained (insert_child k m c)
unfolding insert_child
insert_child-ChildrenDrained k m nil h a = (h, tt)
insert_child-ChildrenDrained k m (cons i n c) h a =
    ground (arith, insert_child-ChildrenDrained k m c h a.1)

pub put_child-ChildrenDrained :
    (k : Text) (o : Option Node) (n : Node) (c : Children)
    → IsDrained n
    → ChildrenDrained c
    → ChildrenDrained (put_child k o n c)
unfolding put_child
put_child-ChildrenDrained k (some old) n c h a = insert_child-ChildrenDrained k n c h a
put_child-ChildrenDrained k none n c h a = ground (arith, insert_child-ChildrenDrained k n c h a)

pub get_child-KeysDrained :
    (k : Text) (c : Children)
    → ChildrenDrained c
    → KeysDrained (keys_of (or_default (get_child k c)))
unfolding get_child
get_child-KeysDrained k nil h = tt
get_child-KeysDrained k (cons j n c) h =
    ground (arith, get_child-KeysDrained k c h.1, IsDrained-keys n h.0)

settle_delegation-DrainedAt :
    (stack : TreePath) (s : Settled) (ks : Keys) (g : ℕ) (dks : Keys) (dg : ℕ) (vn : Vis)
    (u : Update) (ex : List External)
    → KeysDrained ks
    → DrainedAt stack (settle_delegation stack s ks g dks dg vn u ex).node
unfolding settle_delegation
settle_delegation-DrainedAt stack s ks g dks dg vn u ex h = ground arith

mutual
  unfolding merge_flat

  merge_flat-DrainedAt :
      (stack : TreePath) (n d : Node) (vo vn : Vis) (ex : List External)
      → KeysDrained (keys_of n)
      → DrainedAt stack (merge_flat stack n d vo vn ex).node
  merge_flat-DrainedAt stack (node v val ks g) (node dv dval dks dg) vo vn ex h =
      let s = settle_values v val dv dval in
      settle_delegation-DrainedAt stack s _ g no_keys dg _ _ _ (
        propagate_keys-KeysDrained stack ks s.propagate (descend vo v) (descend vn s.vis)
          (own_change v val s vo vn) ex h)

  pub propagate_keys-KeysDrained :
      (stack : TreePath) (ks : Keys) (o : Option Node) (vo vn : Vis) (u : Update)
      (ex : List External)
      → KeysDrained ks
      → KeysDrained (propagate_keys stack ks o vo vn u ex).keys
  propagate_keys-KeysDrained stack no_keys o vo vn u ex h = h
  propagate_keys-KeysDrained stack (some_keys c) none vo vn u ex h = h
  propagate_keys-KeysDrained stack (some_keys c) (some p) vo vn u ex h =
      propagate-ChildrenDrained stack c p vo vn u ex h

  propagate-ChildrenDrained :
      (stack : TreePath) (c : Children) (p : Node) (vo vn : Vis) (u : Update) (ex : List External)
      → ChildrenDrained c
      → ChildrenDrained (propagate stack c p vo vn u ex).children
  propagate-ChildrenDrained stack nil p vo vn u ex h = h
  propagate-ChildrenDrained stack (cons k n c) p vo vn u ex h =
      let m = merge_flat (stack ++ k ∷ []) n p vo vn ex in
      let u' = Update.add_child u k m.update in
      (
        IsDrained-below stack k m.node
            (merge_flat-DrainedAt (stack ++ k ∷ []) n p vo vn ex (IsDrained-keys n h.0)),
        propagate-ChildrenDrained stack c m.diff vo vn u' m.externals h.1,
      )

mutual
  unfolding merge

  pub merge-DrainedAt :
      (stack : TreePath) (n d : Node) (vo vn : Vis) (ex : List External)
      → KeysDrained (keys_of n)
      → DrainedAt stack (merge stack n d vo vn ex).node
  merge-DrainedAt stack (node v val ks g) (node dv dval dks dg) vo vn ex h =
      let s = settle_values v val dv dval in
      let old = descend vo v in
      let new = descend vn s.vis in
      let u = own_change v val s vo vn in
      let p = propagate_keys stack ks s.propagate old new u ex in
      let kept = propagate_keys-KeysDrained stack ks s.propagate old new u ex h in
      settle_delegation-DrainedAt stack s _ g _ dg _ _ _
        (merge_keys-KeysDrained stack p.keys dks old new p.update p.externals kept)

  merge_keys-KeysDrained :
      (stack : TreePath) (ks dks : Keys) (vo vn : Vis) (u : Update) (ex : List External)
      → KeysDrained ks
      → KeysDrained (merge_keys stack ks dks vo vn u ex).keys
  merge_keys-KeysDrained stack ks no_keys vo vn u ex h = h
  merge_keys-KeysDrained stack ks (some_keys dc) vo vn u ex h =
      merge_children-ChildrenDrained stack (children_of ks) dc vo vn u ex
        (KeysDrained-children ks h)

  merge_children-ChildrenDrained :
      (stack : TreePath) (c dc : Children) (vo vn : Vis) (u : Update) (ex : List External)
      → ChildrenDrained c
      → ChildrenDrained (merge_children stack c dc vo vn u ex).children
  merge_children-ChildrenDrained stack c nil vo vn u ex h = h
  merge_children-ChildrenDrained stack c (cons k d dc) vo vn u ex h =
      let entry = get_child k c in
      let n = or_default entry in
      let m = merge (stack ++ k ∷ []) n d vo vn ex in
      let one =
        IsDrained-below stack k m.node
          (merge-DrainedAt (stack ++ k ∷ []) n d vo vn ex (get_child-KeysDrained k c h)) in
      merge_children-ChildrenDrained stack (put_child k entry m.node c) dc vo vn
        (Update.add_child u k m.update) m.externals
        (put_child-ChildrenDrained k entry m.node c one h)

keys-DrainedAt : (stack : TreePath) (n : Node) → DrainedAt stack n → KeysDrained (keys_of n)
keys-DrainedAt stack (node v val ks g) h = h.1

-- Whatever is merged into the tree of a zone, no node below its root that is delegated holds a
-- value or children afterwards, if none did before.
pub tree_merge_drains :
    (t diff : NodeTree)
    → KeysDrained (keys_of t.node)
    → KeysDrained (keys_of (tree_merge t diff).tree.node)
unfolding tree_merge node_merge
tree_merge_drains t diff h = keys-DrainedAt [] _ (merge-DrainedAt [] t.node diff.node t.vis _ [] h)
