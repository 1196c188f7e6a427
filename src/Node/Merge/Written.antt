-- ===== src/Node/Merge/Written.antt =====
-- A merge of src/node.rs keeps what every tree keeps: a value has a time at which it was written.
use qumulus.Base.{
  false, is_empty, ℕ, inl, inr, ◌≡◌, refl, Option, none, some, List, [], ◌∷◌, ◌++◌, arith,
}
use qumulus.Node.{
  Node, node, Keys, no_keys, some_keys, Children, nil, cons, children_of, insert_child, get_child,
  NodeTree,
}
use qumulus.Node.Merge.{
  External, Settled, merge_flat, propagate_keys, propagate, own_change, settle_values,
  settle_delegation, merge, merge_keys, merge_children, or_default, put_child, tree_merge,
  node_merge,
}
use qumulus.Node.Merge.Flat.{merge_flat-IsFlat}
use qumulus.Node.Merge.Held.{moved, settle_delegation-cases}
use qumulus.Node.Merge.Settle.{IsFlat, FlatOption, settle_values-propagate}
use qumulus.Node.Merge.Sorted.{
  propagate_keys-MapKeys, merge_keys-MapKeys, merge-IsMap, MapKeys-children, get_child-IsMap,
  put_child-MapChildren,
}
use qumulus.Node.Merge.View.{IsMap, MapKeys, MapChildren}
use qumulus.Text.{Text}
use qumulus.TreePath.{TreePath}
use qumulus.Update
use qumulus.Update.{Update}
use qumulus.Value.{Value, null}
use qumulus.Vis.{Vis, descend}

-- A value was written at some time.
abbrev pub Written : Vis → Value → Type 0
Written v val = v.updated ≡ 0 → val ≡ null

abbrev mutual
  pub IsWritten : Node → Type 0
  IsWritten (node v val ks g) = Written v val × WrittenKeys ks

  pub WrittenKeys : Keys → Type 0
  WrittenKeys no_keys = Unit
  WrittenKeys (some_keys c) = WrittenChildren c

  pub WrittenChildren : Children → Type 0
  WrittenChildren nil = Unit
  WrittenChildren (cons k n c) = IsWritten n × WrittenChildren c

-- What externals keep: their trees, and that they are below the root.
abbrev pub IsSound : External → Type 0
IsSound e = IsMap e.tree.node × IsWritten e.tree.node × (is_empty e.path ≡ false)

abbrev pub AllSound : List External → Type 0
AllSound [] = Unit
AllSound (e ∷ ex) = IsSound e × AllSound ex

AllSound-last :
    (ex : List External) (e : External) → AllSound ex → IsSound e → AllSound (ex ++ e ∷ [])
AllSound-last [] e a h = (h, tt)
AllSound-last (f ∷ ex) e a h = (a.0, AllSound-last ex e a.1 h)

insert_child-WrittenChildren :
    (k : Text) (m : Node) (c : Children)
    → IsWritten m
    → WrittenChildren c
    → WrittenChildren (insert_child k m c)
unfolding insert_child
insert_child-WrittenChildren k m nil h l = (h, tt)
insert_child-WrittenChildren k m (cons j n c) h l =
    ground (arith, insert_child-WrittenChildren k m c)

put_child-WrittenChildren :
    (k : Text) (o : Option Node) (m : Node) (c : Children)
    → IsWritten m
    → WrittenChildren c
    → WrittenChildren (put_child k o m c)
unfolding put_child
put_child-WrittenChildren k o m c h l = ground (arith, insert_child-WrittenChildren k m c)

get_child-IsWritten :
    (k : Text) (c : Children) → WrittenChildren c → IsWritten (or_default (get_child k c))
unfolding get_child
get_child-IsWritten k nil l = ((λ h. refl), tt)
get_child-IsWritten k (cons j n c) l = ground (arith, get_child-IsWritten k c)

WrittenKeys-children : (ks : Keys) → WrittenKeys ks → WrittenChildren (children_of ks)
WrittenKeys-children no_keys w = tt
WrittenKeys-children (some_keys c) w = w

settle_values-Written :
    (v : Vis) (val : Value) (dv : Vis) (dval : Value)
    → Written v val
    → Written dv dval
    → let s = settle_values v val dv dval in Written s.vis s.value
unfolding settle_values
settle_values-Written v val dv dval h d = λ e. ground (arith, h, d)

-- A flat diff writes nothing.
settle_flat-Written :
    (v : Vis) (val : Value) (dv : Vis) (dval : Value)
    → Written v val
    → dv.updated ≡ 0
    → let s = settle_values v val dv dval in Written s.vis s.value
unfolding settle_values
settle_flat-Written v val dv dval h d = λ e. ground (arith, h)

settle_delegation-Sound :
    (stack : TreePath) (s : Settled) (ks : Keys) (g : ℕ) (dks : Keys) (dg : ℕ) (vn : Vis)
    (u : Update) (ex : List External)
    → Written s.vis s.value
    → MapKeys ks
    → WrittenKeys ks
    → AllSound ex
    → let r = settle_delegation stack s ks g dks dg vn u ex in
      IsWritten r.node × AllSound r.externals
unfolding settle_delegation
settle_delegation-Sound stack s ks g dks dg vn u ex w m wk a = (
  ground arith,
  elim (settle_delegation-cases stack s ks g dks dg vn u ex) [
    | inl kept ↦ rw kept.1 a
    | inr out ↦ rw out.0 (AllSound-last ex (moved stack s ks g dg vn) a (m, (w, wk), out.1))
  ],
)

mutual
  unfolding merge_flat

  merge_flat-Sound :
      (stack : TreePath) (n d : Node) (vo vn : Vis) (ex : List External) (b : ℕ)
      → IsMap n
      → IsWritten n
      → IsFlat b d
      → AllSound ex
      → let r = merge_flat stack n d vo vn ex in IsWritten r.node × AllSound r.externals
  merge_flat-Sound stack (node v val ks g) (node dv dval dks dg) vo vn ex b m w f a =
      let s = settle_values v val dv dval in
      let old = descend vo v in
      let new = descend vn s.vis in
      let u = own_change v val s vo vn in
      let p = propagate_keys stack ks s.propagate old new u ex in
      let rest =
        propagate_keys-Sound stack ks s.propagate old new u ex b m w.1
          (settle_values-propagate v val dv dval b f.1) a in
      settle_delegation-Sound stack s p.keys g no_keys dg new p.update p.externals
        (settle_flat-Written v val dv dval w.0 f.0)
        (propagate_keys-MapKeys stack ks s.propagate old new u ex m) rest.0 rest.1

  propagate_keys-Sound :
      (stack : TreePath) (ks : Keys) (o : Option Node) (vo vn : Vis) (u : Update)
      (ex : List External) (b : ℕ)
      → MapKeys ks
      → WrittenKeys ks
      → FlatOption b o
      → AllSound ex
      → let r = propagate_keys stack ks o vo vn u ex in WrittenKeys r.keys × AllSound r.externals
  propagate_keys-Sound stack no_keys o vo vn u ex b m w f a = (tt, a)
  propagate_keys-Sound stack (some_keys c) none vo vn u ex b m w f a = (w, a)
  propagate_keys-Sound stack (some_keys c) (some p) vo vn u ex b m w f a =
      propagate-Sound stack c p vo vn u ex b m w f a

  propagate-Sound :
      (stack : TreePath) (c : Children) (p : Node) (vo vn : Vis) (u : Update) (ex : List External)
      (b : ℕ)
      → MapChildren c
      → WrittenChildren c
      → IsFlat b p
      → AllSound ex
      → let r = propagate stack c p vo vn u ex in WrittenChildren r.children × AllSound r.externals
  propagate-Sound stack nil p vo vn u ex b m w f a = (tt, a)
  propagate-Sound stack (cons k n c) p vo vn u ex b m w f a =
      let r = merge_flat (stack ++ k ∷ []) n p vo vn ex in
      let one = merge_flat-Sound (stack ++ k ∷ []) n p vo vn ex b m.0 w.0 f a in
      let rest =
        propagate-Sound stack c r.diff vo vn (Update.add_child u k r.update) r.externals b m.2 w.1
          (merge_flat-IsFlat (stack ++ k ∷ []) n p vo vn ex b f) one.1 in
      ((one.0, rest.0), rest.1)

mutual
  unfolding merge

  merge-Sound :
      (stack : TreePath) (n d : Node) (vo vn : Vis) (ex : List External)
      → IsMap n
      → IsWritten n
      → IsWritten d
      → AllSound ex
      → let r = merge stack n d vo vn ex in IsWritten r.node × AllSound r.externals
  merge-Sound stack (node v val ks g) (node dv dval dks dg) vo vn ex m w d a =
      let s = settle_values v val dv dval in
      let old = descend vo v in
      let new = descend vn s.vis in
      let u = own_change v val s vo vn in
      let p = propagate_keys stack ks s.propagate old new u ex in
      let map = propagate_keys-MapKeys stack ks s.propagate old new u ex m in
      let spread =
        propagate_keys-Sound stack ks s.propagate old new u ex dv.deleted m w.1
          (settle_values-propagate v val dv dval dv.deleted (omega arith)) a in
      let j = merge_keys stack p.keys dks old new p.update p.externals in
      let joined =
        merge_keys-Sound stack p.keys dks old new p.update p.externals map spread.0 d.1 spread.1 in
      settle_delegation-Sound stack s j.keys g j.diff_keys dg new j.update j.externals
        (settle_values-Written v val dv dval w.0 d.0)
        (merge_keys-MapKeys stack p.keys dks old new p.update p.externals map) joined.0 joined.1

  merge_keys-Sound :
      (stack : TreePath) (ks dks : Keys) (vo vn : Vis) (u : Update) (ex : List External)
      → MapKeys ks
      → WrittenKeys ks
      → WrittenKeys dks
      → AllSound ex
      → let r = merge_keys stack ks dks vo vn u ex in WrittenKeys r.keys × AllSound r.externals
  merge_keys-Sound stack ks no_keys vo vn u ex m w d a = (w, a)
  merge_keys-Sound stack ks (some_keys dc) vo vn u ex m w d a =
      merge_children-Sound stack (children_of ks) dc vo vn u ex (MapKeys-children ks m)
        (WrittenKeys-children ks w) d a

  merge_children-Sound :
      (stack : TreePath) (c dc : Children) (vo vn : Vis) (u : Update) (ex : List External)
      → MapChildren c
      → WrittenChildren c
      → WrittenChildren dc
      → AllSound ex
      → let r = merge_children stack c dc vo vn u ex in
        WrittenChildren r.children × AllSound r.externals
  merge_children-Sound stack c nil vo vn u ex m w d a = (w, a)
  merge_children-Sound stack c (cons k n dc) vo vn u ex m w d a =
      let entry = get_child k c in
      let old = or_default entry in
      let map = get_child-IsMap k c m in
      let r = merge (stack ++ k ∷ []) old n vo vn ex in
      let one =
        merge-Sound (stack ++ k ∷ []) old n vo vn ex map (get_child-IsWritten k c w) d.0 a in
      merge_children-Sound stack (put_child k entry r.node c) dc vo vn
        (Update.add_child u k r.update) r.externals
        (put_child-MapChildren k entry r.node c (merge-IsMap (stack ++ k ∷ []) old n vo vn ex map)
          m)
        (put_child-WrittenChildren k entry r.node c one.0 w) d.1 one.1

-- The values of a merged tree have their times, and so have those of the trees that it sends to
-- other zones, which are maps and stand below the root.
pub tree_merge-AllSound :
    (t diff : NodeTree)
    → IsMap t.node
    → IsWritten t.node
    → IsWritten diff.node
    → IsWritten (tree_merge t diff).tree.node × AllSound (tree_merge t diff).externals
unfolding tree_merge node_merge
tree_merge-AllSound t diff m w d = merge-Sound [] t.node diff.node t.vis _ [] m w d tt
