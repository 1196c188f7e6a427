-- ===== src/Node/Merge/Local.antt =====
-- A merge of undelegated trees delegates nothing and moves nothing out.
use qumulus.Base.{ℕ, false, ◌≡◌, refl, ◌∙◌, Option, none, some, List, [], ◌∷◌, ◌++◌, arith}
use qumulus.Node.{Node, node, Keys, no_keys, some_keys, Children, nil, cons, children_of, get_child}
use qumulus.Node.Merge.{
  External, merge_flat, propagate_keys, propagate, own_change, settle_values, merge, merge_keys,
  merge_children, or_default, put_child, is_odd,
}
use qumulus.Node.Merge.Entries.{put_child-Local, get_child-Local}
use qumulus.Node.Merge.Flat.{merge_flat-IsFlat}
use qumulus.Node.Merge.Settle.{
  IsFlat, FlatOption, settle_values-propagate, settle_delegation-node, newer_even,
  settle_delegation-externals,
}
use qumulus.Node.Merge.View.{IsLocal, LocalKeys, LocalChildren}
use qumulus.TreePath.{TreePath}
use qumulus.Update
use qumulus.Update.{Update}
use qumulus.Vis.{Vis, descend}

mutual
  unfolding merge_flat

  pub merge_flat-IsLocal :
      (stack : TreePath) (n d : Node) (vo vn : Vis) (ex : List External) (b : ℕ)
      → IsLocal n
      → IsFlat b d
      → IsLocal (merge_flat stack n d vo vn ex).node
        × ((merge_flat stack n d vo vn ex).externals ≡ ex)
  merge_flat-IsLocal stack (node v val ks g) (node dv dval dks dg) vo vn ex b l f =
      let even : is_odd dg ≡ false = rw f.2 refl in
      let p =
        propagate_keys-Local stack ks _ (descend vo v)
          (descend vn (settle_values v val dv dval).vis)
          (own_change v val (settle_values v val dv dval) vo vn) ex b l.1
          (settle_values-propagate v val dv dval b f.1) in
      (
        rw (settle_delegation-node _ _ _ g _ dg _ _ _ l.0 even) (newer_even g dg l.0 even, p.0),
        rw (settle_delegation-externals _ _ _ g _ dg _ _ _ l.0 even) p.1,
      )

  pub propagate_keys-Local :
      (stack : TreePath) (ks : Keys) (o : Option Node) (vo vn : Vis) (u : Update)
      (ex : List External) (b : ℕ)
      → LocalKeys ks
      → FlatOption b o
      → LocalKeys (propagate_keys stack ks o vo vn u ex).keys
        × ((propagate_keys stack ks o vo vn u ex).externals ≡ ex)
  propagate_keys-Local stack no_keys o vo vn u ex b l f = (l, refl)
  propagate_keys-Local stack (some_keys c) none vo vn u ex b l f = (l, refl)
  propagate_keys-Local stack (some_keys c) (some d) vo vn u ex b l f =
      propagate-Local stack c d vo vn u ex b l f

  pub propagate-Local :
      (stack : TreePath) (c : Children) (d : Node) (vo vn : Vis) (u : Update) (ex : List External)
      (b : ℕ)
      → LocalChildren c
      → IsFlat b d
      → LocalChildren (propagate stack c d vo vn u ex).children
        × ((propagate stack c d vo vn u ex).externals ≡ ex)
  propagate-Local stack nil d vo vn u ex b l f = (l, refl)
  propagate-Local stack (cons k n c) d vo vn u ex b l f =
      let m = merge_flat (stack ++ k ∷ []) n d vo vn ex in
      let one = merge_flat-IsLocal (stack ++ k ∷ []) n d vo vn ex b l.0 f in
      let rest =
        propagate-Local stack c m.diff vo vn (Update.add_child u k m.update) m.externals b l.1
          (merge_flat-IsFlat (stack ++ k ∷ []) n d vo vn ex b f) in
      ((one.0, rest.0), rest.1 ∙ one.1)

pub LocalKeys-children : (ks : Keys) → LocalKeys ks → LocalChildren (children_of ks)
LocalKeys-children no_keys l = tt
LocalKeys-children (some_keys c) l = l

mutual
  unfolding merge

  pub merge-IsLocal :
      (stack : TreePath) (n d : Node) (vo vn : Vis) (ex : List External)
      → IsLocal n
      → IsLocal d
      → IsLocal (merge stack n d vo vn ex).node × ((merge stack n d vo vn ex).externals ≡ ex)
  merge-IsLocal stack (node v val ks g) (node dv dval dks dg) vo vn ex l e =
      let s = settle_values v val dv dval in
      let old = descend vo v in
      let new = descend vn s.vis in
      let u = own_change v val s vo vn in
      let p =
        propagate_keys-Local stack ks s.propagate old new u ex dv.deleted l.1
          (settle_values-propagate v val dv dval dv.deleted (omega arith)) in
      let r = propagate_keys stack ks s.propagate old new u ex in
      let j = merge_keys-Local stack r.keys dks old new r.update r.externals p.0 e.1 in
      (
        rw (settle_delegation-node _ _ _ g _ dg _ _ _ l.0 e.0) (newer_even g dg l.0 e.0, j.0),
        rw (settle_delegation-externals _ _ _ g _ dg _ _ _ l.0 e.0) (j.1 ∙ p.1),
      )

  pub merge_keys-Local :
      (stack : TreePath) (ks dks : Keys) (vo vn : Vis) (u : Update) (ex : List External)
      → LocalKeys ks
      → LocalKeys dks
      → LocalKeys (merge_keys stack ks dks vo vn u ex).keys
        × ((merge_keys stack ks dks vo vn u ex).externals ≡ ex)
  merge_keys-Local stack ks no_keys vo vn u ex l e = (l, refl)
  merge_keys-Local stack ks (some_keys dc) vo vn u ex l e =
      merge_children-Local stack (children_of ks) dc vo vn u ex (LocalKeys-children ks l) e

  pub merge_children-Local :
      (stack : TreePath) (c dc : Children) (vo vn : Vis) (u : Update) (ex : List External)
      → LocalChildren c
      → LocalChildren dc
      → LocalChildren (merge_children stack c dc vo vn u ex).children
        × ((merge_children stack c dc vo vn u ex).externals ≡ ex)
  merge_children-Local stack c nil vo vn u ex l e = (l, refl)
  merge_children-Local stack c (cons k d dc) vo vn u ex l e =
      let entry = get_child k c in
      let m = merge (stack ++ k ∷ []) (or_default entry) d vo vn ex in
      let one =
        merge-IsLocal (stack ++ k ∷ []) (or_default entry) d vo vn ex (get_child-Local k c l) e.0 in
      let rest =
        merge_children-Local stack (put_child k entry m.node c) dc vo vn
          (Update.add_child u k m.update) m.externals (put_child-Local k entry m.node c one.0 l)
          e.1 in
      (rest.0, rest.1 ∙ one.1)
