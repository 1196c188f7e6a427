-- ===== src/Node/Merge/Held.antt =====
-- The data that the externals of a merge of src/node.rs hold. A merge only adds externals.
use qumulus.Base.{
  false, ℕ, ◌+◌, ◌≡◌, refl, ◌⊎◌, inl, inr, not, ◌&&◌, Option, none, some, List, [], ◌∷◌, ◌++◌,
  is_empty, ltb, arith,
}
use qumulus.Node.{
  Node, node, Keys, no_keys, some_keys, Children, nil, cons, vis_of, value_of, children_of,
  get_child,
}
use qumulus.Node.Merge.{
  External, Settled, merge_flat, propagate_keys, propagate, own_change, settle_values,
  settle_delegation, merge, merge_keys, merge_children, or_default, put_child, is_odd,
}
use qumulus.Node.Merge.Settle.{newer}
use qumulus.Node.Merge.View.{child}
use qumulus.TreePath.{TreePath}
use qumulus.Update
use qumulus.Update.{Update}
use qumulus.Value.{Value}
use qumulus.Vis.{Vis, descend}

-- The timestamps and the value at a path.
abbrev pub data_at : Node → TreePath → Vis × Value
data_at n [] = (vis_of n, value_of n)
data_at n (k ∷ q) = data_at (child k n) q

-- An external holds this at this path, which is given from the root of the zone.
abbrev pub Held : List External → TreePath → Vis × Value → Type 0
Held [] q x = ⊥
Held (e ∷ externals) q x =
    ((s : TreePath) × (q ≡ e.path ++ s) × (data_at e.tree.node s ≡ x)) ⊎ Held externals q x

Held-append :
    (ex more : List External) (q : TreePath) (x : Vis × Value) → Held ex q x → Held (ex ++ more) q x
Held-append [] more q x h = elim h [ ]
Held-append (e ∷ ex) more q x (inl h) = inl h
Held-append (e ∷ ex) more q x (inr h) = inr (Held-append ex more q x h)

pub Held-last :
    (ex : List External) (e : External) (s : TreePath)
    → Held (ex ++ e ∷ []) (e.path ++ s) (data_at e.tree.node s)
Held-last [] e s = inl (s, refl, refl)
Held-last (f ∷ ex) e s = inr (Held-last ex e s)

abbrev pub moved : TreePath → Settled → Keys → ℕ → ℕ → Vis → External
moved stack s ks g dg vis_new = record {
  path = stack;
  tree = record { node = node s.vis s.value ks (newer g dg); vis = vis_new };
  initial = ltb 0 dg && ltb g dg && not (is_empty stack) && is_odd (dg + g) && is_odd dg;
}

module _ (stack : TreePath) (s : Settled) (ks : Keys) (g : ℕ) (dks : Keys) (dg : ℕ) (vis_new : Vis)
    (u : Update) (ex : List External) where
  pub settle_delegation-cases :
      (((settle_delegation stack s ks g dks dg vis_new u ex).node
          ≡ node s.vis s.value ks (newer g dg))
        × ((settle_delegation stack s ks g dks dg vis_new u ex).externals ≡ ex))
      ⊎ (((settle_delegation stack s ks g dks dg vis_new u ex).externals
            ≡ ex ++ moved stack s ks g dg vis_new ∷ [])
          × (is_empty stack ≡ false))
  unfolding settle_delegation
  settle_delegation-cases = ground arith

  pub settle_delegation-Held :
      (q : TreePath) (x : Vis × Value)
      → Held ex q x
      → Held (settle_delegation stack s ks g dks dg vis_new u ex).externals q x
  settle_delegation-Held q x h = elim settle_delegation-cases [
    | inl kept ↦ rw kept.1 h
    | inr out ↦ rw out.0 (Held-append ex _ q x h)
  ]

mutual
  unfolding merge_flat

  merge_flat-Held :
      (stack : TreePath) (n d : Node) (vo vn : Vis) (ex : List External) (q : TreePath)
      (x : Vis × Value)
      → Held ex q x
      → Held (merge_flat stack n d vo vn ex).externals q x
  merge_flat-Held stack (node v val ks g) (node dv dval dks dg) vo vn ex q x h =
      let s = settle_values v val dv dval in
      settle_delegation-Held stack s _ g no_keys dg _ _ _ q x (
        propagate_keys-Held stack ks s.propagate (descend vo v) (descend vn s.vis)
          (own_change v val s vo vn) ex q x h)

  propagate_keys-Held :
      (stack : TreePath) (ks : Keys) (o : Option Node) (vo vn : Vis) (u : Update)
      (ex : List External) (q : TreePath) (x : Vis × Value)
      → Held ex q x
      → Held (propagate_keys stack ks o vo vn u ex).externals q x
  propagate_keys-Held stack no_keys o vo vn u ex q x h = h
  propagate_keys-Held stack (some_keys c) none vo vn u ex q x h = h
  propagate_keys-Held stack (some_keys c) (some p) vo vn u ex q x h =
      propagate-Held stack c p vo vn u ex q x h

  propagate-Held :
      (stack : TreePath) (c : Children) (p : Node) (vo vn : Vis) (u : Update) (ex : List External)
      (q : TreePath) (x : Vis × Value)
      → Held ex q x
      → Held (propagate stack c p vo vn u ex).externals q x
  propagate-Held stack nil p vo vn u ex q x h = h
  propagate-Held stack (cons k n c) p vo vn u ex q x h =
      let m = merge_flat (stack ++ k ∷ []) n p vo vn ex in
      propagate-Held stack c m.diff vo vn (Update.add_child u k m.update) m.externals q x
        (merge_flat-Held (stack ++ k ∷ []) n p vo vn ex q x h)

mutual
  unfolding merge

  merge-Held :
      (stack : TreePath) (n d : Node) (vo vn : Vis) (ex : List External) (q : TreePath)
      (x : Vis × Value)
      → Held ex q x
      → Held (merge stack n d vo vn ex).externals q x
  merge-Held stack (node v val ks g) (node dv dval dks dg) vo vn ex q x h =
      let s = settle_values v val dv dval in
      let old = descend vo v in
      let new = descend vn s.vis in
      let u = own_change v val s vo vn in
      let p = propagate_keys stack ks s.propagate old new u ex in
      settle_delegation-Held stack s _ g _ dg _ _ _ q x (
        merge_keys-Held stack p.keys dks old new p.update p.externals q x
          (propagate_keys-Held stack ks s.propagate old new u ex q x h))

  merge_keys-Held :
      (stack : TreePath) (ks dks : Keys) (vo vn : Vis) (u : Update) (ex : List External)
      (q : TreePath) (x : Vis × Value)
      → Held ex q x
      → Held (merge_keys stack ks dks vo vn u ex).externals q x
  merge_keys-Held stack ks no_keys vo vn u ex q x h = h
  merge_keys-Held stack ks (some_keys dc) vo vn u ex q x h =
      merge_children-Held stack (children_of ks) dc vo vn u ex q x h

  pub merge_children-Held :
      (stack : TreePath) (c dc : Children) (vo vn : Vis) (u : Update) (ex : List External)
      (q : TreePath) (x : Vis × Value)
      → Held ex q x
      → Held (merge_children stack c dc vo vn u ex).externals q x
  merge_children-Held stack c nil vo vn u ex q x h = h
  merge_children-Held stack c (cons k d dc) vo vn u ex q x h =
      let entry = get_child k c in
      let n = or_default entry in
      let m = merge (stack ++ k ∷ []) n d vo vn ex in
      merge_children-Held stack (put_child k entry m.node c) dc vo vn
        (Update.add_child u k m.update) m.externals q x
        (merge-Held (stack ++ k ∷ []) n d vo vn ex q x h)
