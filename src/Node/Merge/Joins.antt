-- ===== src/Node/Merge/Joins.antt =====
-- What a merge of undelegated trees decides at every path: the newest write and the newest delete.
use Prim.Native.Nat.Ordering.{lt, gt}
use qumulus.Base.{ℕ, ◌≡◌, refl, sym, ◌∙◌, ap, ◌≤◌, ◌<◌, inl, inr, List, [], ◌∷◌, ◌++◌, max, arith}
use qumulus.Node.{
  Node, node, Keys, no_keys, some_keys, Children, nil, cons, children_of, get_child, default,
}
use qumulus.Node.Merge.{
  External, propagate_keys, own_change, settle_values, merge, merge_keys, merge_children,
  or_default, put_child,
}
use qumulus.Node.Merge.Entries.{
  put_child-Local, get_child-Local, get_child-put_self, get_child-put_ne, get_child-cons_lt,
  get_child-cons_eq, get_child-cons_gt, Above-trans,
}
use qumulus.Node.Merge.Flat.{Kept, propagate_keys-Kept}
use qumulus.Node.Merge.Local.{merge-IsLocal, propagate_keys-Local, LocalKeys-children}
use qumulus.Node.Merge.Settle.{
  settle_values-propagate, settle_values-updated, settle_values-deleted, settle_values-value_old,
  settle_values-value_new, settle_delegation-node,
}
use qumulus.Node.Merge.View.{
  updated_at, deleted_along, value_at, IsLocal, LocalKeys, LocalChildren, IsMap, MapKeys,
  MapChildren, Above, Same,
}
use qumulus.Text.{Text, text_cmp}
use qumulus.Text.Order.{ne_of_text_cmp, Ordering-cases, eq_of_text_cmp}
use qumulus.TreePath.{TreePath}
use qumulus.Update
use qumulus.Update.{Update}
use qumulus.Value.{Value}
use qumulus.Vis.{Vis, descend}

-- `m` holds at `p` what `n` and `d` together say.
pub record Meets (n d m : Node) (p : TreePath) : Type 0 where
  pub updated : updated_at m p ≡ max (updated_at n p) (updated_at d p)
  pub deleted : deleted_along m p ≡ max (deleted_along n p) (deleted_along d p)
  pub newer_value :
      updated_at n p < updated_at d p
      → deleted_along m p < updated_at m p
      → Same (value_at m p) (value_at d p)
  pub older_value :
      updated_at d p ≤ updated_at n p
      → deleted_along m p < updated_at m p
      → value_at m p ≡ value_at n p

pub default_view : (p : TreePath) → (updated_at default p ≡ 0) × (deleted_along default p ≡ 0)
unfolding get_child
default_view [] = (refl, refl)
default_view (k ∷ p) = ((default_view p).0, omega (arith, default_view p))

-- Merging with nothing.
Meets-default : (n : Node) (p : TreePath) → Meets n default n p
Meets-default n p =
    let e = default_view p in
    record {
      updated = omega arith;
      deleted = omega arith;
      newer_value = λ h k. absurd (omega arith);
      older_value = λ h k. refl;
    }

own-Meets :
    (v : Vis) (val : Value) (dv : Vis) (dval : Value) (ks dks ks' : Keys) (g dg g' : ℕ)
    → let s = settle_values v val dv dval in
      Meets (node v val ks g) (node dv dval dks dg) (node s.vis s.value ks' g') []
own-Meets v val dv dval ks dks ks' g dg g' =
    let u = settle_values-updated v val dv dval in
    let x = settle_values-deleted v val dv dval in
    record {
      updated = u;
      deleted = x;
      newer_value = λ h k. settle_values-value_new v val dv dval h (omega arith);
      older_value = λ h k. settle_values-value_old v val dv dval h (omega arith);
    }

-- Below the node: `c'` is the child `c` after the propagation, `m` the merge of `c'` with `e`.
below-Meets :
    (v : Vis) (val : Value) (dv : Vis) (dval : Value) (ks dks ks' ks'' : Keys) (g dg g' : ℕ)
    (k : Text) (p : TreePath)
    → Kept dv.deleted
        (or_default (get_child k (children_of ks)))
        (or_default (get_child k (children_of ks')))
        p
    → Meets
        (or_default (get_child k (children_of ks')))
        (or_default (get_child k (children_of dks)))
        (or_default (get_child k (children_of ks'')))
        p
    → let s = settle_values v val dv dval in
      Meets (node v val ks g) (node dv dval dks dg) (node s.vis s.value ks'' g') (k ∷ p)
below-Meets v val dv dval ks dks ks' ks'' g dg g' k p kept e =
    let x = settle_values-deleted v val dv dval in
    record {
      updated = omega (arith, kept.same_updated, e.updated);
      deleted = omega (arith, kept.same_deleted, e.deleted);
      newer_value = λ h i. e.newer_value (omega (arith, kept.same_updated)) (omega arith);
      older_value = λ h i.
          e.older_value (omega (arith, kept.same_updated)) (omega arith)
          ∙ kept.same_value (omega (arith, kept.same_updated, e.updated));
    }

-- A key that comes before all of the diff's is left alone.
merge_children-Above :
    (stack : TreePath) (c dc : Children) (vo vn : Vis) (u : Update) (ex : List External) (k : Text)
    → Above k dc
    → get_child k (merge_children stack c dc vo vn u ex).children ≡ get_child k c
unfolding merge
merge_children-Above stack c nil vo vn u ex k h = refl
merge_children-Above stack c (cons j d dc) vo vn u ex k h =
    let entry = get_child j c in
    let m = merge (stack ++ j ∷ []) (or_default entry) d vo vn ex in
    let ne = ne_of_text_cmp k j lt h.0 (λ e. cc) in
    merge_children-Above stack (put_child j entry m.node c) dc vo vn (Update.add_child u j m.update)
      m.externals k h.1
    ∙ get_child-put_ne k j entry m.node c ne

Meets-cong :
    {n n' d d' m m' : Node} {p : TreePath}
    → n ≡ n'
    → d ≡ d'
    → m ≡ m'
    → Meets n d m p
    → Meets n' d' m' p
Meets-cong a b c h = rw (← a, ← b, ← c) h

mutual
  unfolding merge

  pub merge-Meets :
      (stack : TreePath) (n d : Node) (vo vn : Vis) (ex : List External) (p : TreePath)
      → IsLocal n
      → IsLocal d
      → IsMap d
      → Meets n d (merge stack n d vo vn ex).node p
  merge-Meets stack (node v val ks g) (node dv dval dks dg) vo vn ex [] l e m =
      rw (settle_delegation-node _ _ _ g _ dg _ _ _ l.0 e.0)
        (own-Meets v val dv dval ks dks _ g dg _)
  merge-Meets stack (node v val ks g) (node dv dval dks dg) vo vn ex (k ∷ p) l e m =
      let s = settle_values v val dv dval in
      let old = descend vo v in
      let new = descend vn s.vis in
      let u = own_change v val s vo vn in
      let r = propagate_keys stack ks s.propagate old new u ex in
      let flat = settle_values-propagate v val dv dval dv.deleted (omega arith) in
      rw (settle_delegation-node _ _ _ g _ dg _ _ _ l.0 e.0) (
        below-Meets v val dv dval ks dks r.keys _ g dg _ k p
          (propagate_keys-Kept stack ks s.propagate old new u ex dv.deleted k p l.1 flat)
          (merge_keys-Meets stack r.keys dks old new r.update r.externals k p
            (propagate_keys-Local stack ks s.propagate old new u ex dv.deleted l.1 flat).0 e.1 m))

  merge_keys-Meets :
      (stack : TreePath) (ks dks : Keys) (vo vn : Vis) (u : Update) (ex : List External) (k : Text)
      (p : TreePath)
      → LocalKeys ks
      → LocalKeys dks
      → MapKeys dks
      → Meets
          (or_default (get_child k (children_of ks)))
          (or_default (get_child k (children_of dks)))
          (or_default (get_child k (children_of (merge_keys stack ks dks vo vn u ex).keys)))
          p
  merge_keys-Meets stack ks no_keys vo vn u ex k p l e m =
      Meets-default (or_default (get_child k (children_of ks))) p
  merge_keys-Meets stack ks (some_keys dc) vo vn u ex k p l e m =
      merge_children-Meets stack (children_of ks) dc vo vn u ex k p (LocalKeys-children ks l) e m

  merge_children-Meets :
      (stack : TreePath) (c dc : Children) (vo vn : Vis) (u : Update) (ex : List External)
      (k : Text) (p : TreePath)
      → LocalChildren c
      → LocalChildren dc
      → MapChildren dc
      → Meets
          (or_default (get_child k c))
          (or_default (get_child k dc))
          (or_default (get_child k (merge_children stack c dc vo vn u ex).children))
          p
  merge_children-Meets stack c nil vo vn u ex k p l e m =
      Meets-default (or_default (get_child k c)) p
  merge_children-Meets stack c (cons j d dc) vo vn u ex k p l e m =
      let entry = get_child j c in
      let n = or_default entry in
      let r = merge (stack ++ j ∷ []) n d vo vn ex in
      let one = merge-Meets (stack ++ j ∷ []) n d vo vn ex p (get_child-Local j c l) e.0 m.0 in
      let kept = merge-IsLocal (stack ++ j ∷ []) n d vo vn ex (get_child-Local j c l) e.0 in
      let c' = put_child j entry r.node c in
      let u' = Update.add_child u j r.update in
      let rest =
        merge_children-Meets stack c' dc vo vn u' r.externals k p
          (put_child-Local j entry r.node c kept.0 l) e.1 m.2 in
      elim (Ordering-cases (text_cmp k j)) [
        | inl before ↦
            Meets-cong refl (sym (ap or_default (get_child-cons_lt k j d dc before)))
              (sym (
                ap or_default (
                  merge_children-Above stack c' dc vo vn u' r.externals k
                    (Above-trans k j dc before m.1)
                  ∙ get_child-put_ne k j entry r.node c (ne_of_text_cmp k j lt before (λ x. cc)))))
              (Meets-default (or_default (get_child k c)) p)
        | inr (inl same) ↦
            let kj = eq_of_text_cmp k j same in
            let all = (merge_children stack c' dc vo vn u' r.externals).children in
            Meets-cong (ap (λ x. or_default (get_child x c)) (sym kj))
              (sym (ap or_default (get_child-cons_eq k j d dc same)))
              (sym (
                ap (λ x. or_default (get_child x all)) kj
                ∙ ap or_default (merge_children-Above stack c' dc vo vn u' r.externals j m.1)
                ∙ get_child-put_self j r.node c))
              one
        | inr (inr behind) ↦
            Meets-cong
              (ap or_default
                (get_child-put_ne k j entry r.node c (ne_of_text_cmp k j gt behind (λ x. cc))))
              (sym (ap or_default (get_child-cons_gt k j d dc behind))) refl rest
      ]
