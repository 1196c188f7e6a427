-- ===== src/Node/Merge/CutDown.antt =====
-- The diff that src/node.rs `merge` leaves in its argument, cut down to what changed the tree: it
-- is what a zone sends to the replicas.
use Prim.Native.Nat.Ordering.{gt}
use qumulus.Base.{ℕ, ◌≡◌, refl, sym, ap, ◌<◌, inl, inr, List, [], ◌∷◌, ◌++◌, max, arith}
use qumulus.Node.{
  Node, node, Keys, no_keys, some_keys, Children, nil, cons, children_of, get_child, default,
}
use qumulus.Node.Merge.{
  External, propagate_keys, own_change, settle_values, merge, merge_keys, merge_children,
  or_default, put_child,
}
use qumulus.Node.Merge.Entries.{
  put_child-Local, get_child-Local, get_child-put_ne, get_child-cons_lt, get_child-cons_eq,
  get_child-cons_gt,
}
use qumulus.Node.Merge.Flat.{Kept, propagate_keys-Kept}
use qumulus.Node.Merge.Local.{merge-IsLocal, propagate_keys-Local, LocalKeys-children}
use qumulus.Node.Merge.Settle.{settle_values-propagate, settle_delegation-diff}
use qumulus.Node.Merge.View.{updated_at, deleted_along, value_at, IsLocal, LocalKeys, LocalChildren}
use qumulus.Text.{Text, text_cmp}
use qumulus.Text.Order.{ne_of_text_cmp, Ordering-cases, eq_of_text_cmp}
use qumulus.TreePath.{TreePath}
use qumulus.Update
use qumulus.Update.{Update}
use qumulus.Value.{Value}
use qumulus.Vis.{Vis, descend}

-- `d'` says at `p` all that `d` tells `n` anew, and nothing else.
pub record CutDown (n d d' : Node) (p : TreePath) : Type 0 where
  pub written : max (updated_at n p) (updated_at d' p) ≡ max (updated_at n p) (updated_at d p)
  pub deleted :
      max (deleted_along n p) (deleted_along d' p) ≡ max (deleted_along n p) (deleted_along d p)
  pub content :
      0 < updated_at d' p → (updated_at d' p ≡ updated_at d p) × (value_at d' p ≡ value_at d p)

CutDown-refl : (n d : Node) (p : TreePath) → CutDown n d d p
CutDown-refl n d p = record { written = refl; deleted = refl; content = λ h. (refl, refl) }

own-CutDown :
    (v : Vis) (val : Value) (dv : Vis) (dval : Value) (ks dks dks' : Keys) (g dg dg' : ℕ)
    → let s = settle_values v val dv dval in
      CutDown (node v val ks g) (node dv dval dks dg) (node s.diff_vis s.diff_value dks' dg') []
unfolding settle_values
own-CutDown v val dv dval ks dks dks' g dg dg' = record {
  written = ground arith;
  deleted = ground arith;
  content = λ h. (ground arith, ground arith);
}

settle_values-diff_deleted :
    (v : Vis) (val : Value) (dv : Vis) (dval : Value)
    → max v.deleted (settle_values v val dv dval).diff_vis.deleted ≡ max v.deleted dv.deleted
unfolding settle_values
settle_values-diff_deleted v val dv dval = ground arith

-- Below the node: `ks'` are the node's children after the propagation.
below-CutDown :
    (v : Vis) (val : Value) (dv : Vis) (dval : Value) (ks dks dks' ks' : Keys) (g dg dg' : ℕ)
    (k : Text) (p : TreePath)
    → Kept dv.deleted
        (or_default (get_child k (children_of ks)))
        (or_default (get_child k (children_of ks')))
        p
    → CutDown
        (or_default (get_child k (children_of ks')))
        (or_default (get_child k (children_of dks)))
        (or_default (get_child k (children_of dks')))
        p
    → let s = settle_values v val dv dval in
      CutDown
        (node v val ks g)
        (node dv dval dks dg)
        (node s.diff_vis s.diff_value dks' dg')
        (k ∷ p)
below-CutDown v val dv dval ks dks dks' ks' g dg dg' k p kept e =
    let x = settle_values-diff_deleted v val dv dval in
    record {
      written = omega (arith, kept.same_updated, e.written);
      deleted = omega (arith, kept.same_deleted, e.deleted);
      content = e.content;
    }

CutDown-cong :
    {n n' d d' m m' : Node} {p : TreePath}
    → n ≡ n'
    → d ≡ d'
    → m ≡ m'
    → CutDown n d m p
    → CutDown n' d' m' p
CutDown-cong a b c h = rw (← a, ← b, ← c) h

mutual
  unfolding merge

  pub merge-CutDown :
      (stack : TreePath) (n d : Node) (vo vn : Vis) (ex : List External) (p : TreePath)
      → IsLocal n
      → IsLocal d
      → CutDown n d (merge stack n d vo vn ex).diff p
  merge-CutDown stack (node v val ks g) (node dv dval dks dg) vo vn ex [] l e =
      rw settle_delegation-diff (own-CutDown v val dv dval ks dks _ g dg _)
  merge-CutDown stack (node v val ks g) (node dv dval dks dg) vo vn ex (k ∷ p) l e =
      let s = settle_values v val dv dval in
      let old = descend vo v in
      let new = descend vn s.vis in
      let u = own_change v val s vo vn in
      let r = propagate_keys stack ks s.propagate old new u ex in
      let flat = settle_values-propagate v val dv dval dv.deleted (omega arith) in
      rw settle_delegation-diff (
        below-CutDown v val dv dval ks dks _ r.keys g dg _ k p
          (propagate_keys-Kept stack ks s.propagate old new u ex dv.deleted k p l.1 flat)
          (merge_keys-CutDown stack r.keys dks old new r.update r.externals k p
            (propagate_keys-Local stack ks s.propagate old new u ex dv.deleted l.1 flat).0 e.1))

  merge_keys-CutDown :
      (stack : TreePath) (ks dks : Keys) (vo vn : Vis) (u : Update) (ex : List External) (k : Text)
      (p : TreePath)
      → LocalKeys ks
      → LocalKeys dks
      → CutDown
          (or_default (get_child k (children_of ks)))
          (or_default (get_child k (children_of dks)))
          (or_default (get_child k (children_of (merge_keys stack ks dks vo vn u ex).diff_keys)))
          p
  merge_keys-CutDown stack ks no_keys vo vn u ex k p l e =
      CutDown-refl (or_default (get_child k (children_of ks))) _ p
  merge_keys-CutDown stack ks (some_keys dc) vo vn u ex k p l e =
      merge_children-CutDown stack (children_of ks) dc vo vn u ex k p (LocalKeys-children ks l) e

  merge_children-CutDown :
      (stack : TreePath) (c dc : Children) (vo vn : Vis) (u : Update) (ex : List External)
      (k : Text) (p : TreePath)
      → LocalChildren c
      → LocalChildren dc
      → CutDown
          (or_default (get_child k c))
          (or_default (get_child k dc))
          (or_default (get_child k (merge_children stack c dc vo vn u ex).diff_children))
          p
  merge_children-CutDown stack c nil vo vn u ex k p l e =
      CutDown-refl (or_default (get_child k c)) _ p
  merge_children-CutDown stack c (cons j d dc) vo vn u ex k p l e =
      let entry = get_child j c in
      let n = or_default entry in
      let r = merge (stack ++ j ∷ []) n d vo vn ex in
      let one = merge-CutDown (stack ++ j ∷ []) n d vo vn ex p (get_child-Local j c l) e.0 in
      let kept = merge-IsLocal (stack ++ j ∷ []) n d vo vn ex (get_child-Local j c l) e.0 in
      let c' = put_child j entry r.node c in
      let u' = Update.add_child u j r.update in
      let left = (merge_children stack c' dc vo vn u' r.externals).diff_children in
      let rest =
        merge_children-CutDown stack c' dc vo vn u' r.externals k p
          (put_child-Local j entry r.node c kept.0 l) e.1 in
      elim (Ordering-cases (text_cmp k j)) [
        | inl before ↦
            CutDown-cong refl (sym (ap or_default (get_child-cons_lt k j d dc before)))
              (sym (ap or_default (get_child-cons_lt k j r.diff left before)))
              (CutDown-refl (or_default (get_child k c)) default p)
        | inr (inl same) ↦
            let kj = eq_of_text_cmp k j same in
            CutDown-cong (ap (λ x. or_default (get_child x c)) (sym kj))
              (sym (ap or_default (get_child-cons_eq k j d dc same)))
              (sym (ap or_default (get_child-cons_eq k j r.diff left same))) one
        | inr (inr behind) ↦
            CutDown-cong
              (ap or_default
                (get_child-put_ne k j entry r.node c (ne_of_text_cmp k j gt behind (λ x. cc))))
              (sym (ap or_default (get_child-cons_gt k j d dc behind)))
              (sym (ap or_default (get_child-cons_gt k j r.diff left behind))) rest
      ]
