-- ===== src/Node/Merge/Flat.antt =====
-- Propagating a delete to the children changes nothing that the parent's timestamps do not say.
use qumulus.Base.{ℕ, ◌≡◌, refl, ◌≤◌, Option, none, some, List, [], ◌∷◌, ◌++◌, max, arith}
use qumulus.Node.{
  Node, node, Keys, no_keys, some_keys, Children, nil, cons, children_of, get_child, default,
}
use qumulus.Node.Merge.{External, merge_flat, propagate_keys, propagate, settle_values, or_default}
use qumulus.Node.Merge.Settle.{
  IsFlat, FlatOption, settle_values-updated, settle_values-deleted, settle_values-propagate,
  settle_values-value_old, settle_values-diff_flat, settle_delegation-node, settle_delegation-diff,
}
use qumulus.Node.Merge.View.{updated_at, deleted_along, value_at, IsLocal, LocalKeys, LocalChildren}
use qumulus.Text.{Text}
use qumulus.TreePath.{TreePath}
use qumulus.Update
use qumulus.Update.{Update}
use qumulus.Value.{Value}
use qumulus.Vis.{Vis, descend}

-- `n'` differs from `n` at `p` by deletes up to `b` only.
pub record Kept (b : ℕ) (n n' : Node) (p : TreePath) : Type 0 where
  pub same_updated : updated_at n' p ≡ updated_at n p
  pub same_deleted : max b (deleted_along n' p) ≡ max b (deleted_along n p)
  pub same_value : b ≤ updated_at n p → value_at n' p ≡ value_at n p

pub Kept-refl : (b : ℕ) (n : Node) (p : TreePath) → Kept b n n p
Kept-refl b n p = record { same_updated = refl; same_deleted = refl; same_value = λ h. refl }

-- Merging a flat diff leaves a flat diff for the next child.
pub merge_flat-IsFlat :
    (stack : TreePath) (n d : Node) (vo vn : Vis) (ex : List External) (b : ℕ)
    → IsFlat b d
    → IsFlat b (merge_flat stack n d vo vn ex).diff
unfolding merge_flat
merge_flat-IsFlat stack (node v val ks g) (node dv dval dks dg) vo vn ex b h =
    let kept = settle_values-diff_flat v val dv dval b h.0 h.1 in
    rw settle_delegation-diff (kept.0, kept.1, rw h.2 (ground arith))

-- The node's own fields, whatever becomes of its children.
own-Kept :
    (v : Vis) (val : Value) (dv : Vis) (dval : Value) (ks ks' : Keys) (g g' : ℕ) (b : ℕ)
    → dv.updated ≡ 0
    → dv.deleted ≤ b
    → let s = settle_values v val dv dval in Kept b (node v val ks g) (node s.vis s.value ks' g') []
own-Kept v val dv dval ks ks' g g' b h k = record {
  same_updated = omega (arith, settle_values-updated v val dv dval);
  same_deleted = omega (arith, settle_values-deleted v val dv dval);
  same_value = λ e. settle_values-value_old v val dv dval (omega arith) (omega arith);
}

-- A path below the node: from the child and the node's own deletion.
below-Kept :
    (v : Vis) (val : Value) (dv : Vis) (dval : Value) (ks ks' : Keys) (g g' : ℕ) (b : ℕ) (k : Text)
    (p : TreePath)
    → dv.deleted ≤ b
    → Kept b
        (or_default (get_child k (children_of ks)))
        (or_default (get_child k (children_of ks')))
        p
    → let s = settle_values v val dv dval in
      Kept b (node v val ks g) (node s.vis s.value ks' g') (k ∷ p)
below-Kept v val dv dval ks ks' g g' b k p h e = record {
  same_updated = e.same_updated;
  same_deleted = omega (arith, settle_values-deleted v val dv dval, e.same_deleted);
  same_value = e.same_value;
}

mutual
  unfolding merge_flat get_child

  pub merge_flat-Kept :
      (stack : TreePath) (n d : Node) (vo vn : Vis) (ex : List External) (b : ℕ) (p : TreePath)
      → IsLocal n
      → IsFlat b d
      → Kept b n (merge_flat stack n d vo vn ex).node p
  merge_flat-Kept stack (node v val ks g) (node dv dval dks dg) vo vn ex b [] l f =
      rw (settle_delegation-node _ _ _ g _ dg _ _ _ l.0 (rw f.2 refl))
        (own-Kept v val dv dval ks _ g _ b f.0 f.1)
  merge_flat-Kept stack (node v val ks g) (node dv dval dks dg) vo vn ex b (k ∷ p) l f =
      rw (settle_delegation-node _ _ _ g _ dg _ _ _ l.0 (rw f.2 refl)) (
        below-Kept v val dv dval ks _ g _ b k p f.1 (
          propagate_keys-Kept stack ks _ (descend vo v) _ _ ex b k p l.1
            (settle_values-propagate v val dv dval b f.1)))

  pub propagate_keys-Kept :
      (stack : TreePath) (ks : Keys) (o : Option Node) (vo vn : Vis) (u : Update)
      (ex : List External) (b : ℕ) (k : Text) (p : TreePath)
      → LocalKeys ks
      → FlatOption b o
      → Kept b
          (or_default (get_child k (children_of ks)))
          (or_default (get_child k (children_of (propagate_keys stack ks o vo vn u ex).keys)))
          p
  propagate_keys-Kept stack no_keys o vo vn u ex b k p l f = Kept-refl b default p
  propagate_keys-Kept stack (some_keys c) none vo vn u ex b k p l f =
      Kept-refl b (or_default (get_child k c)) p
  propagate_keys-Kept stack (some_keys c) (some d) vo vn u ex b k p l f =
      propagate-Kept stack c d vo vn u ex b k p l f

  pub propagate-Kept :
      (stack : TreePath) (c : Children) (d : Node) (vo vn : Vis) (u : Update) (ex : List External)
      (b : ℕ) (k : Text) (p : TreePath)
      → LocalChildren c
      → IsFlat b d
      → Kept b
          (or_default (get_child k c))
          (or_default (get_child k (propagate stack c d vo vn u ex).children))
          p
  propagate-Kept stack nil d vo vn u ex b k p l f = Kept-refl b default p
  propagate-Kept stack (cons j n c) d vo vn u ex b k p l f = ground (
    arith,
    merge_flat-Kept (stack ++ j ∷ []) n d vo vn ex b p l.0 f,
    merge_flat-IsFlat (stack ++ j ∷ []) n d vo vn ex b f,
    propagate-Kept stack c (merge_flat (stack ++ j ∷ []) n d vo vn ex).diff vo vn
        (Update.add_child u j (merge_flat (stack ++ j ∷ []) n d vo vn ex).update)
        (merge_flat (stack ++ j ∷ []) n d vo vn ex).externals b k p l.1,
  )
