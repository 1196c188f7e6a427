-- ===== src/Node/Merge/Fresh.antt =====
-- A zone that has no data yet takes over a tree: the merge of src/node.rs into the default tree.
use qumulus.Base.{
  ◌≡◌, ◌≢◌, refl, sym, ap, ◌∙◌, true, ◌⊎◌, inl, inr, [], ◌∷◌, none, subst, arith, ltb,
  if◌then◌else◌,
}
use qumulus.Node.{
  Node, node, NodeTree, no_keys, some_keys, Children, nil, cons, get_child, default, default_tree,
}
use qumulus.Node.Merge.{settle_values, or_default, put_child, tree_merge}
use qumulus.Node.Merge.Entries.{
  get_child-put_self, get_child-put_ne, get_child-Above, get_child-cons_eq, Above-trans,
}
use qumulus.Node.Merge.Held.{data_at, Held}
use qumulus.Node.Merge.Below.{whole_children-untouched}
use qumulus.Node.Merge.Moved.{tree_merge_keeps}
use qumulus.Node.Merge.View.{IsMap, MapChildren, Above}
use qumulus.Node.Merge.Whole.{whole, whole_keys, whole_children}
use qumulus.Node.Merge.Written.{Written, IsWritten, WrittenChildren}
use qumulus.Text.{Text}
use qumulus.Text.Order.{eq_or_ne, eq_of_text_cmp, text_cmp_refl}
use qumulus.TreePath.{TreePath}
use qumulus.Value.{Value, null, value_eq}
use qumulus.Vis
use qumulus.Vis.{Vis}

-- The timestamps, and the value unless it was deleted after it was written.
abbrev pub shown : Vis × Value → Vis × Value
shown (v, val) = (v, if ltb v.updated v.deleted then null else val)

null_of_value_eq : (val : Value) → value_eq null val ≡ true → val ≡ null
unfolding value_eq
null_of_value_eq null h = refl
null_of_value_eq (Value.bool b) h = cc
null_of_value_eq (Value.i64 n) h = cc
null_of_value_eq (Value.u64 n) h = cc
null_of_value_eq (Value.f64 n) h = cc
null_of_value_eq (Value.string s) h = cc

settle_fresh :
    (v : Vis) (val : Value)
    → Written v val
    → ((settle_values Vis.default null v val).vis ≡ v)
      × ((settle_values Vis.default null v val).value ≡ (shown (v, val)).1)
unfolding settle_values
settle_fresh v val h = (ground arith, ground (arith, null_of_value_eq val, h))

get_child-cons_ne :
    (j k : Text) (n : Node) (c : Children)
    → j ≢ k
    → Above k c
    → get_child j (cons k n c) ≡ get_child j c
unfolding get_child
get_child-cons_ne j k n c h a =
    ground (arith, Above-trans j k c, a, get_child-Above j c, eq_of_text_cmp j k)

data_at-default : (q : TreePath) → data_at default q ≡ (Vis.default, null)
unfolding get_child
data_at-default [] = refl
data_at-default (k ∷ q) = data_at-default q

default-shown : (q : TreePath) → data_at default q ≡ shown (data_at default q)
default-shown q = data_at-default q ∙ ap shown (sym (data_at-default q))

mutual
  unfolding whole whole_keys whole_children

  pub whole_fresh :
      (n : Node) (q : TreePath)
      → IsMap n
      → IsWritten n
      → data_at (whole default n) q ≡ shown (data_at n q)
  whole_fresh (node v val ks g) [] m w = let s = settle_fresh v val w.0 in cc (s.0, s.1)
  whole_fresh (node v val no_keys g) (k ∷ q) m w = default-shown q
  whole_fresh (node v val (some_keys c) g) (k ∷ q) m w = whole_children_fresh nil c k q refl m w.1

  whole_children_fresh :
      (c dc : Children) (j : Text) (q : TreePath)
      → get_child j c ≡ none
      → MapChildren dc
      → WrittenChildren dc
      → data_at (or_default (get_child j (whole_children c dc))) q
        ≡ shown (data_at (or_default (get_child j dc)) q)
  whole_children_fresh c nil j q e m w = ap (λ o. data_at (or_default o) q) e ∙ default-shown q
  whole_children_fresh c (cons k d dc) j q e m w =
      let merged = whole (or_default (get_child k c)) d in
      let c' = put_child k (get_child k c) merged c in
      elim (eq_or_ne j k) [
        | inl here ↦
            let vacant = subst (λ i. get_child i c ≡ none) here e in
            ap (λ o. data_at (or_default o) q)
              (ap (λ i. get_child i (whole_children c' dc)) here
                ∙ whole_children-untouched c' dc k m.1)
            ∙ ap (λ n. data_at n q)
                (get_child-put_self k merged c ∙ ap (λ o. whole (or_default o) d) vacant)
            ∙ whole_fresh d q m.0 w.0
            ∙ ap (λ o. shown (data_at (or_default o) q))
                (sym (get_child-cons_eq k k d dc (text_cmp_refl k))
                  ∙ ap (λ i. get_child i (cons k d dc)) (sym here))
        | inr other ↦
            whole_children_fresh c' dc j q (get_child-put_ne j k (get_child k c) merged c other ∙ e)
              m.2 w.1
            ∙ ap (λ o. shown (data_at (or_default o) q))
                (sym (get_child-cons_ne j k d dc other m.1))
      ]

-- What a zone without data holds after it has merged a tree: the tree's data, in its own tree or in
-- what it delegates in turn.
pub fresh_takes_over :
    (t : NodeTree) (q : TreePath)
    → IsMap t.node
    → IsWritten t.node
    → let m = tree_merge default_tree t in
      (shown (data_at t.node q) ≡ data_at m.tree.node q)
      ⊎ Held m.externals q (shown (data_at t.node q))
fresh_takes_over t q m w =
    let merged = tree_merge default_tree t in
    subst (λ x. (x ≡ data_at merged.tree.node q) ⊎ Held merged.externals q x)
      (whole_fresh t.node q m w) (tree_merge_keeps default_tree t q tt m)
