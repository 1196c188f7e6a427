-- ===== src/Node/Read/Converged.antt =====
-- What clients read from replicas that have merged the same diffs.
use mathlib.Core.List.{Perm}
use qumulus.Base.{
  ◌≡◌, refl, sym, ◌∙◌, ap, Bool, true, false, none, some, is_some, List, [], ◌∷◌, ◌&&◌,
  if◌then◌else◌,
}
use qumulus.Node.{Node, NodeTree}
use qumulus.Node.Merge.{merge}
use qumulus.Node.Merge.Replicas.{
  AllPlain, effective, merge_all, merge_all-IsLocal, merge_all_converges,
}
use qumulus.Node.Merge.Sorted.{merge_keeps-IsMap}
use qumulus.Node.Merge.View.{IsLocal, IsMap, value_at}
use qumulus.Node.Read.{tree_read}
use qumulus.Node.Read.Exact.{found}
use qumulus.Node.Read.Matched.{read_matches}
use qumulus.TreePath.{TreePath}
use qumulus.TreePath.Delegation.{matches}
use qumulus.Vis.{Vis, is_visible}

merge_all-IsMap : (vo vn : Vis) (n : Node) (ds : List Node) → IsMap n → IsMap (merge_all vo vn n ds)
unfolding merge_all
merge_all-IsMap vo vn n [] h = h
merge_all-IsMap vo vn n (d ∷ ds) h =
    merge_all-IsMap vo vn (merge [] n d vo vn []).node ds (merge_keeps-IsMap [] n d vo vn [] h)

is_some-if : {A : Type 0} (b : Bool) (a : A) → is_some (if b then some a else none) ≡ b
is_some-if true a = refl
is_some-if false a = refl

read_shows :
    (v vo vn : Vis) (n : Node) (ds : List Node) (spec q : TreePath)
    → IsLocal n
    → IsMap n
    → AllPlain ds
    → is_some (found (tree_read (record { node = merge_all vo vn n ds; vis = v }) spec).0 q)
      ≡ (matches spec q && is_visible (effective v (merge_all vo vn n ds) q))
read_shows v vo vn n ds spec q l m a =
    let t : NodeTree = record { node = merge_all vo vn n ds; vis = v } in
    let local = merge_all-IsLocal vo vn n ds l a in
    let r = read_matches t spec q local (merge_all-IsMap vo vn n ds m) in
    ap is_some r.0
    ∙ is_some-if (matches spec q && is_visible (effective v t.node q)) (value_at t.node q)

-- From one tree, two replicas that have merged the same diffs in any orders answer a read, its
-- wildcards included, with values at the same paths. The tree and the diffs are maps without
-- delegations.
pub replicas_read_alike :
    (v vo vn vo' vn' : Vis) (n : Node) (ds es : List Node) (spec q : TreePath)
    → IsLocal n
    → IsMap n
    → AllPlain ds
    → AllPlain es
    → Perm ds es
    → is_some (found (tree_read (record { node = merge_all vo vn n ds; vis = v }) spec).0 q)
      ≡ is_some (found (tree_read (record { node = merge_all vo' vn' n es; vis = v }) spec).0 q)
replicas_read_alike v vo vn vo' vn' n ds es spec q l m a b p =
    read_shows v vo vn n ds spec q l m a
    ∙ ap (λ x. matches spec q && is_visible x)
        (merge_all_converges vo vn vo' vn' v n ds es q l a b p)
    ∙ sym (read_shows v vo' vn' n es spec q l m b)
