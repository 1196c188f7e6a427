-- ===== src/Node/Merge/DiffShape.antt =====
-- The diff that src/node.rs `merge` cuts down keeps its shape: its keys, and no delegations.
use qumulus.Base.{ℕ, false, ◌≡◌, ◌&&◌, ltb, if◌then◌else◌, List, [], ◌∷◌, ◌++◌, arith}
use qumulus.Node.{Node, node, Keys, no_keys, some_keys, Children, nil, cons, children_of, get_child}
use qumulus.Node.Merge.{External, merge, merge_keys, merge_children, or_default, put_child, is_odd}
use qumulus.Node.Merge.Settle.{settle_delegation-diff}
use qumulus.Node.Merge.View.{IsLocal, LocalKeys, LocalChildren, IsMap, MapKeys, MapChildren, Above}
use qumulus.Text.{Text}
use qumulus.TreePath.{TreePath}
use qumulus.Update
use qumulus.Update.{Update}
use qumulus.Vis.{Vis}

even_taken :
    (g dg : ℕ) → is_odd dg ≡ false → is_odd (if ltb 0 dg && ltb g dg then dg else 0) ≡ false
even_taken g dg h = ground arith

mutual
  unfolding merge

  pub merge_diff-IsLocal :
      (stack : TreePath) (n d : Node) (vo vn : Vis) (ex : List External)
      → IsLocal d
      → IsLocal (merge stack n d vo vn ex).diff
  merge_diff-IsLocal stack (node v val ks g) (node dv dval dks dg) vo vn ex e =
      rw settle_delegation-diff (even_taken g dg e.0, merge_keys_diff-Local stack _ dks _ _ _ _ e.1)

  merge_keys_diff-Local :
      (stack : TreePath) (ks dks : Keys) (vo vn : Vis) (u : Update) (ex : List External)
      → LocalKeys dks
      → LocalKeys (merge_keys stack ks dks vo vn u ex).diff_keys
  merge_keys_diff-Local stack ks no_keys vo vn u ex e = e
  merge_keys_diff-Local stack ks (some_keys dc) vo vn u ex e =
      merge_children_diff-Local stack (children_of ks) dc vo vn u ex e

  merge_children_diff-Local :
      (stack : TreePath) (c dc : Children) (vo vn : Vis) (u : Update) (ex : List External)
      → LocalChildren dc
      → LocalChildren (merge_children stack c dc vo vn u ex).diff_children
  merge_children_diff-Local stack c nil vo vn u ex e = e
  merge_children_diff-Local stack c (cons j d dc) vo vn u ex e =
      let entry = get_child j c in
      let m = merge (stack ++ j ∷ []) (or_default entry) d vo vn ex in
      (
        merge_diff-IsLocal (stack ++ j ∷ []) (or_default (get_child j c)) d vo vn ex e.0,
        merge_children_diff-Local stack (put_child j entry m.node c) dc vo vn
            (Update.add_child u j m.update) m.externals e.1,
      )

merge_children_diff-Above :
    (stack : TreePath) (c dc : Children) (vo vn : Vis) (u : Update) (ex : List External) (k : Text)
    → Above k dc
    → Above k (merge_children stack c dc vo vn u ex).diff_children
unfolding merge
merge_children_diff-Above stack c nil vo vn u ex k h = h
merge_children_diff-Above stack c (cons j d dc) vo vn u ex k h =
    let entry = get_child j c in
    let m = merge (stack ++ j ∷ []) (or_default entry) d vo vn ex in
    let rest =
      merge_children_diff-Above stack (put_child j entry m.node c) dc vo vn
        (Update.add_child u j m.update) m.externals k h.1 in
    (h.0, rest)

mutual
  unfolding merge

  pub merge_diff-IsMap :
      (stack : TreePath) (n d : Node) (vo vn : Vis) (ex : List External)
      → IsMap d
      → IsMap (merge stack n d vo vn ex).diff
  merge_diff-IsMap stack (node v val ks g) (node dv dval dks dg) vo vn ex m =
      rw settle_delegation-diff (merge_keys_diff-MapKeys stack _ dks _ _ _ _ m)

  merge_keys_diff-MapKeys :
      (stack : TreePath) (ks dks : Keys) (vo vn : Vis) (u : Update) (ex : List External)
      → MapKeys dks
      → MapKeys (merge_keys stack ks dks vo vn u ex).diff_keys
  merge_keys_diff-MapKeys stack ks no_keys vo vn u ex m = m
  merge_keys_diff-MapKeys stack ks (some_keys dc) vo vn u ex m =
      merge_children_diff-MapChildren stack (children_of ks) dc vo vn u ex m

  merge_children_diff-MapChildren :
      (stack : TreePath) (c dc : Children) (vo vn : Vis) (u : Update) (ex : List External)
      → MapChildren dc
      → MapChildren (merge_children stack c dc vo vn u ex).diff_children
  merge_children_diff-MapChildren stack c nil vo vn u ex m = m
  merge_children_diff-MapChildren stack c (cons j d dc) vo vn u ex m =
      let entry = get_child j c in
      let r = merge (stack ++ j ∷ []) (or_default entry) d vo vn ex in
      let c' = put_child j entry r.node c in
      let u' = Update.add_child u j r.update in
      (
        merge_diff-IsMap (stack ++ j ∷ []) (or_default (get_child j c)) d vo vn ex m.0,
        merge_children_diff-Above stack c' dc vo vn u' r.externals j m.1,
        merge_children_diff-MapChildren stack c' dc vo vn u' r.externals m.2,
      )
