-- ===== src/Node/Merge/Whole.antt =====
-- The merge of src/node.rs as it would be if delegated nodes kept their data: the reference for
-- what a merge must not lose when it moves data out to other zones.
use qumulus.Base.{
  ℕ, ◌≡◌, refl, ap, ◌∙◌, ◌&&◌, Option, none, some, List, [], ◌∷◌, ◌++◌, ltb, if◌then◌else◌, arith,
}
use qumulus.Node.{
  Node, node, Keys, no_keys, some_keys, Children, nil, cons, children_of, get_child, is_no_keys,
}
use qumulus.Node.Merge.{
  External, Settled, merge_flat, propagate_keys, propagate, own_change, settle_values,
  settle_delegation, or_default, put_child,
}
use qumulus.Node.Merge.Drained.{Emptied, IsDrained, KeysDrained, ChildrenDrained}
use qumulus.Node.Merge.Settle.{
  IsFlat, FlatOption, newer, settle_values-propagate, settle_delegation-diff,
}
use qumulus.Node.Merge.Flat.{merge_flat-IsFlat}
use qumulus.Text.{Text}
use qumulus.TreePath.{TreePath}
use qumulus.Update
use qumulus.Update.{Update}
use qumulus.Value.{Value}
use qumulus.Vis.{Vis, descend}

-- A diff without keys, passed on to the children. The second part is the diff that is left.
unfoldable mutual
  unfolding settle_values

  pub whole_flat : Node → Node → Node × Node
  whole_flat (node v val ks g) (node dv dval dks dg) =
      let s = settle_values v val dv dval in
      (
        node s.vis s.value (whole_flat_keys ks s.propagate) (newer g dg),
        node s.diff_vis s.diff_value no_keys (if ltb 0 dg && ltb g dg then dg else 0),
      )

  pub whole_flat_keys : Keys → Option Node → Keys
  whole_flat_keys no_keys p = no_keys
  whole_flat_keys (some_keys c) none = some_keys c
  whole_flat_keys (some_keys c) (some p) = some_keys (whole_flat_children c p)

  pub whole_flat_children : Children → Node → Children
  whole_flat_children nil p = nil
  whole_flat_children (cons k n c) p =
      let (merged, left) = whole_flat n p in cons k merged (whole_flat_children c left)

-- The whole merge, without updates, visibility and externals.
unfoldable mutual
  unfolding settle_values whole_flat get_child put_child

  pub whole : Node → Node → Node
  whole (node v val ks g) (node dv dval dks dg) =
      let s = settle_values v val dv dval in
      node s.vis s.value (whole_keys (whole_flat_keys ks s.propagate) dks) (newer g dg)

  pub whole_keys : Keys → Keys → Keys
  whole_keys ks no_keys = ks
  whole_keys ks (some_keys dc) = some_keys (whole_children (children_of ks) dc)

  pub whole_children : Children → Children → Children
  whole_children c nil = c
  whole_children c (cons k d dc) =
      let entry = get_child k c in
      whole_children (put_child k entry (whole (or_default entry) d) c) dc

-- Where delegated nodes hold no data, passing timestamps on moves none.
settle_delegation-flat :
    (stack : TreePath) (k : Text) (s : Settled) (ks' : Keys) (g : ℕ) (dks : Keys) (dg : ℕ)
    (vn : Vis) (u : Update) (ex : List External)
    → Emptied s.value ks' g
    → dg ≡ 0
    → ((settle_delegation (stack ++ k ∷ []) s ks' g dks dg vn u ex).node
        ≡ node s.vis s.value ks' (newer g dg))
      × ((settle_delegation (stack ++ k ∷ []) s ks' g dks dg vn u ex).externals ≡ ex)
unfolding settle_delegation
settle_delegation-flat stack k s ks' g dks dg vn u ex h e = (ground arith, ground arith)

is_no_keys-flat : (ks : Keys) (o : Option Node) → is_no_keys (whole_flat_keys ks o) ≡ is_no_keys ks
unfolding whole_flat_keys
is_no_keys-flat no_keys o = refl
is_no_keys-flat (some_keys c) none = refl
is_no_keys-flat (some_keys c) (some p) = refl

-- A flat diff has no value to write.
settle_values-Emptied :
    (v : Vis) (val : Value) (dv : Vis) (dval : Value) (ks ks' : Keys) (g : ℕ)
    → Emptied val ks g
    → dv.updated ≡ 0
    → is_no_keys ks' ≡ is_no_keys ks
    → Emptied (settle_values v val dv dval).value ks' g
unfolding settle_values
settle_values-Emptied v val dv dval ks ks' g h e k odd = ground (arith, h odd)

mutual
  unfolding merge_flat whole_flat

  merge_flat-whole_flat :
      (stack : TreePath) (k : Text) (n d : Node) (vo vn : Vis) (ex : List External) (b : ℕ)
      → IsDrained n
      → IsFlat b d
      → let r = merge_flat (stack ++ k ∷ []) n d vo vn ex in
        (r.node ≡ (whole_flat n d).0) × (r.diff ≡ (whole_flat n d).1) × (r.externals ≡ ex)
  merge_flat-whole_flat stack k (node v val ks g) (node dv dval dks dg) vo vn ex b h f =
      let s = settle_values v val dv dval in
      let path = stack ++ k ∷ [] in
      let u = own_change v val s vo vn in
      let rest =
        propagate_keys-whole path ks s.propagate (descend vo v) (descend vn s.vis) u ex b h.1
          (settle_values-propagate v val dv dval b f.1) in
      let emptied =
        settle_values-Emptied v val dv dval ks _ g h.0 f.0
          (ap is_no_keys rest.0 ∙ is_no_keys-flat ks s.propagate) in
      let settled = settle_delegation-flat stack k s _ g no_keys dg _ _ _ emptied f.2 in
      (
        settled.0 ∙ ap (λ x. node s.vis s.value x (newer g dg)) rest.0,
        settle_delegation-diff path s _ g no_keys dg _ _ _,
        settled.1 ∙ rest.1,
      )

  pub propagate_keys-whole :
      (stack : TreePath) (ks : Keys) (o : Option Node) (vo vn : Vis) (u : Update)
      (ex : List External) (b : ℕ)
      → KeysDrained ks
      → FlatOption b o
      → let r = propagate_keys stack ks o vo vn u ex in
        (r.keys ≡ whole_flat_keys ks o) × (r.externals ≡ ex)
  propagate_keys-whole stack no_keys o vo vn u ex b h f = (refl, refl)
  propagate_keys-whole stack (some_keys c) none vo vn u ex b h f = (refl, refl)
  propagate_keys-whole stack (some_keys c) (some p) vo vn u ex b h f =
      let rest = propagate-whole stack c p vo vn u ex b h f in (ap some_keys rest.0, rest.1)

  propagate-whole :
      (stack : TreePath) (c : Children) (p : Node) (vo vn : Vis) (u : Update) (ex : List External)
      (b : ℕ)
      → ChildrenDrained c
      → IsFlat b p
      → let r = propagate stack c p vo vn u ex in
        (r.children ≡ whole_flat_children c p) × (r.externals ≡ ex)
  propagate-whole stack nil p vo vn u ex b h f = (refl, refl)
  propagate-whole stack (cons k n c) p vo vn u ex b h f =
      let m = merge_flat (stack ++ k ∷ []) n p vo vn ex in
      let one = merge_flat-whole_flat stack k n p vo vn ex b h.0 f in
      let rest =
        propagate-whole stack c m.diff vo vn (Update.add_child u k m.update) m.externals b h.1
          (merge_flat-IsFlat (stack ++ k ∷ []) n p vo vn ex b f) in
      (cc (one.0, one.1, rest.0), rest.1 ∙ one.2)
