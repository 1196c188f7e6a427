-- ===== src/Node/Merge/Below.antt =====
-- One child under the merge of src/node.rs: what its part of the reference has stays in reach.
use Prim.Native.Nat.Ordering.{lt}
use qumulus.Base.{ℕ, ◌≡◌, refl, sym, ap, subst, ◌∙◌, ◌⊎◌, inl, inr, List, [], ◌∷◌, ◌++◌}
use mathlib.Core.List.{append_assoc}
use qumulus.Node.{Node, node, Keys, Children, nil, cons, get_child}
use qumulus.Node.Merge.{
  External, Settled, settle_delegation, merge, merge_children, or_default, put_child,
}
use qumulus.Node.Merge.Entries.{get_child-put_self, get_child-put_ne}
use qumulus.Node.Merge.Settle.{newer}
use qumulus.Node.Merge.View.{Above}
use qumulus.Node.Merge.Whole.{whole, whole_children}
use qumulus.Text.{Text}
use qumulus.Text.Order.{ne_of_text_cmp}
use qumulus.TreePath.{TreePath}
use qumulus.Update
use qumulus.Update.{Update}
use qumulus.Vis.{Vis}
use qumulus.Node.Merge.Held.{
  data_at, Held, Held-last, moved, settle_delegation-cases, settle_delegation-Held,
  merge_children-Held,
}

-- What the reference has at a path below the stack is in the node, or in an external.
abbrev pub Found : TreePath → Node → List External → TreePath → Node → Type 0
Found stack n ex q w = (data_at w q ≡ data_at n q) ⊎ Held ex (stack ++ q) (data_at w q)

module _ (stack : TreePath) (s : Settled) (ks : Keys) (g : ℕ) (dks : Keys) (dg : ℕ) (vis_new : Vis)
    (u : Update) (ex : List External) where
  pub settle_delegation-Found :
      (q : TreePath) (w : Node)
      → Found stack (node s.vis s.value ks (newer g dg)) ex q w
      → Found stack
          (settle_delegation stack s ks g dks dg vis_new u ex).node
          (settle_delegation stack s ks g dks dg vis_new u ex).externals
          q
          w
  settle_delegation-Found q w (inr h) =
      inr (settle_delegation-Held stack s ks g dks dg vis_new u ex (stack ++ q) (data_at w q) h)
  settle_delegation-Found q w (inl e) =
      elim (settle_delegation-cases stack s ks g dks dg vis_new u ex) [
        | inl kept ↦ inl (rw kept.0 e)
        | inr out ↦ inr (rw (out.0, e) (Held-last ex (moved stack s ks g dg vis_new) q))
      ]

-- The same for the children: under a key, at a path below it.
abbrev pub Below : TreePath → Children → List External → Text → TreePath → Children → Type 0
Below stack c ex k q cw =
    let w = data_at (or_default (get_child k cw)) q in
    (w ≡ data_at (or_default (get_child k c)) q) ⊎ Held ex (stack ++ k ∷ q) w

-- The loop over the diff's children leaves the entries under smaller keys alone.
merge_children-untouched :
    (stack : TreePath) (c dc : Children) (vo vn : Vis) (u : Update) (ex : List External) (k : Text)
    → Above k dc
    → get_child k (merge_children stack c dc vo vn u ex).children ≡ get_child k c
unfolding merge_children
merge_children-untouched stack c nil vo vn u ex k a = refl
merge_children-untouched stack c (cons j d dc) vo vn u ex k a =
    let entry = get_child j c in
    let m = merge (stack ++ j ∷ []) (or_default entry) d vo vn ex in
    merge_children-untouched stack (put_child j entry m.node c) dc vo vn
      (Update.add_child u j m.update) m.externals k a.1
    ∙ get_child-put_ne k j entry m.node c (ne_of_text_cmp k j lt a.0 (λ e. cc))

pub whole_children-untouched :
    (c dc : Children) (k : Text) → Above k dc → get_child k (whole_children c dc) ≡ get_child k c
unfolding whole_children
whole_children-untouched c nil k a = refl
whole_children-untouched c (cons j d dc) k a =
    let entry = get_child j c in
    whole_children-untouched (put_child j entry (whole (or_default entry) d) c) dc k a.1
    ∙ get_child-put_ne k j entry (whole (or_default entry) d) c
        (ne_of_text_cmp k j lt a.0 (λ e. cc))

-- The child that the loop merges first stays as it was merged.
module _ (stack : TreePath) (c cw dc : Children) (d : Node) (vo vn : Vis) (u : Update)
    (ex : List External) (k : Text) (q : TreePath) (same : get_child k c ≡ get_child k cw)
    (above : Above k dc) where
  first_merged :
      or_default (get_child k (merge_children stack c (cons k d dc) vo vn u ex).children)
      ≡ (merge (stack ++ k ∷ []) (or_default (get_child k c)) d vo vn ex).node
  unfolding merge_children
  first_merged =
      let m = merge (stack ++ k ∷ []) (or_default (get_child k c)) d vo vn ex in
      ap or_default (
        merge_children-untouched stack (put_child k (get_child k c) m.node c) dc vo vn
          (Update.add_child u k m.update) m.externals k above)
      ∙ get_child-put_self k m.node c

  first_whole :
      or_default (get_child k (whole_children cw (cons k d dc)))
      ≡ whole (or_default (get_child k c)) d
  unfolding whole_children
  first_whole =
      ap or_default (
        whole_children-untouched
          (put_child k (get_child k cw) (whole (or_default (get_child k cw)) d) cw) dc k above)
      ∙ get_child-put_self k (whole (or_default (get_child k cw)) d) cw
      ∙ ap (λ o. whole (or_default o) d) (sym same)

  pub first-Below :
      (let m = merge (stack ++ k ∷ []) (or_default (get_child k c)) d vo vn ex in
        Found (stack ++ k ∷ []) m.node m.externals q (whole (or_default (get_child k c)) d))
      → let r = merge_children stack c (cons k d dc) vo vn u ex in
        Below stack r.children r.externals k q (whole_children cw (cons k d dc))
  unfolding merge_children
  first-Below found =
      let m = merge (stack ++ k ∷ []) (or_default (get_child k c)) d vo vn ex in
      let r = merge_children stack c (cons k d dc) vo vn u ex in
      elim found [
        | inl f ↦
            inl (ap (λ x. data_at x q) first_whole ∙ f ∙ ap (λ x. data_at x q) (sym first_merged))
        | inr held ↦ inr (
            subst (λ x. Held r.externals (stack ++ k ∷ q) (data_at x q)) (sym first_whole)
              (subst
                (λ path. Held r.externals path (data_at (whole (or_default (get_child k c)) d) q))
                (append_assoc stack (k ∷ []) q)
                (merge_children-Held stack (put_child k (get_child k c) m.node c) dc vo vn
                  (Update.add_child u k m.update) m.externals _ _ held)))
      ]
