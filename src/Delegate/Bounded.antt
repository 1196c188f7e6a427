-- ===== src/Delegate/Bounded.antt =====
-- What `check_node` of src/delegate.rs leaves in a node: its size, and which children are split off.
use Prim.Native.Nat.Ordering.{lt, gt}
use qumulus.Base.{
  subst, ◌∙◌, ◌-◌, ℕ, ◌+◌, ◌≤◌, ◌<◌, ◌≡◌, ◌⊎◌, inl, inr, false, some, List, [], ◌∷◌, ◌++◌, length,
  if◌then◌else◌, arith, ltb,
}
use qumulus.Delegate.{
  Checking, heap_push, shrink, check_node, check_keys, check_children, unless_noop, add_some,
}
use qumulus.Node
use qumulus.Node.{
  Node, node, Keys, no_keys, some_keys, Children, nil, cons, children_of, keys_of, value_of,
  value_size, get_child, insert_child, is_noop,
}
use qumulus.Node.Merge.{or_default}
use qumulus.Node.Merge.Entries.{get_child-insert_self, get_child-insert_ne, get_child-all}
use qumulus.Text.{Text, text_cmp}
use qumulus.Text.Order.{eq_of_text_cmp, Ordering-cases, ne_of_text_cmp}
use qumulus.Value.{Value}
use qumulus.TreePath.{TreePath}

-- The state before the first child.
abbrev pub start : Value → Checking
start val = record {
  delegate_node = Node.default;
  total_size = value_size val;
  largest_children = [];
}

pub small_value : (val : Value) → value_size val ≤ 32768 → ltb 32768 (value_size val) ≡ false
small_value val h = ground arith

module _ (stamp : TreePath → ℕ) (path : TreePath) where
  -- A child of the diff that delegates.
  abbrev pub IsSplit : Text → Node → Type 0
  IsSplit k d =
      get_child k (children_of (keys_of d)) ≡ some (Node.delegate (stamp (path ++ k ∷ [])))

  abbrev pub AllSplit : List (ℕ × Text) → Node → Type 0
  AllSplit [] d = Unit
  AllSplit ((size, k) ∷ heap) d = IsSplit k d × AllSplit heap d

  pub add_child-IsSplit :
      (k : Text) (d : Node)
      → IsSplit k (Node.add_child d k (Node.delegate (stamp (path ++ k ∷ []))))
  unfolding Node.add_child
  add_child-IsSplit k (node v val ks g) =
      get_child-insert_self k (Node.delegate (stamp (path ++ k ∷ []))) (children_of ks)

  add_child_keeps-IsSplit :
      (j k : Text) (d : Node)
      → IsSplit k d
      → IsSplit k (Node.add_child d j (Node.delegate (stamp (path ++ j ∷ []))))
  unfolding Node.add_child
  add_child_keeps-IsSplit j k (node v val ks g) h = elim (Ordering-cases (text_cmp k j)) [
    | inr (inl e) ↦
        subst
          (λ i.
            get_child k (insert_child i (Node.delegate (stamp (path ++ i ∷ []))) (children_of ks))
            ≡ some (Node.delegate (stamp (path ++ k ∷ []))))
          (eq_of_text_cmp k j e)
          (get_child-insert_self k (Node.delegate (stamp (path ++ k ∷ []))) (children_of ks))
    | inl e ↦
        get_child-insert_ne k j (Node.delegate (stamp (path ++ j ∷ []))) (children_of ks)
          (ne_of_text_cmp k j lt e (λ x. cc))
        ∙ h
    | inr (inr e) ↦
        get_child-insert_ne k j (Node.delegate (stamp (path ++ j ∷ []))) (children_of ks)
          (ne_of_text_cmp k j gt e (λ x. cc))
        ∙ h
  ]

  pub shrink_keeps-IsSplit :
      (k : Text) (d : Node) (total : ℕ) (heap : List (ℕ × Text))
      → IsSplit k d
      → IsSplit k (shrink stamp path d total heap).1
  unfolding shrink
  shrink_keeps-IsSplit k d total [] h = h
  shrink_keeps-IsSplit k d total ((size, j) ∷ heap) h = ground (
    arith,
    shrink_keeps-IsSplit k (Node.add_child d j (Node.delegate (stamp (path ++ j ∷ []))))
        (total - size) heap,
    add_child_keeps-IsSplit j k d,
  )

  -- The loop ends below the bound, or has split off all of the heap.
  shrink_fits :
      (d : Node) (total : ℕ) (heap : List (ℕ × Text))
      → ((shrink stamp path d total heap).0 ≤ 65535)
        ⊎ AllSplit heap (shrink stamp path d total heap).1
  unfolding shrink
  shrink_fits d total [] = inr tt
  shrink_fits d total ((size, k) ∷ heap) = ground (
    arith,
    shrink_keeps-IsSplit k (Node.add_child d k (Node.delegate (stamp (path ++ k ∷ []))))
        (total - size) heap,
    add_child-IsSplit k d,
    shrink_fits (Node.add_child d k (Node.delegate (stamp (path ++ k ∷ [])))) (total - size) heap,
  )

  heap_push-AllSplit :
      (x : ℕ × Text) (heap : List (ℕ × Text)) (d : Node)
      → AllSplit (heap_push x heap) d
      → AllSplit (x ∷ heap) d
  unfolding heap_push
  heap_push-AllSplit x [] d h = h
  heap_push-AllSplit x (y ∷ heap) d h = ground (arith, heap_push-AllSplit x heap d)

  pub IsSplit-not_noop : (k : Text) (d : Node) → IsSplit k d → is_noop d ≡ false
  unfolding is_noop get_child
  IsSplit-not_noop k (node v val no_keys g) h = cc
  IsSplit-not_noop k (node v val (some_keys c) g) h = ground arith

  -- The state of the loop over the children after one of them.
  abbrev pub with_child : Text → Node → Checking → Checking
  with_child k n s =
      let r = check_node stamp (path ++ k ∷ []) n in
      record {
        delegate_node = add_some s.delegate_node k r.1;
        total_size = s.total_size + (r.0 + length k);
        largest_children =
            if ltb 1024 (r.0 + length k)
            then heap_push (r.0 + length k, k) s.largest_children
            else s.largest_children;
      }

  with_child-AllSplit :
      (k : Text) (n : Node) (s : Checking) (d : Node)
      → AllSplit (with_child k n s).largest_children d
      → AllSplit s.largest_children d
        × (1024 < (check_node stamp (path ++ k ∷ []) n).0 + length k → IsSplit k d)
  with_child-AllSplit k n s d h = ground (
    arith,
    heap_push-AllSplit ((check_node stamp (path ++ k ∷ []) n).0 + length k, k) s.largest_children d,
  )

  check_children-AllSplit :
      (c : Children) (s : Checking) (d : Node)
      → AllSplit (check_children stamp path c s).largest_children d
      → AllSplit s.largest_children d
        × ((k : Text) (m : Node)
            → get_child k c ≡ some m
            → 1024 < (check_node stamp (path ++ k ∷ []) m).0 + length k
            → IsSplit k d)
  unfolding check_children get_child
  check_children-AllSplit nil s d h = (h, λ k m e. cc)
  check_children-AllSplit (cons j n c) s d h =
      let rest = check_children-AllSplit c (with_child j n s) d h in
      let first = with_child-AllSplit j n s d rest.0 in
      (
        first.0,
        λ k m e.
            get_child-all
              (λ i l. 1024 < (check_node stamp (path ++ i ∷ []) l).0 + length i → IsSplit i d) k j n
              m c e first.1 (rest.1 k m),
      )

  unless_noop-IsSplit :
      (k : Text) (r : ℕ × Node) → IsSplit k r.1 → IsSplit k (or_default (unless_noop stamp r).1)
  unless_noop-IsSplit k r h = rw (IsSplit-not_noop k r.1 h) h

  -- What is left of a node whose own value is at most 32 KiB is at most 64 KiB, or every child of
  -- which more than 1 KiB is left becomes a zone in the diff, at the time of the clock. The size of
  -- a child is what is left of it, with its key.
  pub check_node_fits :
      (n : Node)
      → value_size (value_of n) ≤ 32768
      → ((check_node stamp path n).0 ≤ 65535)
        ⊎ ((k : Text) (m : Node)
            → get_child k (children_of (keys_of n)) ≡ some m
            → 1024 < (check_node stamp (path ++ k ∷ []) m).0 + length k
            → IsSplit k (or_default (check_node stamp path n).1))
  unfolding check_node shrink check_keys
  check_node_fits (node v val no_keys g) small = inl (ground arith)
  check_node_fits (node v val (some_keys c) g) small =
      let s = check_children stamp path c (start val) in
      let r = shrink stamp path s.delegate_node s.total_size s.largest_children in
      rw (small_value val small)
        (elim (shrink_fits s.delegate_node s.total_size s.largest_children) [
          | inl fits ↦ inl fits
          | inr split ↦ inr (λ k m e large.
              unless_noop-IsSplit k r
                ((check_children-AllSplit c (start val) r.1 split).1 k m e large))
        ])
