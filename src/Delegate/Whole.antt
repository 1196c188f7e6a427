-- ===== src/Delegate/Whole.antt =====
-- What it means that src/delegate.rs proposes no delegation: the node was measured whole.
use qumulus.Base.{
  ℕ, ◌+◌, ◌-◌, ◌≤◌, ◌<◌, ◌≡◌, refl, ◌⊎◌, inl, inr, true, none, some, Option, List, [], ◌∷◌, ◌++◌,
  length, arith, if◌then◌else◌, subst, ap, ◌∙◌,
}
use qumulus.Delegate.{
  Checking, shrink, check_node, check_keys, check_children, delegate, unless_noop, add_some,
}
use qumulus.Delegate.Bounded.{
  IsSplit, add_child-IsSplit, shrink_keeps-IsSplit, IsSplit-not_noop, small_value, start,
  with_child, check_node_fits,
}
use qumulus.Node
use qumulus.Node.{
  Node, node, Keys, no_keys, some_keys, Children, nil, cons, children_of, keys_of, value_of,
  value_size, total_byte_size, keys_size, children_size, get_child, is_noop,
}
use qumulus.Node.Merge.{or_default}
use qumulus.Node.Merge.Entries.{get_child-all}
use qumulus.Text.{Text}
use qumulus.TreePath.{TreePath}

-- No value in the tree is above 32 KiB.
unfoldable mutual
  pub SmallValues : Node → Type 0
  SmallValues (node v val ks g) = (value_size val ≤ 32768) × SmallKeys ks

  pub SmallKeys : Keys → Type 0
  SmallKeys no_keys = Unit
  SmallKeys (some_keys c) = SmallChildren c

  pub SmallChildren : Children → Type 0
  SmallChildren nil = Unit
  SmallChildren (cons k n c) = SmallValues n × SmallChildren c

-- The size at which each child was measured is its own.
abbrev pub EntriesWhole : (TreePath → ℕ) → TreePath → Children → Type 0
EntriesWhole stamp path c =
    (k : Text) (m : Node)
    → get_child k c ≡ some m
    → (check_node stamp (path ++ k ∷ []) m).0 ≡ total_byte_size m

module _ (stamp : TreePath → ℕ) where
  -- The loop that leaves no diff has not run.
  shrink_noop :
      (path : TreePath) (d : Node) (total : ℕ) (heap : List (ℕ × Text))
      → is_noop (shrink stamp path d total heap).1 ≡ true
      → shrink stamp path d total heap ≡ (total, d)
  unfolding shrink
  shrink_noop path d total [] h = refl
  shrink_noop path d total ((size, k) ∷ heap) h = ground (
    arith,
    IsSplit-not_noop stamp path k
        (shrink stamp path (Node.add_child d k (Node.delegate (stamp (path ++ k ∷ []))))
          (total - size) heap).1,
    shrink_keeps-IsSplit stamp path k (Node.add_child d k (Node.delegate (stamp (path ++ k ∷ []))))
        (total - size) heap,
    add_child-IsSplit stamp path k d,
  )

  add_some_noop :
      (d : Node) (k : Text) (o : Option Node)
      → is_noop (add_some d k o) ≡ true
      → (o ≡ none) × (is_noop d ≡ true)
  unfolding is_noop Node.add_child
  add_some_noop d k none h = (refl, h)
  add_some_noop (node v val ks g) k (some n) h = ground arith

  unless_noop-none : (r : ℕ × Node) → (unless_noop stamp r).1 ≡ none → is_noop r.1 ≡ true
  unless_noop-none r h = ground arith

  small_root : (n : Node) → SmallValues n → value_size (value_of n) ≤ 32768
  unfolding SmallValues
  small_root (node v val ks g) h = h.0

  small_child :
      (n : Node) (k : Text) (m : Node)
      → (check_node stamp [] n).1 ≡ none
      → (check_node stamp (k ∷ []) m).0 ≡ total_byte_size m
      → (1024 < (check_node stamp (k ∷ []) m).0 + length k
          → IsSplit stamp [] k (or_default (check_node stamp [] n).1))
      → total_byte_size m + length k ≤ 1024
  unfolding get_child
  small_child n k m h whole split = ground arith

  mutual
    unfolding SmallValues SmallKeys SmallChildren check_node check_keys check_children shrink
        total_byte_size keys_size children_size get_child

    check_node_whole :
        (path : TreePath) (n : Node)
        → SmallValues n
        → (check_node stamp path n).1 ≡ none
        → ((check_node stamp path n).0 ≡ total_byte_size n)
          × EntriesWhole stamp path (children_of (keys_of n))
    check_node_whole path (node v val no_keys g) small h = (ground arith, λ k m e. cc)
    check_node_whole path (node v val (some_keys c) g) small h =
        let s = check_children stamp path c (start val) in
        let r = shrink stamp path s.delegate_node s.total_size s.largest_children in
        let none_left =
          subst (λ b. (if b then (value_size val, none) else unless_noop stamp r).1 ≡ none)
            (small_value val small.0) h in
        let noop = unless_noop-none r none_left in
        let untouched = shrink_noop path s.delegate_node s.total_size s.largest_children noop in
        let rest =
          check_children_whole path c (start val) small.1
            (subst (λ x. is_noop x.1 ≡ true) untouched noop) in
        (rw (small_value val small.0) (ap (λ x. x.0) untouched ∙ rest.1), rest.2)

    check_children_whole :
        (path : TreePath) (c : Children) (s : Checking)
        → SmallChildren c
        → is_noop (check_children stamp path c s).delegate_node ≡ true
        → (is_noop s.delegate_node ≡ true)
          × ((check_children stamp path c s).total_size ≡ s.total_size + children_size c)
          × EntriesWhole stamp path c
    check_children_whole path nil s small h = (h, omega arith, λ k m e. cc)
    check_children_whole path (cons j n c) s small h =
        let rest = check_children_whole path c (with_child stamp path j n s) small.1 h in
        let undelegated =
          add_some_noop s.delegate_node j (check_node stamp (path ++ j ∷ []) n).1 rest.0 in
        let first = (check_node_whole (path ++ j ∷ []) n small.0 undelegated.0).0 in
        (
          undelegated.1,
          omega arith,
          λ k m e.
              get_child-all (λ i l. (check_node stamp (path ++ i ∷ []) l).0 ≡ total_byte_size l) k j
                n m c e first (rest.2 k m),
        )

  -- A node without a value above 32 KiB from which nothing is delegated has at most 64 KiB with all
  -- that is below it, or each of its children has, with its key, at most 1 KiB.
  pub delegate-none_fits :
      (n : Node)
      → SmallValues n
      → delegate stamp n ≡ none
      → (total_byte_size n ≤ 65535)
        ⊎ ((k : Text) (m : Node)
            → get_child k (children_of (keys_of n)) ≡ some m
            → total_byte_size m + length k ≤ 1024)
  unfolding delegate
  delegate-none_fits n small h =
      let whole = check_node_whole [] n small h in
      elim (check_node_fits stamp [] n (small_root n small)) [
        | inl fits ↦ inl (omega arith)
        | inr split ↦ inr (λ k m e. small_child n k m h (whole.1 k m e) (split k m e))
      ]
