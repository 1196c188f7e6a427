-- ===== src/Delegate.antt =====
-- src/delegate.rs: which children of a large node become zones of their own.
pub mod Bounded
pub mod Whole
use Prim.Native.Nat.{Ordering}
use qumulus.Base.{
  ℕ, ◌+◌, ◌-◌, Bool, true, false, ◌&&◌, ◌||◌, Option, none, some, List, [], ◌∷◌, ◌++◌, ltb, ◌==◌,
  if◌then◌else◌, length,
}
use qumulus.Node
use qumulus.Node.{Node, node, Keys, no_keys, some_keys, Children, nil, cons, value_size}
use qumulus.Text.{Text, text_cmp}
use qumulus.TreePath.{TreePath}

-- The ordering of the pairs in the `BinaryHeap`: by size, then by key.
abbrev larger : ℕ × Text → ℕ × Text → Bool
larger (m, j) (n, k) = ltb n m || (m == n && elim (text_cmp j k) [ Ordering.gt ↦ true | _ ↦ false ])

-- The heap as a list with the largest pair first.
unfoldable pub heap_push : ℕ × Text → List (ℕ × Text) → List (ℕ × Text)
heap_push x [] = x ∷ []
heap_push x (y ∷ heap) = if larger y x then y ∷ heap_push x heap else x ∷ y ∷ heap

-- The children seen so far: their delegations, the size of all, and the heap of the large ones.
pub record Checking : Type 0 where
  pub delegate_node : Node
  pub total_size : ℕ
  pub largest_children : List (ℕ × Text)

abbrev pub add_some : Node → Text → Option Node → Node
add_some n k none = n
add_some n k (some child) = Node.add_child n k child

-- `time::precise_time_ns()` at the moment that the child at a path is delegated.
module _ (stamp : TreePath → ℕ) where
  -- The `while` loop: delegates the largest children until the rest is small enough.
  unfoldable pub shrink : TreePath → Node → ℕ → List (ℕ × Text) → ℕ × Node
  unfolding Node.add_child Node.delegate
  shrink path n total [] = (total, n)
  shrink path n total ((size, k) ∷ heap) =
      let rest =
        shrink path (Node.add_child n k (Node.delegate (stamp (path ++ k ∷ [])))) (total - size)
          heap in
      if ltb 65535 total then rest else (total, n)

  abbrev pub unless_noop : ℕ × Node → ℕ × Option Node
  unless_noop (total, n) = (total, if Node.is_noop n then none else some n)

  unfoldable mutual
    unfolding heap_push shrink Node.add_child Node.is_noop

    pub check_node : TreePath → Node → ℕ × Option Node
    check_node path (node v val ks g) =
        let own = value_size val in
        let seen = check_keys path ks own in
        if ltb 32768 own
        then (own, none)
        else unless_noop (shrink path seen.delegate_node seen.total_size seen.largest_children)

    pub check_keys : TreePath → Keys → ℕ → Checking
    check_keys path no_keys own = record {
      delegate_node = Node.default;
      total_size = own;
      largest_children = [];
    }
    check_keys path (some_keys c) own =
        check_children path c
          (record { delegate_node = Node.default; total_size = own; largest_children = [] })

    pub check_children : TreePath → Children → Checking → Checking
    check_children path nil s = s
    check_children path (cons k n c) s =
        let (size, delegations) = check_node (path ++ k ∷ []) n in
        let child_size = size + length k in
        check_children path c (record {
          delegate_node = add_some s.delegate_node k delegations;
          total_size = s.total_size + child_size;
          largest_children =
              if ltb 1024 child_size
              then heap_push (child_size, k) s.largest_children
              else s.largest_children;
        })

  unfoldable pub delegate : Node → Option Node
  unfolding check_node
  delegate n = (check_node [] n).1
