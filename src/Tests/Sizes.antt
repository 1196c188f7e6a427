-- ===== src/Tests/Sizes.antt =====
-- Nodes of different sizes, and what is split off from them.
use qumulus.Base.{ℕ, zero, suc, ◌+◌, ◌≤◌, ◌<◌, ◌≡◌, refl, ◌⊎◌, some, [], ◌∷◌, length, arith}
use qumulus.Delegate.{check_node, delegate}
use qumulus.Delegate.Bounded.{IsSplit, check_node_fits}
use qumulus.Delegate.Whole.{SmallValues, delegate-none_fits}
use qumulus.Node
use qumulus.Node.{
  Node, node, Children, no_keys, some_keys, nil, cons, children_of, keys_of, total_byte_size,
  get_child, value_size, is_noop,
}
use qumulus.Node.Merge.{or_default}
use qumulus.Text.{Text, text_cmp}
use qumulus.TreePath.{TreePath}
use qumulus.Value.{null}
use qumulus.Value
use qumulus.Vis

abbrev long_text : ℕ → Text
long_text zero = []
long_text (suc n) = 97 ∷ long_text n

-- `count` children with a value of `size` bytes each, from the key `first` on.
abbrev children : ℕ → ℕ → ℕ → Children
children size first zero = nil
children size first (suc count) =
    cons (first ∷ []) (node Vis.default (Value.string (long_text size)) no_keys 0)
      (children size (first + 1) count)

abbrev root : Children → Node
root c = node Vis.default null (some_keys c) 0

abbrev now : TreePath → ℕ
now path = 8

-- Three children of 30,000 bytes: the last of them becomes a zone.
abbrev large : Node
large = root (children 30000 0 3)

large_is_split :
    check_node now [] large ≡ (60003, some (root (cons (2 ∷ []) (Node.delegate 8) nil)))
unfolding check_node value_size text_cmp
large_is_split = refl

check_node_fits_example :
    ((check_node now [] large).0 ≤ 65535)
    ⊎ ((k : Text) (m : Node)
        → get_child k (children_of (keys_of large)) ≡ some m
        → 1024 < (check_node now (k ∷ []) m).0 + length k
        → IsSplit now [] k (or_default (check_node now [] large).1))
unfolding value_size
check_node_fits_example = check_node_fits now [] large (omega arith)

abbrev small : Node
small = root (children 3 0 2)

delegate-none_fits_example :
    (total_byte_size small ≤ 65535)
    ⊎ ((k : Text) (m : Node)
        → get_child k (children_of (keys_of small)) ≡ some m
        → total_byte_size m + length k ≤ 1024)
unfolding delegate SmallValues value_size is_noop
delegate-none_fits_example =
    delegate-none_fits now small (omega arith, ((omega arith, tt), ((omega arith, tt), tt))) refl
