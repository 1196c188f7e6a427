-- ===== src/Node/Merge/View.antt =====
-- What a merge decides at each path of a tree, and the trees that a theorem speaks of.
use Prim.Native.Nat.Ordering.{lt}
use qumulus.Base.{ℕ, false, ◌≡◌, ◌⊎◌, true, [], ◌∷◌, max}
use qumulus.Node.{
  Node, node, Keys, no_keys, some_keys, Children, nil, cons, vis_of, value_of, keys_of, children_of,
  get_child,
}
use qumulus.Node.Merge.{is_odd, or_default}
use qumulus.Text.{Text, text_cmp}
use qumulus.TreePath.{TreePath}
use qumulus.Value.{Value, value_eq}

-- The child under a key; an absent one is the default node.
abbrev pub child : Text → Node → Node
child k n = or_default (get_child k (children_of (keys_of n)))

-- The time of the last write at a path.
abbrev pub updated_at : Node → TreePath → ℕ
updated_at n [] = (vis_of n).updated
updated_at n (k ∷ p) = updated_at (child k n) p

-- The time of the last delete at a path or above it.
abbrev pub deleted_along : Node → TreePath → ℕ
deleted_along n [] = (vis_of n).deleted
deleted_along n (k ∷ p) = max (vis_of n).deleted (deleted_along (child k n) p)

abbrev pub value_at : Node → TreePath → Value
value_at n [] = value_of n
value_at n (k ∷ p) = value_at (child k n) p

-- No node is delegated: all delegation times are even.
abbrev mutual
  pub IsLocal : Node → Type 0
  IsLocal (node v val ks g) = (is_odd g ≡ false) × LocalKeys ks

  pub LocalKeys : Keys → Type 0
  LocalKeys no_keys = Unit
  LocalKeys (some_keys c) = LocalChildren c

  pub LocalChildren : Children → Type 0
  LocalChildren nil = Unit
  LocalChildren (cons k n c) = IsLocal n × LocalChildren c

-- Every key of the children comes after `k`.
abbrev pub Above : Text → Children → Type 0
Above k nil = Unit
Above k (cons j n c) = (text_cmp k j ≡ lt) × Above k c

-- The children are maps at every level: their keys ascend.
abbrev mutual
  pub IsMap : Node → Type 0
  IsMap (node v val ks g) = MapKeys ks

  pub MapKeys : Keys → Type 0
  MapKeys no_keys = Unit
  MapKeys (some_keys c) = MapChildren c

  pub MapChildren : Children → Type 0
  MapChildren nil = Unit
  MapChildren (cons k n c) = IsMap n × Above k c × MapChildren c

-- Equal as the program compares values.
abbrev pub Same : Value → Value → Type 0
Same a b = (a ≡ b) ⊎ (value_eq a b ≡ true)
