-- ===== src/Node.antt =====
-- src/node.rs: `Node`, `NodeTree` and the operations on one node.
pub mod Expand
pub mod Steps
pub mod Merge
pub mod Read
use Prim.Native.Nat.{Ordering}
use qumulus.Base.{
  ℕ, zero, suc, ◌+◌, ◌*◌, ◌/◌, Bool, true, false, ◌&&◌, Option, none, some, List, [], ◌∷◌, ◌==◌,
  length,
}
use qumulus.Text.{Text, text_cmp}
use qumulus.TreePath.{TreePath}
use qumulus.Value.{Value, null, is_null}
use qumulus.Vis
use qumulus.Vis.{Vis}

-- `keys: Option<BTreeMap<String, Node>>` is `no_keys` or `some_keys`; the map is a list of
-- children with ascending keys.
mutual
  pub data Node : Type 0 where
    node : Vis → Value → Keys → ℕ → Node

  pub data Keys : Type 0 where
    no_keys : Keys
    some_keys : Children → Keys

  pub data Children : Type 0 where
    nil : Children
    cons : Text → Node → Children → Children

abbrev pub vis_of : Node → Vis
vis_of (node v val ks d) = v

abbrev pub value_of : Node → Value
value_of (node v val ks d) = val

abbrev pub keys_of : Node → Keys
keys_of (node v val ks d) = ks

abbrev pub delegated_of : Node → ℕ
delegated_of (node v val ks d) = d

-- The map of `Some(keys)`, or the empty map.
abbrev pub children_of : Keys → Children
children_of no_keys = nil
children_of (some_keys c) = c

pub record NodeTree : Type 0 where
  pub node : Node
  pub vis : Vis

abbrev pub default : Node
default = node Vis.default null no_keys 0

abbrev pub default_tree : NodeTree
default_tree = record { node = default; vis = Vis.default }

-- A recursive delete.
abbrev pub delete : ℕ → Node
delete timestamp = node (Vis.delete timestamp) null no_keys 0

-- `timestamp | 1`: an odd timestamp delegates.
unfoldable pub delegate : ℕ → Node
delegate timestamp = node Vis.default null no_keys (timestamp / 2 * 2 + 1)

-- `timestamp & !1`: an even timestamp takes the delegation back.
unfoldable pub undelegate : ℕ → Node
undelegate timestamp = node Vis.default null no_keys (timestamp / 2 * 2)

-- Moves out all data that should be external: what is left, and what is moved.
unfoldable pub delegated : Node → Node × Node
delegated (node v val ks d) = (node Vis.default null no_keys d, node v val ks d)

abbrev pub singleton : Text → Node → Keys
singleton k n = some_keys (cons k n nil)

-- The components are wrapped from the last to the first.
unfoldable pub prepend_path : Node → TreePath → Node
prepend_path self [] = self
prepend_path self (p ∷ path) = node Vis.default null (singleton p (prepend_path self path)) 0

abbrev pub is_no_keys : Keys → Bool
is_no_keys no_keys = true
is_no_keys (some_keys c) = false

-- Equality with the default node.
unfoldable pub is_noop : Node → Bool
unfolding Vis.is_noop
is_noop (node v val ks d) = Vis.is_noop v && is_null val && is_no_keys ks && d == 0

abbrev pub count_children : Children → ℕ
count_children nil = 0
count_children (cons k n c) = suc (count_children c)

-- `len`: the number of children.
unfoldable pub child_count : Node → ℕ
child_count (node v val ks d) = count_children (children_of ks)

-- `BTreeMap::get` and `BTreeMap::insert`: the keys ascend.
unfoldable pub get_child : Text → Children → Option Node
get_child k nil = none
get_child k (cons j n c) = elim (text_cmp k j) [
  | Ordering.lt ↦ none
  | Ordering.eq ↦ some n
  | Ordering.gt ↦ get_child k c
]

unfoldable pub insert_child : Text → Node → Children → Children
insert_child k m nil = cons k m nil
insert_child k m (cons j n c) = elim (text_cmp k j) [
  | Ordering.lt ↦ cons k m (cons j n c)
  | Ordering.eq ↦ cons j m c
  | Ordering.gt ↦ cons j n (insert_child k m c)
]

unfoldable pub value_size : Value → ℕ
value_size null = 1
value_size (Value.bool b) = 1
value_size (Value.i64 n) = 8
value_size (Value.u64 n) = 8
value_size (Value.f64 n) = 8
value_size (Value.string s) = length s

-- The estimated size of the node's own value.
abbrev pub byte_size : Node → ℕ
byte_size (node v val ks d) = value_size val

-- The estimated size of the node with its children and their keys.
unfoldable mutual
  pub total_byte_size : Node → ℕ
  total_byte_size (node v val ks d) = value_size val + keys_size ks

  pub keys_size : Keys → ℕ
  keys_size no_keys = 0
  keys_size (some_keys c) = children_size c

  pub children_size : Children → ℕ
  children_size nil = 0
  children_size (cons k n c) = length k + total_byte_size n + children_size c

unfoldable pub add_child : Node → Text → Node → Node
unfolding insert_child
add_child (node v val ks d) k child =
    node v val (some_keys (insert_child k child (children_of ks))) d

abbrev pub noop_vis : Node → NodeTree
noop_vis self = record { node = self; vis = Vis.default }
