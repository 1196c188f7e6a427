-- ===== src/Node/Expand.antt =====
-- src/node.rs, `Node::expand` and `expand_from`: client data as nodes at one timestamp.
use qumulus.Base.{ℕ, zero, suc, ◌+◌, ◌/◌, ◌%◌, [], ◌∷◌, ltb, if◌then◌else◌}
use qumulus.Json
use qumulus.Json.{Json, Number, Items, Fields}
use qumulus.Node.{Node, node, no_keys, some_keys, Children, nil, insert_child, singleton}
use qumulus.Text.{Text}
use qumulus.TreePath.{TreePath}
use qumulus.Value.{Value}
use qumulus.Vis

-- `usize::to_string`: decimal digits. A number has at most as many digits as its value plus one.
digits_from : ℕ → ℕ → Text → Text
digits_from zero n acc = acc
digits_from (suc fuel) n acc =
    let more = digits_from fuel (n / 10) ((b'0' + n % 10) ∷ acc) in
    if ltb n 10 then (b'0' + n) ∷ acc else more

unfoldable pub to_string : ℕ → Text
unfolding digits_from
to_string n = digits_from (suc n) n []

-- serde_json's `Number::as_f64`, as a bit pattern; the source unwraps it.
module _ (as_f64 : Number → ℕ) where
  -- The children are collected into a map: a later key replaces an equal earlier one.
  unfoldable mutual
    unfolding insert_child to_string

    pub expand : Json → ℕ → Node
    expand Json.null t = node (Vis.update t) Value.null no_keys 0
    expand (Json.bool v) t = node (Vis.update t) (Value.bool v) no_keys 0
    expand (Json.number v) t = node (Vis.update t) (Value.f64 (as_f64 v)) no_keys 0
    expand (Json.string s) t = node (Vis.update t) (Value.string s) no_keys 0
    expand (Json.object obj) t =
        node (Vis.update t) Value.null (some_keys (expand_fields obj t nil)) 0
    expand (Json.array arr) t =
        node (Vis.update t) Value.null (some_keys (expand_items arr t 0 nil)) 0

    pub expand_items : Items → ℕ → ℕ → Children → Children
    expand_items Json.nil t k acc = acc
    expand_items (Json.cons v arr) t k acc =
        expand_items arr t (k + 1) (insert_child (to_string k) (expand v t) acc)

    pub expand_fields : Fields → ℕ → Children → Children
    expand_fields Json.end t acc = acc
    expand_fields (Json.field k v obj) t acc = expand_fields obj t (insert_child k (expand v t) acc)

  -- The data at the end of `path`, with empty nodes along it.
  unfoldable pub expand_from : TreePath → Json → ℕ → Node
  unfolding expand
  expand_from [] v t = expand v t
  expand_from (first ∷ rest) v t =
      node Vis.default Value.null (singleton first (expand_from rest v t)) 0
