-- ===== src/Node/Read.antt =====
-- src/node.rs, the recursive `read`: the visible data that a match specification selects.
pub mod Exact
pub mod Locality
pub mod Replies
pub mod Matched
pub mod Converged
use qumulus.Base.{
  ℕ, suc, ◌%◌, Bool, true, false, not, ◌&&◌, ◌||◌, Option, none, some, List, [], ◌∷◌, ◌++◌, leb,
  ◌==◌, if◌then◌else◌, is_empty, length, drop,
}
use qumulus.Node.{Node, node, Keys, no_keys, some_keys, Children, nil, cons, NodeTree}
use qumulus.Text.{Text, text_eq}
use qumulus.TreePath.{TreePath, star, star_star, star_hash}
use qumulus.Update
use qumulus.Update.{Update, update, unless_noop}
use qumulus.Value.{Value}
use qumulus.Vis.{Vis, descend, is_visible}

-- A part of a read that another zone has to answer.
pub record DelegatedMatch : Type 0 where
  pub path : TreePath
  pub match_spec : TreePath

-- The update built so far, and the delegated matches.
pub record Reading : Type 0 where
  pub update : Update
  pub externals : List DelegatedMatch

-- `path.path[pos]`, if `pos < path.len()`.
abbrev pub first : TreePath → Option Text
first [] = none
first (p ∷ rest) = some p

abbrev pub part_at : TreePath → ℕ → Option Text
part_at path pos = first (drop pos path)

-- The last step: the node's own value, if it is asked for and visible.
unfoldable pub read_self : Bool → Vis → Value → Update → Update
unfolding is_visible
read_self asked v val (update c o n ks d) =
    if asked && is_visible v then update true o (some val) ks d else update c o n ks d

abbrev pub is_star_hash : Option Text → Bool
is_star_hash none = false
is_star_hash (some p) = text_eq p star_hash

-- `path.slice(pos)` is `drop`: `pos` is at most the path's length wherever `read` is called.
unfoldable mutual
  unfolding descend read_self Update.add_child text_eq

  pub read :
      TreePath
      → Node
      → Vis
      → TreePath
      → ℕ
      → List DelegatedMatch
      → Option Update × List DelegatedMatch
  read stack (node v val ks g) parent path pos externals =
      let own = descend parent v in
      let part = part_at path pos in
      let r = read_keys stack ks own path pos part externals in
      let asked = leb (length path) (length stack) || is_star_hash part in
      if not (is_empty stack) && g % 2 == 1
      then (
        some (update false none none Update.no_keys (some true)),
        externals ++ record { path = stack; match_spec = drop pos path } ∷ [],
      )
      else (unless_noop (read_self asked own val r.update), r.externals)

  pub read_keys : TreePath → Keys → Vis → TreePath → ℕ → Option Text → List DelegatedMatch → Reading
  read_keys stack no_keys v path pos part externals = record {
    update = Update.default;
    externals = externals;
  }
  read_keys stack (some_keys c) v path pos none externals = record {
    update = Update.default;
    externals = externals;
  }
  read_keys stack (some_keys c) v path pos (some part) externals =
      if text_eq part star
      then read_all stack c v path (suc pos) Update.default externals
      else if text_eq part star_star
      then read_all stack c v (star_hash ∷ []) 0 Update.default externals
      else if text_eq part star_hash
      then read_all stack c v path pos Update.default externals
      else read_one stack c v path (suc pos) part externals

  -- Every child, each with the same specification.
  pub read_all : TreePath → Children → Vis → TreePath → ℕ → Update → List DelegatedMatch → Reading
  read_all stack nil v path pos u externals = record { update = u; externals = externals }
  read_all stack (cons k n c) v path pos u externals =
      let (child, seen) = read (stack ++ k ∷ []) n v path pos externals in
      read_all stack c v path pos (Update.add_child u k child) seen

  -- The child under one key, if there is one.
  pub read_one : TreePath → Children → Vis → TreePath → ℕ → Text → List DelegatedMatch → Reading
  read_one stack nil v path pos part externals = record {
    update = Update.default;
    externals = externals;
  }
  read_one stack (cons k n c) v path pos part externals =
      let (child, seen) = read (stack ++ part ∷ []) n v path pos externals in
      let found : Reading = record {
        update = Update.add_child Update.default part child;
        externals = seen;
      } in
      if text_eq part k then found else read_one stack c v path pos part externals

-- `NodeTree::read` through `Node::read`.
unfoldable pub tree_read : NodeTree → TreePath → Option Update × List DelegatedMatch
unfolding read
tree_read self path = read [] self.node self.vis path 0 []
