-- ===== src/Node/Read/Exact.antt =====
-- A read without wildcards: what is visible at one path.
use qumulus.Base.{
  ℕ, suc, ◌+◌, true, false, leb, if◌then◌else◌, ◌≡◌, refl, ◌∙◌, ap, Option, none, some, List, [],
  ◌∷◌, ◌++◌, length, drop, length-append, arith,
}
use qumulus.Node.{
  Node, node, NodeTree, Keys, no_keys, some_keys, Children, nil, cons, get_child, default,
  children_of, vis_of,
}
use qumulus.Node.Merge.{is_odd, or_default}
use qumulus.Node.Merge.Entries.{get_child-Local, Above-trans}
use qumulus.Node.Merge.Local.{LocalKeys-children}
use qumulus.Node.Merge.Replicas.{effective}
use qumulus.Node.Merge.Sorted.{get_child-IsMap, MapKeys-children}
use qumulus.Node.Merge.View.{value_at, IsLocal, LocalKeys, IsMap, MapChildren, Above}
use qumulus.Node.Read.{
  DelegatedMatch, Reading, first, part_at, read, read_one, read_self, tree_read,
}
use qumulus.Text.{Text, text_eq}
use qumulus.Text.Order.{text_cmp_refl, eq_of_text_cmp, text_eq_refl, eq_of_text_eq}
use qumulus.TreePath.{TreePath, star, star_star, star_hash}
use qumulus.Update
use qumulus.Update.{Update, update, unless_noop}
use qumulus.Value.{Value}
use qumulus.Vis.{Vis, descend, is_visible}
use qumulus.Vis.Laws.{descend-updated}

-- What a reply holds for a path.
abbrev pub found : Option Update → TreePath → Option Value
found none p = none
found (some u) [] = Update.new_of u
found (some u) (k ∷ p) = found (Update.get_child k (Update.children_of (Update.keys_of u))) p

-- A component is no wildcard.
abbrev pub IsKey : Text → Type 0
IsKey k = (text_eq k star ≡ false) × (text_eq k star_star ≡ false) × (text_eq k star_hash ≡ false)

abbrev pub AllKeys : TreePath → Type 0
AllKeys [] = Unit
AllKeys (k ∷ p) = IsKey k × AllKeys p

abbrev pub shown : Vis → Value → Option Value
shown v val = if is_visible v then some val else none

pub drop-suc :
    (path : TreePath) (pos : ℕ) (k : Text) (rest : TreePath)
    → drop pos path ≡ k ∷ rest
    → drop (suc pos) path ≡ rest
drop-suc [] ℕ.zero k rest h = cc
drop-suc [] (suc pos) k rest h = cc
drop-suc (q ∷ path) ℕ.zero k rest h = cc
drop-suc (q ∷ path) (suc pos) k rest h = drop-suc path pos k rest h

-- Nothing is visible in a default node.
effective-default : (v : Vis) (p : TreePath) → (effective v default p).updated ≡ 0
unfolding get_child
effective-default v [] = omega (arith, descend-updated v (vis_of default))
effective-default v (k ∷ p) = effective-default (descend v (vis_of default)) p

pub invisible-default : (v : Vis) (p : TreePath) → is_visible (effective v default p) ≡ false
unfolding is_visible
invisible-default v p = let e = effective-default v p in ground arith

-- The child that `read_one` goes down to, by the map's `get`.
abbrev pub read_found :
    TreePath → Option Node → Vis → TreePath → ℕ → Text → List DelegatedMatch → Reading
read_found stack none v path pos part ex = record { update = Update.default; externals = ex }
read_found stack (some n) v path pos part ex =
    let r = read (stack ++ part ∷ []) n v path pos ex in
    record { update = Update.add_child Update.default part r.0; externals = r.1 }

read_one-Above :
    (stack : TreePath) (c : Children) (v : Vis) (path : TreePath) (pos : ℕ) (part : Text)
    (ex : List DelegatedMatch)
    → Above part c
    → read_one stack c v path pos part ex ≡ record { update = Update.default; externals = ex }
unfolding read
read_one-Above stack nil v path pos part ex a = refl
read_one-Above stack (cons k n c) v path pos part ex a =
    ground (
      arith,
      read_one-Above stack c v path pos part ex a.1,
      eq_of_text_eq part k,
      text_cmp_refl part,
    )

pub read_one-get :
    (stack : TreePath) (c : Children) (v : Vis) (path : TreePath) (pos : ℕ) (part : Text)
    (ex : List DelegatedMatch)
    → MapChildren c
    → read_one stack c v path pos part ex ≡ read_found stack (get_child part c) v path pos part ex
unfolding read get_child
read_one-get stack nil v path pos part ex m = refl
read_one-get stack (cons k n c) v path pos part ex m = ground (
  arith,
  read_one-get stack c v path pos part ex m.2,
  read_one-Above stack c v path pos part ex,
  eq_of_text_eq part k,
  text_eq_refl part,
  text_cmp_refl part,
  eq_of_text_cmp part k,
  Above-trans part k c,
)

get_single : (k : Text) (u : Update) → Update.get_child k (Update.cons k u Update.nil) ≡ some u
unfolding Update.get_child
get_single k u = ground (arith, text_cmp_refl k)

-- What the reply holds for a child is what the child's own reply holds.
found-child :
    (v : Vis) (val : Value) (k : Text) (child : Option Update) (p : TreePath)
    → found (unless_noop (read_self false v val (Update.add_child Update.default k child))) (k ∷ p)
      ≡ found child p
unfolding read_self Update.add_child Update.is_noop Update.get_child
found-child v val k none p = refl
found-child v val k (some u) p = ap (λ o. found o p) (get_single k u)

found_self :
    (v : Vis) (val : Value)
    → found (unless_noop (read_self true v val Update.default)) [] ≡ shown v val
unfolding read_self Update.is_noop
found_self v val = ground arith

-- The reply of a node for the rest of the path, and no delegated matches.
abbrev Exact :
    Option Update × List DelegatedMatch → List DelegatedMatch → Vis → Node → TreePath → Type 0
Exact r ex parent n rest =
    (found r.0 rest ≡ shown (effective parent n rest) (value_at n rest)) × (r.1 ≡ ex)

-- The last component is reached: the node's own value is read.
read-last :
    (stack : TreePath) (v : Vis) (val : Value) (ks : Keys) (g : ℕ) (parent : Vis) (path : TreePath)
    (pos : ℕ) (ex : List DelegatedMatch)
    → part_at path pos ≡ none
    → leb (length path) (length stack) ≡ true
    → is_odd g ≡ false
    → read stack (node v val ks g) parent path pos ex
      ≡ (unless_noop (read_self true (descend parent v) val Update.default), ex)
unfolding read
read-last stack v val no_keys g parent path pos ex a b c = ground arith
read-last stack v val (some_keys ch) g parent path pos ex a b c = ground arith

-- A component is left: only the child under it is read.
read-next :
    (stack : TreePath) (v : Vis) (val : Value) (ks : Keys) (g : ℕ) (parent : Vis) (path : TreePath)
    (pos : ℕ) (ex : List DelegatedMatch) (k : Text)
    → part_at path pos ≡ some k
    → leb (length path) (length stack) ≡ false
    → is_odd g ≡ false
    → IsKey k
    → let r = read_one stack (children_of ks) (descend parent v) path (suc pos) k ex in
      read stack (node v val ks g) parent path pos ex
      ≡ (unless_noop (read_self false (descend parent v) val r.update), r.externals)
unfolding read
read-next stack v val no_keys g parent path pos ex k a b c w = ground arith
read-next stack v val (some_keys ch) g parent path pos ex k a b c w = ground arith

shown_invisible : (v : Vis) (val : Value) → is_visible v ≡ false → none ≡ shown v val
shown_invisible v val h = ground arith

-- From the child's reply to the node's; an absent child is invisible.
next-Exact :
    (stack : TreePath) (own : Vis) (val : Value) (path : TreePath) (pos : ℕ) (k : Text)
    (rest : TreePath) (ex : List DelegatedMatch) (o : Option Node)
    → Exact (read (stack ++ k ∷ []) (or_default o) own path pos ex) ex own (or_default o) rest
    → let r = read_found stack o own path pos k ex in
      (found (unless_noop (read_self false own val r.update)) (k ∷ rest)
        ≡ shown (effective own (or_default o) rest) (value_at (or_default o) rest))
      × (r.externals ≡ ex)
unfolding Update.add_child
next-Exact stack own val path pos k rest ex none h = (
  found-child own val k none rest
      ∙ shown_invisible (effective own default rest) (value_at default rest)
          (invisible-default own rest),
  refl,
)
next-Exact stack own val path pos k rest ex (some n) h =
    (found-child own val k (read (stack ++ k ∷ []) n own path pos ex).0 rest ∙ h.0, h.1)

LocalKeys-child :
    (k : Text) (ks : Keys) → LocalKeys ks → IsLocal (or_default (get_child k (children_of ks)))
LocalKeys-child k ks l = get_child-Local k (children_of ks) (LocalKeys-children ks l)

read-Exact :
    (rest : TreePath) (stack : TreePath) (n : Node) (parent : Vis) (path : TreePath) (pos : ℕ)
    (ex : List DelegatedMatch)
    → drop pos path ≡ rest
    → length path ≡ pos + length rest
    → length stack ≡ pos
    → AllKeys rest
    → IsLocal n
    → IsMap n
    → Exact (read stack n parent path pos ex) ex parent n rest
read-Exact [] stack (node v val ks g) parent path pos ex d e f w l m =
    rw (read-last stack v val ks g parent path pos ex (ap first d) (ground arith) l.0)
      (found_self (descend parent v) val, refl)
read-Exact (k ∷ rest) stack (node v val ks g) parent path pos ex d e f w l m =
    let ch = children_of ks in
    let own = descend parent v in
    let n = or_default (get_child k ch) in
    let ih =
      read-Exact rest (stack ++ k ∷ []) n own path (suc pos) ex (drop-suc path pos k rest d)
        (omega arith) (omega (arith, length-append stack (k ∷ []))) w.1 (LocalKeys-child k ks l.1)
        (get_child-IsMap k ch (MapKeys-children ks m)) in
    rw (read-next stack v val ks g parent path pos ex k (ap first d) (ground arith) l.0 w.0) (
      rw (read_one-get stack ch own path (suc pos) k ex (MapKeys-children ks m))
        (next-Exact stack own val path (suc pos) k rest ex (get_child k ch) ih))

-- A read without wildcards in a tree without delegations replies with the value at the path
-- exactly when the path is visible through all its ancestors, and asks no other zone.
pub read_visible :
    (t : NodeTree) (path : TreePath)
    → AllKeys path
    → IsLocal t.node
    → IsMap t.node
    → (found (tree_read t path).0 path
        ≡ (if is_visible (effective t.vis t.node path) then some (value_at t.node path) else none))
      × ((tree_read t path).1 ≡ [])
unfolding tree_read
read_visible t path w l m = read-Exact path [] t.node t.vis path 0 [] refl (omega arith) refl w l m
