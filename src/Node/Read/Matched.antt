-- ===== src/Node/Read/Matched.antt =====
-- A read of src/node.rs with wildcards: what it selects, and that it asks no other zone.
use qumulus.Base.{
  ℕ, suc, ◌+◌, Bool, true, false, ◌&&◌, ◌||◌, leb, if◌then◌else◌, ◌≡◌, refl, ◌∙◌, ap, ◌⊎◌, inl, inr,
  Option, none, some, List, [], ◌∷◌, ◌++◌, length, drop, length-append, arith,
}
use qumulus.Node.{Node, node, NodeTree, Keys, no_keys, some_keys, get_child, children_of}
use qumulus.Node.Merge.{or_default}
use qumulus.Node.Merge.Entries.{get_child-Local}
use qumulus.Node.Merge.Local.{LocalKeys-children}
use qumulus.Node.Merge.Replicas.{effective}
use qumulus.Node.Merge.Sorted.{get_child-IsMap, MapKeys-children}
use qumulus.Node.Merge.View.{value_at, IsLocal, IsMap}
use qumulus.Node.Read.{
  DelegatedMatch, first, part_at, is_star_hash, read, read_keys, read_self, tree_read,
}
use qumulus.Node.Read.Exact.{found, drop-suc, invisible-default}
use qumulus.Node.Read.Locality.{read-externals}
use qumulus.Node.Read.Replies.{read_child, read_keys-child, read_keys-new, selected}
use qumulus.Text.{Text, text_eq}
use qumulus.Text.Order.{eq_of_text_eq, text_eq_refl}
use qumulus.TreePath.{TreePath, star, star_star, star_hash}
use qumulus.TreePath.Delegation.{matches, matches-star_hash}
use qumulus.Update
use qumulus.Update.{Update, update, unless_noop}
use qumulus.Update.Entries.{child_of}
use qumulus.Value.{Value}
use qumulus.Vis.{Vis, descend, is_visible}

-- What a reply holds for a path: the value there, if it is selected and visible.
abbrev pub expected : Bool → Vis → Node → TreePath → Option Value
expected m v n q = if m && is_visible (effective v n q) then some (value_at n q) else none

found-below :
    (asked : Bool) (v : Vis) (val : Value) (u : Update) (k : Text) (q : TreePath)
    → found (unless_noop (read_self asked v val u)) (k ∷ q) ≡ found (child_of k u) q
unfolding read_self Update.is_noop Update.get_child
found-below asked v val (update c o n Update.no_keys d) k q = ground arith
found-below asked v val (update c o n (Update.some_keys ks) d) k q = ground arith

found-here :
    (asked : Bool) (v : Vis) (val : Value) (u : Update)
    → Update.new_of u ≡ none
    → found (unless_noop (read_self asked v val u)) []
      ≡ (if asked && is_visible v then some val else none)
unfolding read_self Update.is_noop
found-here asked v val (update c o n ks d) h = ground arith

-- The position of a walk: `rest` is left of the specification, and either each component passed
-- is one node passed, or `*#` is reached, where the depth plays no part.
abbrev At : TreePath → ℕ → TreePath → TreePath → Type 0
At path pos stack rest =
    (drop pos path ≡ rest)
    × (((length path ≡ pos + length rest) × (length stack ≡ pos)) ⊎ (first rest ≡ some star_hash))

is_star_hash_of : (p : Text) → some p ≡ some star_hash → text_eq p star_hash ≡ true
is_star_hash_of p e = let h : p ≡ star_hash = cc in rw h (text_eq_refl star_hash)

asked_is_matched :
    (path : TreePath) (pos : ℕ) (stack rest : TreePath)
    → At path pos stack rest
    → leb (length path) (length stack) || is_star_hash (part_at path pos) ≡ matches rest []
unfolding matches
asked_is_matched path pos stack [] (d, inl (e, f)) = rw (ap first d) (ground arith)
asked_is_matched path pos stack [] (d, inr e) = cc
asked_is_matched path pos stack (p ∷ rest) (d, inl (e, f)) = rw (ap first d) (ground arith)
asked_is_matched path pos stack (p ∷ rest) (d, inr e) =
    let h = is_star_hash_of p e in rw (ap first d) (ground arith)

-- What a child's reply has to hold, for what is left of the specification.
abbrev Answers : TreePath → Vis → Node → TreePath → Option Update → Type 0
Answers rest v n q u = found u q ≡ expected (matches rest q) v n q

read_child-Answers :
    (stack : TreePath) (v : Vis) (path : TreePath) (pos : ℕ) (ex : List DelegatedMatch) (k : Text)
    (o : Option Node) (rest q : TreePath)
    → Answers rest v (or_default o) q (read (stack ++ k ∷ []) (or_default o) v path pos ex).0
    → Answers rest v (or_default o) q (read_child stack v path pos ex k o)
read_child-Answers stack v path pos ex k none rest q h =
    let e = invisible-default v q in ground arith
read_child-Answers stack v path pos ex k (some n) rest q h = h

star_others : (text_eq star star_star ≡ false) × (text_eq star star_hash ≡ false)
unfolding text_eq
star_others = (refl, refl)

star_excludes :
    (p : Text)
    → text_eq p star ≡ true
    → (text_eq p star_star ≡ false) × (text_eq p star_hash ≡ false)
star_excludes p h = rw (eq_of_text_eq p star h) star_others

matches-from_star_hash :
    (p : Text) (rest q : TreePath) → text_eq p star_hash ≡ true → matches (p ∷ rest) q ≡ true
unfolding matches
matches-from_star_hash p rest [] h = h
matches-from_star_hash p rest (k ∷ q) h = ground arith

-- The three ways to go on below a key: one component further, from `**`, and from `*#`.
selected-Answers :
    (stack : TreePath) (v : Vis) (path : TreePath) (pos : ℕ) (ex : List DelegatedMatch)
    (part k : Text) (o : Option Node) (rest q : TreePath)
    → (text_eq part star_hash ≡ false
        → Answers rest v (or_default o) q (read_child stack v path (suc pos) ex k o))
    → Answers (star_hash ∷ []) v (or_default o) q (read_child stack v (star_hash ∷ []) 0 ex k o)
    → (text_eq part star_hash ≡ true
        → Answers (part ∷ rest) v (or_default o) q (read_child stack v path pos ex k o))
    → found (selected stack v path pos ex part k o) q
      ≡ expected (matches (part ∷ rest) (k ∷ q)) v (or_default o) q
unfolding matches
selected-Answers stack v path pos ex part k o rest q on all same = ground (
  arith,
  on,
  all,
  same,
  matches-star_hash q,
  matches-from_star_hash part rest q,
  star_excludes part,
)

read-plain :
    (stack : TreePath) (v : Vis) (val : Value) (ks : Keys) (g : ℕ) (parent : Vis) (path : TreePath)
    (pos : ℕ) (ex : List DelegatedMatch)
    → IsLocal (node v val ks g)
    → let part = part_at path pos in
      (read stack (node v val ks g) parent path pos ex).0
      ≡ unless_noop (
          read_self
            (leb (length path) (length stack) || is_star_hash part)
            (descend parent v)
            val
            (read_keys stack ks (descend parent v) path pos part ex).update)
unfolding read
read-plain stack v val ks g parent path pos ex l = let h = l.0 in ground arith

child_of-spent :
    (stack : TreePath) (k : Text) (ks : Keys) (v : Vis) (path : TreePath) (pos : ℕ)
    (ex : List DelegatedMatch)
    → child_of k (read_keys stack ks v path pos none ex).update ≡ none
unfolding read Update.get_child
child_of-spent stack k no_keys v path pos ex = refl
child_of-spent stack k (some_keys c) v path pos ex = refl

-- From a node's position to its child's, where a component is taken.
At-next :
    (path : TreePath) (pos : ℕ) (stack : TreePath) (part k : Text) (rest : TreePath)
    → At path pos stack (part ∷ rest)
    → text_eq part star_hash ≡ false
    → At path (suc pos) (stack ++ k ∷ []) rest
At-next path pos stack part k rest (d, inl (e, f)) h =
    (drop-suc path pos part rest d, inl (omega arith, omega (arith, length-append stack (k ∷ []))))
At-next path pos stack part k rest (d, inr e) h = let t = is_star_hash_of part e in cc

read-Answers :
    (q rest stack : TreePath) (n : Node) (parent : Vis) (path : TreePath) (pos : ℕ)
    (ex : List DelegatedMatch)
    → At path pos stack rest
    → IsLocal n
    → IsMap n
    → Answers rest parent n q (read stack n parent path pos ex).0
unfolding matches
read-Answers [] rest stack (node v val ks g) parent path pos ex a l m =
    let own = descend parent v in
    rw (read-plain stack v val ks g parent path pos ex l) (
      found-here _ own val _ (read_keys-new stack ks own path pos (part_at path pos) ex)
      ∙ ap (λ b. if b && is_visible own then some val else none)
          (asked_is_matched path pos stack rest a))
read-Answers (k ∷ q) [] stack (node v val ks g) parent path pos ex a l m =
    let own = descend parent v in
    rw (read-plain stack v val ks g parent path pos ex l) (
      found-below _ own val _ k q
      ∙ rw (ap first a.0, child_of-spent stack k ks own path pos ex) refl)
read-Answers (k ∷ q) (p ∷ rest) stack (node v val ks g) parent path pos ex a l m =
    let own = descend parent v in
    let o = get_child k (children_of ks) in
    let n = or_default o in
    let nl = get_child-Local k (children_of ks) (LocalKeys-children ks l.1) in
    let nm = get_child-IsMap k (children_of ks) (MapKeys-children ks m) in
    rw (read-plain stack v val ks g parent path pos ex l) (
      found-below _ own val _ k q
      ∙ rw (ap first a.0) (
          ap (λ u. found u q) (read_keys-child stack k ks own path pos p ex l.1 m)
          ∙ selected-Answers stack own path pos ex p k o rest q
              (λ h. read_child-Answers stack own path (suc pos) ex k o rest q (
                read-Answers q rest (stack ++ k ∷ []) n own path (suc pos) ex
                  (At-next path pos stack p k rest a h) nl nm))
              (read_child-Answers stack own (star_hash ∷ []) 0 ex k o (star_hash ∷ []) q (
                read-Answers q (star_hash ∷ []) (stack ++ k ∷ []) n own (star_hash ∷ []) 0 ex
                  (refl, inr refl) nl nm))
              (λ h. read_child-Answers stack own path pos ex k o (p ∷ rest) q (
                read-Answers q (p ∷ rest) (stack ++ k ∷ []) n own path pos ex
                  (a.0, inr (ap some (eq_of_text_eq p star_hash h))) nl nm))))

-- A read in a tree without delegations replies at every path with the value there exactly when
-- the specification, wildcards included, selects the path and the path is visible through all its
-- ancestors; and it asks no other zone. The tree is a map.
pub read_matches :
    (t : NodeTree) (spec q : TreePath)
    → IsLocal t.node
    → IsMap t.node
    → (found (tree_read t spec).0 q ≡ (
        if matches spec q && is_visible (effective t.vis t.node q)
        then some (value_at t.node q)
        else none))
      × ((tree_read t spec).1 ≡ [])
unfolding tree_read
read_matches t spec q l m = (
  read-Answers q spec [] t.node t.vis spec 0 [] (refl, inl (omega arith, refl)) l m,
  read-externals [] t.node t.vis spec 0 [] l,
)
