-- ===== src/Node/Read/Replies.antt =====
-- Which child's reply the recursive `read` of src/node.rs puts under a key.
use Prim.Native.Nat.Ordering.{lt, gt}
use qumulus.Base.{
  ℕ, suc, ◌≡◌, refl, sym, subst, ◌∙◌, ap, Option, none, some, List, [], ◌∷◌, ◌++◌, inl, inr,
  if◌then◌else◌, arith,
}
use qumulus.Node.{Node, Keys, no_keys, some_keys, Children, nil, cons, get_child, children_of}
use qumulus.Node.Merge.Entries.{
  get_child-Above, Above-trans, get_child-cons_lt, get_child-cons_eq, get_child-cons_gt,
}
use qumulus.Node.Merge.View.{LocalKeys, LocalChildren, MapKeys, MapChildren, Above}
use qumulus.Node.Read.{DelegatedMatch, read, read_keys, read_all, read_one}
use qumulus.Node.Read.Exact.{read_found, read_one-get}
use qumulus.Node.Read.Locality.{read-externals}
use qumulus.Text.{Text, text_cmp, text_eq}
use qumulus.Text.Order.{eq_of_text_cmp, eq_of_text_eq, text_eq_refl, Ordering-cases, ne_of_text_cmp}
use qumulus.TreePath.{TreePath, star, star_star, star_hash}
use qumulus.Update
use qumulus.Update.{Update, update}
use qumulus.Update.Entries.{
  child_of, or_else, child_of-add_same, child_of-add_other, new_of-add_child,
}
use qumulus.Vis.{Vis}

-- The reply of the child under `k`, if there is one.
abbrev pub read_child :
    TreePath → Vis → TreePath → ℕ → List DelegatedMatch → Text → Option Node → Option Update
read_child stack v path pos ex k none = none
read_child stack v path pos ex k (some n) = (read (stack ++ k ∷ []) n v path pos ex).0

read_all-child :
    (stack : TreePath) (k : Text) (c : Children) (v : Vis) (path : TreePath) (pos : ℕ) (u : Update)
    (ex : List DelegatedMatch)
    → LocalChildren c
    → MapChildren c
    → child_of k (read_all stack c v path pos u ex).update
      ≡ or_else (read_child stack v path pos ex k (get_child k c)) (child_of k u)
unfolding read
read_all-child stack k nil v path pos u ex l m = rw (get_child-Above k nil tt) refl
read_all-child stack k (cons j n c) v path pos u ex l m =
    let r = read (stack ++ j ∷ []) n v path pos ex in
    let same : r.1 ≡ ex = read-externals (stack ++ j ∷ []) n v path pos ex l.0 in
    let rest = read_all-child stack k c v path pos (Update.add_child u j r.0) ex l.1 m.2 in
    rw same (elim (Ordering-cases (text_cmp k j)) [
      | inl h ↦
          rest
          ∙ rw (get_child-cons_lt k j n c h, get_child-Above k c (Above-trans k j c h m.1))
              (child_of-add_other k j u r.0 (ne_of_text_cmp k j lt h (λ x. cc)))
      | inr (inl h) ↦
          let e = eq_of_text_cmp k j h in
          let absent = get_child-Above k c (subst (λ x. Above x c) (sym e) m.1) in
          let found =
            subst
              (λ x.
                child_of x (Update.add_child u j r.0)
                ≡ or_else (read (stack ++ x ∷ []) n v path pos ex).0 (child_of x u))
              (sym e) (child_of-add_same j u r.0) in
          rest ∙ rw (get_child-cons_eq k j n c h, absent) found
      | inr (inr h) ↦
          rest
          ∙ rw (get_child-cons_gt k j n c h) (
              ap (or_else (read_child stack v path pos ex k (get_child k c)))
                (child_of-add_other k j u r.0 (ne_of_text_cmp k j gt h (λ x. cc))))
    ])

read_all-new :
    (stack : TreePath) (c : Children) (v : Vis) (path : TreePath) (pos : ℕ) (u : Update)
    (ex : List DelegatedMatch)
    → Update.new_of (read_all stack c v path pos u ex).update ≡ Update.new_of u
unfolding read
read_all-new stack nil v path pos u ex = refl
read_all-new stack (cons j n c) v path pos u ex =
    let r = read (stack ++ j ∷ []) n v path pos ex in
    read_all-new stack c v path pos (Update.add_child u j r.0) r.1 ∙ new_of-add_child j u r.0

read_one-new :
    (stack : TreePath) (c : Children) (v : Vis) (path : TreePath) (pos : ℕ) (part : Text)
    (ex : List DelegatedMatch)
    → Update.new_of (read_one stack c v path pos part ex).update ≡ none
unfolding read
read_one-new stack nil v path pos part ex = refl
read_one-new stack (cons k n c) v path pos part ex =
    let child = (read (stack ++ part ∷ []) n v path pos ex).0 in
    ground
      (arith, read_one-new stack c v path pos part ex, new_of-add_child part Update.default child)

-- A node's own value is not read with its children.
pub read_keys-new :
    (stack : TreePath) (ks : Keys) (v : Vis) (path : TreePath) (pos : ℕ) (part : Option Text)
    (ex : List DelegatedMatch)
    → Update.new_of (read_keys stack ks v path pos part ex).update ≡ none
unfolding read
read_keys-new stack no_keys v path pos part ex = refl
read_keys-new stack (some_keys c) v path pos none ex = refl
read_keys-new stack (some_keys c) v path pos (some part) ex = ground (
  arith,
  read_all-new stack c v path (suc pos) Update.default ex,
  read_all-new stack c v (star_hash ∷ []) 0 Update.default ex,
  read_all-new stack c v path pos Update.default ex,
  read_one-new stack c v path (suc pos) part ex,
)

get_none : (k : Text) → child_of k Update.default ≡ none
unfolding Update.get_child
get_none k = refl

or_else-none : (o : Option Update) → or_else o none ≡ o
or_else-none none = refl
or_else-none (some u) = refl

read_found-child :
    (stack : TreePath) (k part : Text) (o : Option Node) (v : Vis) (path : TreePath) (pos : ℕ)
    (ex : List DelegatedMatch)
    → child_of k (read_found stack o v path pos part ex).update
      ≡ (if text_eq part k then read_child stack v path pos ex part o else none)
read_found-child stack k part none v path pos ex = ground (arith, get_none k)
read_found-child stack k part (some n) v path pos ex =
    let r = read (stack ++ part ∷ []) n v path pos ex in
    let same = child_of-add_same part Update.default r.0 in
    ground (
      arith,
      same,
      get_none part,
      get_none k,
      or_else-none r.0,
      child_of-add_other k part Update.default r.0,
      eq_of_text_eq part k,
      text_eq_refl part,
    )

-- The child that a part of the specification selects, and what is left of the specification.
abbrev pub selected :
    TreePath → Vis → TreePath → ℕ → List DelegatedMatch → Text → Text → Option Node → Option Update
selected stack v path pos ex part k o =
    if text_eq part star
    then read_child stack v path (suc pos) ex k o
    else if text_eq part star_star
    then read_child stack v (star_hash ∷ []) 0 ex k o
    else if text_eq part star_hash
    then read_child stack v path pos ex k o
    else if text_eq part k
    then read_child stack v path (suc pos) ex k o
    else none

pub read_keys-child :
    (stack : TreePath) (k : Text) (ks : Keys) (v : Vis) (path : TreePath) (pos : ℕ) (part : Text)
    (ex : List DelegatedMatch)
    → LocalKeys ks
    → MapKeys ks
    → child_of k (read_keys stack ks v path pos (some part) ex).update
      ≡ selected stack v path pos ex part k (get_child k (children_of ks))
unfolding read get_child
read_keys-child stack k no_keys v path pos part ex l m = ground (arith, get_none k)
read_keys-child stack k (some_keys c) v path pos part ex l m =
    let o = get_child k c in
    ground (
      arith,
      get_none k,
      read_all-child stack k c v path (suc pos) Update.default ex l m,
      read_all-child stack k c v (star_hash ∷ []) 0 Update.default ex l m,
      read_all-child stack k c v path pos Update.default ex l m,
      or_else-none (read_child stack v path (suc pos) ex k o),
      or_else-none (read_child stack v (star_hash ∷ []) 0 ex k o),
      or_else-none (read_child stack v path pos ex k o),
      read_one-get stack c v path (suc pos) part ex m,
      read_found-child stack k part (get_child part c) v path (suc pos) ex,
      eq_of_text_eq part k,
    )
