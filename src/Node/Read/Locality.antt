-- ===== src/Node/Read/Locality.antt =====
-- A read of a tree without delegations asks no other zone.
use qumulus.Base.{ℕ, suc, ◌≡◌, refl, ◌∙◌, Option, none, some, List, [], ◌∷◌, ◌++◌, arith}
use qumulus.Node.{Node, node, Keys, no_keys, some_keys, Children, nil, cons}
use qumulus.Node.Merge.View.{IsLocal, LocalKeys, LocalChildren}
use qumulus.Node.Read.{DelegatedMatch, part_at, read, read_keys, read_all, read_one}
use qumulus.Text.{Text}
use qumulus.TreePath.{TreePath, star_hash}
use qumulus.Update
use qumulus.Update.{Update}
use qumulus.Vis.{Vis, descend}

mutual
  unfolding read

  pub read-externals :
      (stack : TreePath) (n : Node) (v : Vis) (path : TreePath) (pos : ℕ) (ex : List DelegatedMatch)
      → IsLocal n
      → (read stack n v path pos ex).1 ≡ ex
  read-externals stack (node v val ks g) parent path pos ex l =
      let keys =
        read_keys-externals stack ks (descend parent v) path pos (part_at path pos) ex l.1 in
      ground (arith, keys, l.0)

  pub read_keys-externals :
      (stack : TreePath) (ks : Keys) (v : Vis) (path : TreePath) (pos : ℕ) (part : Option Text)
      (ex : List DelegatedMatch)
      → LocalKeys ks
      → (read_keys stack ks v path pos part ex).externals ≡ ex
  read_keys-externals stack no_keys v path pos part ex l = refl
  read_keys-externals stack (some_keys c) v path pos none ex l = refl
  read_keys-externals stack (some_keys c) v path pos (some part) ex l = ground (
    arith,
    read_all-externals stack c v path (suc pos) Update.default ex l,
    read_all-externals stack c v (star_hash ∷ []) 0 Update.default ex l,
    read_all-externals stack c v path pos Update.default ex l,
    read_one-externals stack c v path (suc pos) part ex l,
  )

  pub read_all-externals :
      (stack : TreePath) (c : Children) (v : Vis) (path : TreePath) (pos : ℕ) (u : Update)
      (ex : List DelegatedMatch)
      → LocalChildren c
      → (read_all stack c v path pos u ex).externals ≡ ex
  read_all-externals stack nil v path pos u ex l = refl
  read_all-externals stack (cons k n c) v path pos u ex l =
      let r = read (stack ++ k ∷ []) n v path pos ex in
      read_all-externals stack c v path pos (Update.add_child u k r.0) r.1 l.1
      ∙ read-externals (stack ++ k ∷ []) n v path pos ex l.0

  pub read_one-externals :
      (stack : TreePath) (c : Children) (v : Vis) (path : TreePath) (pos : ℕ) (part : Text)
      (ex : List DelegatedMatch)
      → LocalChildren c
      → (read_one stack c v path pos part ex).externals ≡ ex
  read_one-externals stack nil v path pos part ex l = refl
  read_one-externals stack (cons k n c) v path pos part ex l = ground (
    arith,
    read-externals (stack ++ part ∷ []) n v path pos ex l.0,
    read_one-externals stack c v path pos part ex l.1,
  )
