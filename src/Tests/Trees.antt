-- ===== src/Tests/Trees.antt =====
-- Trees, merges and reads, run on a document with two entries.
use mathlib.Core.List.{Permᴰ}
use qumulus.Base.{is_some, ◌≡◌, refl, some, none, [], ◌∷◌, arith}
use qumulus.Node
use qumulus.Node.{Node, node, NodeTree, no_keys, some_keys, nil, cons, total_byte_size, get_child}
use qumulus.Node.Merge.{merge}
use qumulus.Node.Merge.Noop.{merge-noop}
use qumulus.Node.Merge.Replicas.{merge_all, last_write_wins}
use qumulus.Node.Merge.View.{value_at, IsLocal, IsMap, Same}
use qumulus.Node.Read.{tree_read}
use qumulus.Node.Read.Converged.{replicas_read_alike}
use qumulus.Node.Merge.Register.{Agrees, register, take_in_all, merge_all_refines}
use qumulus.Node.Read.Exact.{found}
use qumulus.Node.Read.Matched.{read_matches}
use qumulus.Text.{text, text_cmp, text_eq}
use qumulus.TreePath.{TreePath}
use qumulus.TreePath.Delegation.{matches}
use qumulus.Update
use qumulus.Value.{null, u64, value_eq}
use qumulus.Vis
use qumulus.Vis.{Vis, vis}

-- `{"cow": 1, "moo": 2}`, written at the time 5.
abbrev pub stored : Node
stored =
    node (vis 5 0) null
      (some_keys (
        cons (text "cow") (node (vis 5 0) (u64 1) no_keys 0)
          (cons (text "moo") (node (vis 5 0) (u64 2) no_keys 0) nil)))
      0

-- Writes 7 at `moo` at the time 8.
abbrev newer : Node
newer =
    node Vis.default null (some_keys (cons (text "moo") (node (vis 8 0) (u64 7) no_keys 0) nil)) 0

-- Writes 3 at `cow` at the time 4.
abbrev older : Node
older =
    node Vis.default null (some_keys (cons (text "cow") (node (vis 4 0) (u64 3) no_keys 0) nil)) 0

abbrev cow : TreePath
cow = text "cow" ∷ []

abbrev pub moo : TreePath
moo = text "moo" ∷ []

abbrev everything : TreePath
everything = text "**" ∷ []

abbrev pub stored_tree : NodeTree
stored_tree = record { node = stored; vis = Vis.permanent }

stored-IsLocal : IsLocal stored
stored-IsLocal = (refl, ((refl, tt), ((refl, tt), tt)))

newer-IsLocal : IsLocal newer
newer-IsLocal = (refl, ((refl, tt), tt))

older-IsLocal : IsLocal older
older-IsLocal = (refl, ((refl, tt), tt))

newer-IsMap : IsMap newer
newer-IsMap = (tt, tt, tt)

older-IsMap : IsMap older
older-IsMap = (tt, tt, tt)

pub stored-IsMap : IsMap stored
unfolding text_cmp
stored-IsMap = (tt, (refl, tt), (tt, tt, tt))

stored_size : total_byte_size stored ≡ 23
unfolding total_byte_size Node.value_size
stored_size = refl

merged_moo : value_at (merge [] stored newer Vis.permanent Vis.permanent []).node moo ≡ u64 7
unfolding merge get_child text_cmp value_eq
merged_moo = refl

merged_cow : value_at (merge [] stored older Vis.permanent Vis.permanent []).node cow ≡ u64 1
unfolding merge get_child text_cmp
merged_cow = refl

-- A recursive delete reaches the children.
deleted_moo :
    value_at (merge [] stored (Node.delete 9) Vis.permanent Vis.permanent []).node moo ≡ null
unfolding merge get_child text_cmp
deleted_moo = refl

-- A write of the time 5 again.
abbrev stale : Node
stale = node (vis 4 0) (u64 9) no_keys 0

merge-noop_example : (merge [] stored stale Vis.permanent Vis.permanent []).node ≡ stored
unfolding merge Node.is_noop Vis.is_noop
merge-noop_example =
    merge-noop [] stored stale Vis.permanent Vis.permanent [] stored-IsLocal (refl, tt) refl

last_write_wins_example :
    Same
      (value_at
        (merge_all Vis.permanent Vis.permanent
          (merge_all Vis.permanent Vis.permanent stored (older ∷ []))
          (newer ∷ older ∷ []))
        moo)
      (value_at newer moo)
unfolding merge_all merge get_child text_cmp
last_write_wins_example =
    last_write_wins Vis.permanent Vis.permanent stored (older ∷ []) newer (older ∷ []) moo
      stored-IsLocal (older-IsLocal, older-IsMap, tt)
      (newer-IsLocal, newer-IsMap, (older-IsLocal, older-IsMap, tt)) (omega arith) (omega arith, tt)
      (omega arith, tt) (omega arith)

-- A write below an ancestor that was never written stays invisible.
unwritten_root : (tree_read (record { node = newer; vis = Vis.permanent }) moo).0 ≡ none
unfolding tree_read Update.is_noop
unwritten_root = refl

replicas_read_alike_example :
    is_some (
      found
        (tree_read
          (record {
            node = merge_all Vis.permanent Vis.permanent stored (newer ∷ older ∷ []);
            vis = Vis.permanent;
          })
          everything).0
        moo)
    ≡ is_some (
        found
          (tree_read
            (record {
              node = merge_all Vis.permanent Vis.permanent stored (older ∷ newer ∷ []);
              vis = Vis.permanent;
            })
            everything).0
          moo)
replicas_read_alike_example =
    replicas_read_alike Vis.permanent Vis.permanent Vis.permanent Vis.permanent Vis.permanent stored
      (newer ∷ older ∷ []) (older ∷ newer ∷ []) everything moo stored-IsLocal stored-IsMap
      (newer-IsLocal, newer-IsMap, (older-IsLocal, older-IsMap, tt))
      (older-IsLocal, older-IsMap, (newer-IsLocal, newer-IsMap, tt)) ∣ Permᴰ.swap refl refl ∣₁

-- All that is visible below the root.
read_matches_example :
    (found (tree_read stored_tree everything).0 moo ≡ some (u64 2))
    × ((tree_read stored_tree everything).1 ≡ [])
unfolding get_child Vis.is_visible Vis.descend text_eq text_cmp matches
read_matches_example = read_matches stored_tree everything moo stored-IsLocal stored-IsMap

merge_all_refines_example :
    Agrees
      (register (merge_all Vis.permanent Vis.permanent stored (newer ∷ older ∷ [])) moo)
      (take_in_all (register stored moo) moo (newer ∷ older ∷ []))
merge_all_refines_example =
    merge_all_refines Vis.permanent Vis.permanent stored (newer ∷ older ∷ []) moo stored-IsLocal
      (newer-IsLocal, newer-IsMap, (older-IsLocal, older-IsMap, tt))
