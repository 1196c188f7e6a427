-- ===== src/Tests/Updates.antt =====
-- What listeners are sent of an update.
use qumulus.Base.{true, false, ◌≡◌, refl, some, none, [], ◌∷◌, if◌then◌else◌}
use qumulus.Json
use qumulus.Node
use qumulus.Node.{Node, node}
use qumulus.Node.Merge.{merge, tree_merge, node_merge}
use qumulus.Node.Merge.Replicas.{effective}
use qumulus.Text.{text, text_cmp, text_eq}
use qumulus.TreePath.{TreePath, star}
use qumulus.Update
use qumulus.Update.{Update, update}
use qumulus.Update.Listened.{filter_exact}
use qumulus.Update.Reply.{filter}
use qumulus.Update.Shown.{shown, listens, change_at}
use qumulus.Value.{null, u64, value_eq}
use qumulus.Vis
use qumulus.Vis.{vis}

abbrev cow_path : TreePath
cow_path = text "a" ∷ text "b" ∷ []

-- `b` below `a` is set to 7, and `c` beside it is removed.
abbrev two_changes : Update
two_changes =
    update false none none
      (Update.some_keys (
        Update.cons (text "a")
          (update false none none
            (Update.some_keys (
              Update.cons (text "b") (update true none (some (u64 7)) Update.no_keys none) (
                Update.cons (text "c") (update true (some (u64 1)) none Update.no_keys none)
                  Update.nil)))
            none)
          Update.nil))
      none

filter_exact_example :
    shown (filter two_changes (text "a" ∷ star ∷ [])) cow_path
    ≡ (if listens (text "a" ∷ star ∷ []) cow_path then change_at two_changes cow_path else none)
unfolding text_eq
filter_exact_example =
    filter_exact two_changes (text "a" ∷ star ∷ []) cow_path
      (refl, ((refl, ((refl, tt), refl, ((refl, tt), refl, tt))), refl, tt))

-- A listener to every child is sent an empty message where no child has changed.
empty_message :
    filter two_changes (star ∷ [])
    ≡ Json.array
        (Json.cons (Json.object Json.end) (Json.cons Json.null (Json.cons Json.null Json.nil)))
unfolding filter text_eq
empty_message = refl

-- The tree has `a` and `a.b` of the time 5. The diff deletes everything at the time 6, and writes the
-- root and `a` anew later.
abbrev written : Node
written =
    node (vis 5 0) null
      (Node.some_keys (
        Node.cons (text "a")
          (node (vis 5 0) (u64 1)
            (Node.some_keys (Node.cons (text "b") (node (vis 5 0) (u64 2) Node.no_keys 0) Node.nil))
            0)
          Node.nil))
      0

abbrev rewritten : Node
rewritten =
    node (vis 7 6) null
      (Node.some_keys (Node.cons (text "a") (node (vis 9 0) (u64 3) Node.no_keys 0) Node.nil)) 0

-- The merge hides `a.b`, and its update does not say so: that of the second visit to `a` takes the
-- place of that of the first.
missed_removal :
    (tree_merge (record { node = written; vis = Vis.permanent }) (Node.noop_vis rewritten)).update
    ≡ some (
        update false none none
          (Update.some_keys (
            Update.cons
              (text "a")
              (update true none (some (u64 3)) Update.no_keys none)
              Update.nil))
          none)
unfolding tree_merge node_merge merge text_cmp Update.is_noop value_eq Node.get_child Vis.is_visible
    Vis.descend
missed_removal = refl

hidden :
    Vis.is_visible (
      effective Vis.permanent
        (tree_merge
          (record { node = written; vis = Vis.permanent })
          (Node.noop_vis rewritten)).tree.node
        cow_path)
    ≡ false
unfolding tree_merge node_merge merge text_cmp Node.get_child Vis.is_visible Vis.descend
hidden = refl
