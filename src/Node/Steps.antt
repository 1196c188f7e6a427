-- ===== src/Node/Steps.antt =====
-- src/node.rs, the stretches of the recursive `merge` between its recursive calls.
use qumulus.Base.{
  ℕ, ◌+◌, ◌%◌, Bool, true, false, not, ◌&&◌, ◌||◌, Option, none, some, List, [], ◌∷◌, ◌++◌, ltb,
  ◌==◌, if◌then◌else◌, is_empty,
}
use qumulus.Node.{Node, node, Keys, no_keys, NodeTree, default, is_no_keys}
use qumulus.TreePath.{TreePath}
use qumulus.Update
use qumulus.Update.{Update, update, unless_noop}
use qumulus.Value.{Value, null, value_eq, is_null}
use qumulus.Vis
use qumulus.Vis.{Vis, descend, is_visible}

-- Data that has to go to the zone that it is delegated to.
pub record External : Type 0 where
  pub path : TreePath
  pub tree : NodeTree
  pub initial : Bool

-- The node's and the diff's own fields after the value and the deletion are merged.
pub record Settled : Type 0 where
  pub vis : Vis
  pub value : Value
  pub diff_vis : Vis
  pub diff_value : Value
  pub value_changed : Bool
  pub propagate : Option Node

unfoldable pub settle_value : Vis → Value → Vis → Value → Settled
settle_value v val dv dval =
    if ltb v.updated dv.updated
    then record {
      vis = record v { updated = dv.updated };
      value = if value_eq val dval then val else dval;
      diff_vis = dv;
      diff_value = dval;
      value_changed = not (value_eq val dval);
      propagate = some default;
    }
    else if ltb dv.updated v.updated
    then record {
      vis = v;
      value = val;
      diff_vis = record dv { updated = 0 };
      diff_value = null;
      value_changed = false;
      propagate = none;
    }
    else record {
      vis = v;
      value = val;
      diff_vis = dv;
      diff_value = dval;
      value_changed = false;
      propagate = none;
    }

abbrev set_deleted : Option Node → ℕ → Option Node
set_deleted none d = some (node (Vis.delete d) null no_keys 0)
set_deleted (some (node v val ks g)) d = some (node (record v { deleted = d }) val ks g)

unfoldable pub settle_deletion : Settled → Settled
settle_deletion s =
    let v = s.vis in
    let dv = s.diff_vis in
    if ltb v.deleted dv.deleted
    then record s {
      vis = record v { deleted = dv.deleted };
      value = if ltb v.updated dv.deleted then null else s.value;
      propagate = set_deleted s.propagate dv.deleted;
    }
    else record s { diff_vis = record dv { deleted = 0 } }

unfoldable pub settle_values : Vis → Value → Vis → Value → Settled
unfolding settle_value settle_deletion
settle_values v val dv dval = settle_deletion (settle_value v val dv dval)

-- The update of the node itself, from its visibility before and after.
unfoldable pub visible_change : Bool → Bool → Bool → Value → Value → Update
visible_change false false changed old new = Update.default
visible_change false true changed old new = update true none (some new) Update.no_keys none
visible_change true false changed old new = update true (some old) none Update.no_keys none
visible_change true true true old new = update true (some old) (some new) Update.no_keys none
visible_change true true false old new = Update.default

-- What `merge` leaves: the node, the diff cut down to actual changes, and the externals so far.
pub record Merged : Type 0 where
  pub node : Node
  pub diff : Node
  pub update : Option Update
  pub externals : List External

abbrev set_delegated : Update → Option Bool → Update
set_delegated (update c o n ks d) d' = update c o n ks d'

-- The update is left to the delegated zone, which notifies its listeners.
abbrev discard : Update → Update
discard (update c o n ks d) = update false none none Update.no_keys d

abbrev pub is_odd : ℕ → Bool
is_odd n = n % 2 == 1

-- The end of `merge`: `takes` says that the diff's delegation is newer, `initial` that it makes
-- the node a delegated one, `external` that the node holds data to move.
unfoldable pub settle_delegation :
    TreePath → Settled → Keys → ℕ → Keys → ℕ → Vis → Update → List External → Merged
settle_delegation stack s ks g dks dg vis_new u externals =
    let takes = ltb 0 dg && ltb g dg in
    let below = not (is_empty stack) in
    let changes = takes && below && is_odd (dg + g) in
    let initial = changes && is_odd dg in
    let u' = if changes then set_delegated u (some (is_odd dg)) else u in
    let g' = if takes then dg else g in
    let diff' = node s.diff_vis s.diff_value dks (if takes then dg else 0) in
    let external =
      below && is_odd g' && (not (is_no_keys ks) || not (is_null s.value) || initial) in
    let moved : External = record {
      path = stack;
      tree = record { node = node s.vis s.value ks g'; vis = vis_new };
      initial = initial;
    } in
    if external
    then record {
      node = node Vis.default null no_keys g';
      diff = diff';
      update = unless_noop (if initial then u' else discard u');
      externals = externals ++ moved ∷ [];
    }
    else record {
      node = node s.vis s.value ks g';
      diff = diff';
      update = unless_noop u';
      externals = externals;
    }

-- The update before the children are visited.
abbrev pub own_change : Vis → Value → Settled → Vis → Vis → Update
own_change v val s vis_old vis_new =
    visible_change (is_visible (descend vis_old v)) (is_visible (descend vis_new s.vis))
      s.value_changed val s.value
