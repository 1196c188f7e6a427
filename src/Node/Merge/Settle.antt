-- ===== src/Node/Merge/Settle.antt =====
-- The stretches of `merge` that do not recur.
use qumulus.Base.{
  ℕ, false, ◌≡◌, ◌≤◌, ◌<◌, Option, none, some, List, max, ltb, ◌&&◌, if◌then◌else◌, arith,
}
use qumulus.Node.{Node, node, Keys}
use qumulus.Node.Merge.{External, Settled, settle_values, settle_delegation, is_odd}
use qumulus.Node.Merge.View.{Same}
use qumulus.TreePath.{TreePath}
use qumulus.Update.{Update}
use qumulus.Value.{Value}
use qumulus.Vis.{Vis}

-- A diff that can only delete, at a time up to `b`.
abbrev pub IsFlat : ℕ → Node → Type 0
IsFlat b (node v val ks g) = (v.updated ≡ 0) × (v.deleted ≤ b) × (g ≡ 0)

abbrev pub FlatOption : ℕ → Option Node → Type 0
FlatOption b none = Unit
FlatOption b (some p) = IsFlat b p

module _ (v : Vis) (val : Value) (dv : Vis) (dval : Value) where
  pub settle_values-updated : (settle_values v val dv dval).vis.updated ≡ max v.updated dv.updated
  unfolding settle_values
  settle_values-updated = ground arith

  pub settle_values-deleted : (settle_values v val dv dval).vis.deleted ≡ max v.deleted dv.deleted
  unfolding settle_values
  settle_values-deleted = ground arith

  pub settle_values-propagate :
      (b : ℕ) → dv.deleted ≤ b → FlatOption b (settle_values v val dv dval).propagate
  unfolding settle_values
  settle_values-propagate b h = ground arith

  -- An older diff leaves the value, unless it deletes it.
  pub settle_values-value_old :
      dv.updated ≤ v.updated → dv.deleted ≤ v.updated → (settle_values v val dv dval).value ≡ val
  unfolding settle_values
  settle_values-value_old h k = ground arith

  -- A newer diff sets the value, unless it deletes it.
  pub settle_values-value_new :
      v.updated < dv.updated
      → dv.deleted ≤ dv.updated
      → Same (settle_values v val dv dval).value dval
  unfolding settle_values
  settle_values-value_new h k = ground arith

  pub settle_values-diff_flat :
      (b : ℕ)
      → dv.updated ≡ 0
      → dv.deleted ≤ b
      → ((settle_values v val dv dval).diff_vis.updated ≡ 0)
        × ((settle_values v val dv dval).diff_vis.deleted ≤ b)
  unfolding settle_values
  settle_values-diff_flat b h k = (ground arith, ground arith)

abbrev pub newer : ℕ → ℕ → ℕ
newer g dg = if ltb 0 dg && ltb g dg then dg else g

module _ (stack : TreePath) (s : Settled) (ks : Keys) (g : ℕ) (dks : Keys) (dg : ℕ) (vis_new : Vis)
    (u : Update) (externals : List External) where
  -- Without delegations the node keeps its data.
  pub settle_delegation-node :
      is_odd g ≡ false
      → is_odd dg ≡ false
      → (settle_delegation stack s ks g dks dg vis_new u externals).node
        ≡ node s.vis s.value ks (newer g dg)
  unfolding settle_delegation
  settle_delegation-node h k = ground arith

  pub settle_delegation-externals :
      is_odd g ≡ false
      → is_odd dg ≡ false
      → (settle_delegation stack s ks g dks dg vis_new u externals).externals ≡ externals
  unfolding settle_delegation
  settle_delegation-externals h k = ground arith

  pub settle_delegation-diff :
      (settle_delegation stack s ks g dks dg vis_new u externals).diff
      ≡ node s.diff_vis s.diff_value dks (if ltb 0 dg && ltb g dg then dg else 0)
  unfolding settle_delegation
  settle_delegation-diff = ground arith

pub newer_even : (g dg : ℕ) → is_odd g ≡ false → is_odd dg ≡ false → is_odd (newer g dg) ≡ false
newer_even g dg h k = ground arith
