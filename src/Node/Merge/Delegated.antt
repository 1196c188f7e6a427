-- ===== src/Node/Merge/Delegated.antt =====
-- What src/node.rs moves out of a tree arrives in the zones that it is moved to.
use qumulus.Base.{
  ℕ, zero, suc, false, ◌<◌, ◌≡◌, refl, ◌∙◌, ◌⊎◌, inl, inr, ap, subst, List, [], ◌∷◌, ◌++◌, is_empty,
  length, length-append, arith,
}
use qumulus.Node.{NodeTree, keys_of, default_tree}
use qumulus.Node.Merge.{External, tree_merge}
use qumulus.Node.Merge.Drained.{KeysDrained}
use qumulus.Node.Merge.Fresh.{shown, fresh_takes_over}
use qumulus.Node.Merge.Held.{data_at, Held}
use qumulus.Node.Merge.Moved.{tree_merge_keeps}
use qumulus.Node.Merge.View.{IsMap}
use qumulus.Node.Merge.Whole.{whole}
use qumulus.Node.Merge.Written.{IsWritten, IsSound, AllSound, tree_merge-AllSound}
use qumulus.TreePath.{TreePath}
use qumulus.Value.{Value}
use qumulus.Vis.{Vis}

abbrev pub IsIn : External → List External → Type 0
IsIn e [] = ⊥
IsIn e (f ∷ externals) = (f ≡ e) ⊎ IsIn e externals

-- A zone without data merges this tree. Then it has this at this path, or another such zone that it
-- delegates to is reached by it.
pub data Reaches (x : Vis × Value) : NodeTree → TreePath → Type 0 where
  here :
      {t : NodeTree} {q : TreePath}
      → x ≡ data_at (tree_merge default_tree t).tree.node q
      → Reaches x t q
  passed :
      {t : NodeTree} {q : TreePath} (e : External) (s : TreePath)
      → IsIn e (tree_merge default_tree t).externals
      → q ≡ e.path ++ s
      → Reaches x e.tree s
      → Reaches x t q

-- The same for the zones that externals are sent to.
abbrev pub Arrives : List External → TreePath → Vis × Value → Type 0
Arrives externals q x =
    (e : External) × (s : TreePath) × IsIn e externals × (q ≡ e.path ++ s) × Reaches x e.tree s

Held-IsIn :
    (ex : List External) (q : TreePath) (x : Vis × Value)
    → AllSound ex
    → Held ex q x
    → (e : External) × (s : TreePath) × IsIn e ex
      × (q ≡ e.path ++ s)
      × (data_at e.tree.node s ≡ x)
      × IsSound e
Held-IsIn [] q x a h = elim h [ ]
Held-IsIn (e ∷ ex) q x a (inl (s, at, same)) = (e, s, inl refl, at, same, a.0)
Held-IsIn (e ∷ ex) q x a (inr h) =
    let (f, s, within, at, same, sound) = Held-IsIn ex q x a.1 h in
    (f, s, inr within, at, same, sound)

shown-idempotent : (x : Vis × Value) → shown (shown x) ≡ shown x
shown-idempotent x = ground arith

shorter : (p s : TreePath) → is_empty p ≡ false → length s < length (p ++ s)
shorter [] s h = cc
shorter (k ∷ p) s h = omega (arith, length-append p s)

-- Each zone on the way is at a longer path, so that the way ends.
reaches :
    (n : ℕ) (t : NodeTree) (q : TreePath)
    → length q < n
    → IsMap t.node
    → IsWritten t.node
    → Reaches (shown (data_at t.node q)) t q
reaches zero t q short m w = absurd (omega (arith, short))
reaches (suc n) t q short m w = elim (fresh_takes_over t q m w) [
  | inl kept ↦ here kept
  | inr held ↦
      let x = shown (data_at t.node q) in
      let sound = (tree_merge-AllSound default_tree t tt ((λ h. refl), tt) w).1 in
      let (e, s, within, at, same, (em, ew, below)) =
        Held-IsIn (tree_merge default_tree t).externals q x sound held in
      passed e s within at (
        subst (λ y. Reaches y e.tree s) (ap shown same ∙ shown-idempotent (data_at t.node q))
          (reaches n e.tree s (omega (arith, shorter e.path s below, ap length at, short)) em ew))
]

-- A delegation loses nothing on its way. Take a merge, and for each external that it leaves a zone
-- without data that merges it, which may delegate to such zones in turn. At every path the same
-- merge without the delegations would leave timestamps and a value. The zone's own tree has them
-- there, or after finitely many externals there is a zone whose tree has there the timestamps, and
-- the value unless it was deleted after it was written. Before the merge the zone's delegated nodes
-- below its root hold no data, the keys of both trees ascend, and each value has the time at which
-- it was written.
pub delegation_loses_nothing :
    (t diff : NodeTree) (q : TreePath)
    → KeysDrained (keys_of t.node)
    → IsMap t.node
    → IsWritten t.node
    → IsMap diff.node
    → IsWritten diff.node
    → (data_at (whole t.node diff.node) q ≡ data_at (tree_merge t diff).tree.node q)
      ⊎ Arrives (tree_merge t diff).externals q (shown (data_at (whole t.node diff.node) q))
delegation_loses_nothing t diff q h m w dm dw = elim (tree_merge_keeps t diff q h dm) [
  | inl kept ↦ inl kept
  | inr held ↦
      let (e, s, within, at, same, (em, ew, below)) =
        Held-IsIn (tree_merge t diff).externals q _ (tree_merge-AllSound t diff m w dw).1 held in
      inr (
        e,
        s,
        within,
        at,
        subst (λ x. Reaches (shown x) e.tree s) same
            (reaches (suc (length s)) e.tree s (omega arith) em ew),
      )
]
