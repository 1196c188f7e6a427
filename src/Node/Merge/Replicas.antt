-- ===== src/Node/Merge/Replicas.antt =====
-- Replicas merge the same diffs in any order, and show the same data.
use mathlib.Core.List.{Perm, Permᴰ}
use mathlib.Core.Logic.{∥∥₁_elim}
use native.Mathlib.Nat.{ℕ_set}
use qumulus.Base.{ℕ, ◌≡◌, refl, sym, ◌∙◌, ap, ◌≤◌, ◌<◌, List, [], ◌∷◌, max, min, arith}
use qumulus.Node.{Node, vis_of}
use qumulus.Node.Merge.{node_merge, merge}
use qumulus.Node.Merge.Joins.{merge-Meets}
use qumulus.Node.Merge.Local.{merge-IsLocal}
use qumulus.Node.Merge.View.{child, updated_at, deleted_along, value_at, IsLocal, IsMap, Same}
use qumulus.TreePath.{TreePath}
use qumulus.Vis.{Vis, descend}
use qumulus.Vis.Laws.{descend-updated, descend-deleted}

-- The visibility that a reader finds at a path, going down from the ancestors' `v`.
abbrev pub effective : Vis → Node → TreePath → Vis
effective v n [] = descend v (vis_of n)
effective v n (k ∷ p) = effective (descend v (vis_of n)) (child k n) p

-- The oldest write on the way to a path.
abbrev lowest : Node → TreePath → ℕ
lowest n [] = (vis_of n).updated
lowest n (k ∷ p) = min (vis_of n).updated (lowest (child k n) p)

effective-updated :
    (v : Vis) (n : Node) (p : TreePath) → (effective v n p).updated ≡ min v.updated (lowest n p)
effective-updated v n [] = descend-updated v (vis_of n)
effective-updated v n (k ∷ p) =
    omega
      (arith, effective-updated (descend v (vis_of n)) (child k n) p, descend-updated v (vis_of n))

pub effective-deleted :
    (v : Vis) (n : Node) (p : TreePath)
    → (effective v n p).deleted ≡ max v.deleted (deleted_along n p)
effective-deleted v n [] = descend-deleted v (vis_of n)
effective-deleted v n (k ∷ p) =
    omega
      (arith, effective-deleted (descend v (vis_of n)) (child k n) p, descend-deleted v (vis_of n))

abbrev SameUpdated : Node → Node → Type 0
SameUpdated m n = (p : TreePath) → updated_at m p ≡ updated_at n p

lowest-same : (m n : Node) (p : TreePath) → SameUpdated m n → lowest m p ≡ lowest n p
lowest-same m n [] h = h []
lowest-same m n (k ∷ p) h =
    let below = lowest-same (child k m) (child k n) p (λ q. h (k ∷ q)) in
    let here = h [] in omega arith

-- Trees with the same timestamps show the same paths.
pub effective-same :
    (v : Vis) (m n : Node) (p : TreePath)
    → SameUpdated m n
    → deleted_along m p ≡ deleted_along n p
    → effective v m p ≡ effective v n p
effective-same v m n p h d =
    let low = lowest-same m n p h in
    let mu = effective-updated v m p in
    let nu = effective-updated v n p in
    let md = effective-deleted v m p in
    let nd = effective-deleted v n p in
    let a = effective v m p in
    let b = effective v n p in
    let u : a.updated ≡ b.updated = omega arith in
    let e : a.deleted ≡ b.deleted = omega arith in λ i. record { updated = u i; deleted = e i }

-- A replica merges the diffs that it is sent, one after the other.
unfoldable pub merge_all : Vis → Vis → Node → List Node → Node
unfolding node_merge
merge_all vo vn n [] = n
merge_all vo vn n (d ∷ ds) = merge_all vo vn (node_merge n d vo vn).node ds

-- Every diff is a map of undelegated nodes.
abbrev pub AllPlain : List Node → Type 0
AllPlain [] = Unit
AllPlain (d ∷ ds) = IsLocal d × IsMap d × AllPlain ds

abbrev pub newest : (Node → ℕ) → ℕ → List Node → ℕ
newest f b [] = b
newest f b (d ∷ ds) = newest f (max b (f d)) ds

-- The timestamps are the newest of the node's and of all diffs'.
merge_all-times :
    (vo vn : Vis) (n : Node) (ds : List Node) (p : TreePath)
    → IsLocal n
    → AllPlain ds
    → (updated_at (merge_all vo vn n ds) p ≡ newest (λ d. updated_at d p) (updated_at n p) ds)
      × (deleted_along (merge_all vo vn n ds) p
          ≡ newest (λ d. deleted_along d p) (deleted_along n p) ds)
unfolding merge_all
merge_all-times vo vn n [] p l a = (refl, refl)
merge_all-times vo vn n (d ∷ ds) p l a =
    let e = merge-Meets [] n d vo vn [] p l a.0 a.1 in
    let k = merge-IsLocal [] n d vo vn [] l a.0 in
    let rest = merge_all-times vo vn (merge [] n d vo vn []).node ds p k.0 a.2 in
    (
      rest.0 ∙ ap (λ x. newest (λ d. updated_at d p) x ds) e.updated,
      rest.1 ∙ ap (λ x. newest (λ d. deleted_along d p) x ds) e.deleted,
    )

newest-perm :
    (f : Node → ℕ) (b : ℕ) {ds es : List Node} → Permᴰ ds es → newest f b ds ≡ newest f b es
newest-perm f b Permᴰ.nil = refl
newest-perm f b (Permᴰ.cons {a = d} {b = e} {l₁ = ds} {l₂ = es} h r) =
    newest-perm f (max b (f d)) r ∙ ap (λ x. newest f (max b (f x)) es) h
newest-perm f b (Permᴰ.swap {a = d} {b = e} {a' = d'} {b' = e'} {l = ds} h k) =
    let m : max (max b (f d)) (f e) ≡ max (max b (f d')) (f e') = omega (arith, ap f h, ap f k) in
    ap (λ x. newest f x ds) m
newest-perm f b (Permᴰ.trans h k) = newest-perm f b h ∙ newest-perm f b k

-- Replicas that have merged the same diffs, in whatever orders and under whatever visibilities,
-- show a reader below any ancestors the same effective timestamps at every path: so the same
-- paths are visible. The diffs are maps, and neither they nor the tree hold delegations.
pub merge_all_converges :
    (vo vn vo' vn' v : Vis) (n : Node) (ds es : List Node) (p : TreePath)
    → IsLocal n
    → AllPlain ds
    → AllPlain es
    → Perm ds es
    → effective v (merge_all vo vn n ds) p ≡ effective v (merge_all vo' vn' n es) p
merge_all_converges vo vn vo' vn' v n ds es p l a b h =
    let times = merge_all-times vo vn n ds in
    let times' = merge_all-times vo' vn' n es in
    effective-same v (merge_all vo vn n ds) (merge_all vo' vn' n es) p
      (λ q.
        (times q l a).0
        ∙ ∥∥₁_elim h (ℕ_set _ _) (newest-perm (λ d. updated_at d q) (updated_at n q))
        ∙ sym (times' q l b).0)
      ((times p l a).1
        ∙ ∥∥₁_elim h (ℕ_set _ _) (newest-perm (λ d. deleted_along d p) (deleted_along n p))
        ∙ sym (times' p l b).1)

-- Every diff wrote at the path before the time `t`.
abbrev pub AllOlder : ℕ → TreePath → List Node → Type 0
AllOlder t p [] = Unit
AllOlder t p (d ∷ ds) = (updated_at d p < t) × AllOlder t p ds

pub merge_all-IsLocal :
    (vo vn : Vis) (n : Node) (ds : List Node)
    → IsLocal n
    → AllPlain ds
    → IsLocal (merge_all vo vn n ds)
unfolding merge_all
merge_all-IsLocal vo vn n [] l a = l
merge_all-IsLocal vo vn n (d ∷ ds) l a =
    merge_all-IsLocal vo vn (merge [] n d vo vn []).node ds (merge-IsLocal [] n d vo vn [] l a.0).0
      a.2

newest_older :
    (t b : ℕ) (p : TreePath) (ds : List Node)
    → b < t
    → AllOlder t p ds
    → newest (λ d. updated_at d p) b ds < t
newest_older t b p [] h a = h
newest_older t b p (d ∷ ds) h a = newest_older t (max b (updated_at d p)) p ds (omega arith) a.1

pub le-newest : (f : Node → ℕ) (b : ℕ) (ds : List Node) → b ≤ newest f b ds
le-newest f b [] = omega arith
le-newest f b (d ∷ ds) = omega (arith, le-newest f (max b (f d)) ds)

-- Older diffs leave the value, as long as none of them deletes it.
merge_all-keeps :
    (vo vn : Vis) (n : Node) (ds : List Node) (p : TreePath)
    → IsLocal n
    → AllPlain ds
    → AllOlder (updated_at n p) p ds
    → deleted_along (merge_all vo vn n ds) p < updated_at n p
    → value_at (merge_all vo vn n ds) p ≡ value_at n p
unfolding merge_all
merge_all-keeps vo vn n [] p l a o h = refl
merge_all-keeps vo vn n (d ∷ ds) p l a o h =
    let e = merge-Meets [] n d vo vn [] p l a.0 a.1 in
    let m = (merge [] n d vo vn []).node in
    let k = merge-IsLocal [] n d vo vn [] l a.0 in
    let same : updated_at m p ≡ updated_at n p = omega (arith, e.updated) in
    let times = merge_all-times vo vn m ds p k.0 a.2 in
    let grows = le-newest (λ x. deleted_along x p) (deleted_along m p) ds in
    merge_all-keeps vo vn m ds p k.0 a.2 (rw same o.1) (rw same h)
    ∙ e.older_value (omega arith) (omega arith)

-- The last write wins, in a tree without delegated nodes and for diffs that delegate nothing and
-- whose keys ascend: where one diff `d` wrote later than the tree and than all other diffs, and no
-- delete at or above the path is as late, the tree holds there what `d` wrote, whenever `d` is
-- merged.
pub last_write_wins :
    (vo vn : Vis) (n : Node) (before : List Node) (d : Node) (later : List Node) (p : TreePath)
    → IsLocal n
    → AllPlain before
    → AllPlain (d ∷ later)
    → updated_at n p < updated_at d p
    → AllOlder (updated_at d p) p before
    → AllOlder (updated_at d p) p later
    → deleted_along (merge_all vo vn (merge_all vo vn n before) (d ∷ later)) p < updated_at d p
    → Same (value_at (merge_all vo vn (merge_all vo vn n before) (d ∷ later)) p) (value_at d p)
unfolding merge_all
last_write_wins vo vn n before d later p l a b h o q live =
    let n1 = merge_all vo vn n before in
    let l1 = merge_all-IsLocal vo vn n before l a in
    let u1 = (merge_all-times vo vn n before p l a).0 in
    let old = newest_older (updated_at d p) (updated_at n p) p before h o in
    let e = merge-Meets [] n1 d vo vn [] p l1 b.0 b.1 in
    let m = (merge [] n1 d vo vn []).node in
    let k = merge-IsLocal [] n1 d vo vn [] l1 b.0 in
    let same : updated_at m p ≡ updated_at d p = omega (arith, e.updated) in
    let times = merge_all-times vo vn m later p k.0 b.2 in
    let grows = le-newest (λ x. deleted_along x p) (deleted_along m p) later in
    rw (merge_all-keeps vo vn m later p k.0 b.2 (rw same q) (rw same live))
      (e.newer_value (omega arith) (omega arith))
