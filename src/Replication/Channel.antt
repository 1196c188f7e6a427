-- ===== src/Replication/Channel.antt =====
-- The newest time that a replica has or that is under way to it.
use qumulus.Base.{ℕ, true, ◌≡◌, refl, sym, ◌∙◌, ap, List, [], ◌∷◌, ◌++◌, max, arith}
use qumulus.Node.{Node, node, no_keys, some_keys, is_noop, get_child}
use qumulus.Node.Merge.Joins.{default_view}
use qumulus.Node.Merge.Replicas.{newest}
use qumulus.Node.Merge.View.{updated_at, deleted_along}
use qumulus.Replication.{send_diff}
use qumulus.TreePath.{TreePath}
use qumulus.Vis

pub newest-max :
    (f : Node → ℕ) (b c : ℕ) (ds : List Node) → newest f (max b c) ds ≡ max c (newest f b ds)
newest-max f b c [] = omega arith
newest-max f b c (d ∷ ds) =
    let swap : max (max b c) (f d) ≡ max (max b (f d)) c = omega arith in
    ap (λ x. newest f x ds) swap ∙ newest-max f (max b (f d)) c ds

pub newest-append :
    (f : Node → ℕ) (b : ℕ) (ds es : List Node) → newest f b (ds ++ es) ≡ newest f (newest f b ds) es
newest-append f b [] es = refl
newest-append f b (d ∷ ds) es = newest-append f (max b (f d)) ds es

-- A diff counts the same before and after its arrival.
pub newest-take :
    (f : Node → ℕ) (b : ℕ) (before : List Node) (d : Node) (after : List Node)
    → newest f (max b (f d)) (before ++ after) ≡ newest f b (before ++ d ∷ after)
newest-take f b before d after =
    newest-append f (max b (f d)) before after
    ∙ ap (λ x. newest f x after) (newest-max f b (f d) before ∙ (omega arith))
    ∙ sym (newest-append f b before (d ∷ after))

pub noop-times :
    (d : Node) (p : TreePath) → is_noop d ≡ true → (updated_at d p ≡ 0) × (deleted_along d p ≡ 0)
unfolding is_noop Vis.is_noop get_child
noop-times (node v val no_keys g) [] h = (ground arith, ground arith)
noop-times (node v val no_keys g) (k ∷ p) h = let e = default_view p in (e.0, ground arith)
noop-times (node v val (some_keys c) g) p h = ground arith

-- Sending a diff, or leaving out one that says nothing.
pub newest-send_diff :
    (f : Node → ℕ) (b : ℕ) (d : Node) (ds : List Node)
    → (is_noop d ≡ true → f d ≡ 0)
    → newest f b (send_diff d ds) ≡ max (newest f b ds) (f d)
newest-send_diff f b d ds h = ground (arith, newest-append f b ds (d ∷ []))

pub newest-send_times :
    (p : TreePath) (b : ℕ) (d : Node) (ds : List Node)
    → (newest (λ x. updated_at x p) b (send_diff d ds)
        ≡ max (newest (λ x. updated_at x p) b ds) (updated_at d p))
      × (newest (λ x. deleted_along x p) b (send_diff d ds)
          ≡ max (newest (λ x. deleted_along x p) b ds) (deleted_along d p))
newest-send_times p b d ds = (
  newest-send_diff (λ x. updated_at x p) b d ds (λ h. (noop-times d p h).0),
  newest-send_diff (λ x. deleted_along x p) b d ds (λ h. (noop-times d p h).1),
)
