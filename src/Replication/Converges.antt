-- ===== src/Replication/Converges.antt =====
-- The replicas of a zone converge: what a cut-down diff leaves out, the others have or get.
use qumulus.Base.{
  ℕ, Bool, true, false, ◌≡◌, refl, sym, ◌∙◌, ap, subst, ◌<◌, List, [], ◌∷◌, ◌++◌, max, ◌==◌,
  if◌then◌else◌, arith,
}
use qumulus.Node.{Node, is_noop}
use qumulus.Node.Merge.{node_merge, merge}
use qumulus.Node.Merge.CutDown.{merge-CutDown}
use qumulus.Node.Merge.Joins.{merge-Meets}
use qumulus.Node.Merge.Replicas.{newest, le-newest, effective, effective-same}
use qumulus.Node.Merge.View.{IsLocal, IsMap, updated_at, deleted_along, value_at, Same}
use qumulus.Replication.{Site, System, write_at, deliver_at, Reachable, start, write, deliver}
use qumulus.Replication.Content.{IsSound, AllGood, AllGood-take, write-IsSound, deliver-IsSound}
use qumulus.Replication.Channel.{newest-max, newest-take, newest-send_diff, noop-times}
use qumulus.TreePath.{TreePath}
use qumulus.Value.{Value}
use qumulus.Vis.{Vis}

-- The newest time at a replica, what is under way to it included.
abbrev total : (Node → ℕ) → Site → ℕ
total f s = newest f (f s.tree) s.inbox

-- A time of a path: of the last write there, or of the last delete that reaches it.
abbrev IsTime : (Node → ℕ) → Type 0
IsTime f =
    (n d : Node) (vo vn : Vis)
    → IsLocal n
    → IsLocal d
    → IsMap d
    → let m = node_merge n d vo vn in
      (f m.node ≡ max (f n) (f d))
      × (max (f n) (f m.diff) ≡ max (f n) (f d))
      × (is_noop m.diff ≡ true → f m.diff ≡ 0)

updated-IsTime : (p : TreePath) → IsTime (λ n. updated_at n p)
unfolding node_merge
updated-IsTime p n d vo vn l e m = (
  (merge-Meets [] n d vo vn [] p l e m).updated,
  (merge-CutDown [] n d vo vn [] p l e).written,
  λ h. (noop-times (merge [] n d vo vn []).diff p h).0,
)

deleted-IsTime : (p : TreePath) → IsTime (λ n. deleted_along n p)
unfolding node_merge
deleted-IsTime p n d vo vn l e m = (
  (merge-Meets [] n d vo vn [] p l e m).deleted,
  (merge-CutDown [] n d vo vn [] p l e).deleted,
  λ h. (noop-times (merge [] n d vo vn []).diff p h).1,
)

-- The newest time at every replica, what is under way to it included, is `t`.
abbrev Has : (Node → ℕ) → ℕ → System → Type 0
Has f t sys = (j : ℕ) → total f (sys j) ≡ t

total-if :
    (f : Node → ℕ) (b : Bool) (s s' : Site) (t : ℕ)
    → total f s ≡ t
    → total f s' ≡ t
    → total f (if b then s else s') ≡ t
total-if f true s s' t h k = h
total-if f false s s' t h k = k

-- A change counts at once for every replica.
write-Has :
    (f : Node → ℕ) (t : ℕ) (sys : System) (i : ℕ) (d : Node) (vo vn : Vis)
    → IsTime f
    → Has f t sys
    → IsLocal (sys i).tree
    → IsLocal d
    → IsMap d
    → Has f (max t (f d)) (write_at i d vo vn sys)
write-Has f t sys i d vo vn time has l e m j =
    let n = (sys i).tree in
    let r = node_merge n d vo vn in
    let c = time n d vo vn l e m in
    let low = le-newest f (f n) (sys i).inbox in
    let hi : newest f (f n) (sys i).inbox ≡ t = has i in
    let hj : newest f (f (sys j).tree) (sys j).inbox ≡ t = has j in
    let here : newest f (f r.node) (sys i).inbox ≡ max t (f d) =
      rw c.0 (omega (arith, newest-max f (f n) (f d) (sys i).inbox)) in
    let there = newest-send_diff f (f (sys j).tree) r.diff (sys j).inbox c.2 in
    total-if f (j == i) _ _ _ here (omega (arith, c.1))

-- An arrival changes nothing of what is, or is to be, at a replica.
deliver-Has :
    (f : Node → ℕ) (t : ℕ) (sys : System) (i : ℕ) (d : Node) (before after : List Node)
    (vo vn : Vis)
    → IsTime f
    → Has f t sys
    → IsLocal (sys i).tree
    → IsLocal d
    → IsMap d
    → (sys i).inbox ≡ before ++ d ∷ after
    → Has f t (deliver_at i d (before ++ after) vo vn sys)
deliver-Has f t sys i d before after vo vn time has l e m h j =
    let n = (sys i).tree in
    let r = node_merge n d vo vn in
    let here : newest f (f r.node) (before ++ after) ≡ t =
      rw (time n d vo vn l e m).0
        (newest-take f (f n) before d after ∙ ap (newest f (f n)) (sym h) ∙ has i) in
    total-if f (j == i) _ _ _ here (has j)

-- The newest time of the first tree and of all changes.
abbrev latest : (Node → ℕ) → Node → List Node → ℕ
latest f n ds = newest f (f n) ds

latest-cons :
    (f : Node → ℕ) (n d : Node) (ds : List Node) → max (latest f n ds) (f d) ≡ latest f n (d ∷ ds)
latest-cons f n d ds = omega (arith, newest-max f (f n) (f d) ds)

-- All that holds of a reachable system.
record Inv (wrote : TreePath → ℕ → Value) (n : Node) (ds : List Node) (sys : System) : Type 0 where
  sound : (j : ℕ) → IsSound wrote (sys j)
  times : (f : Node → ℕ) → IsTime f → Has f (latest f n ds) sys

Reachable-Inv :
    {wrote : TreePath → ℕ → Value} {n : Node} {ds : List Node} {sys : System}
    → Reachable wrote n ds sys
    → Inv wrote n ds sys
Reachable-Inv (start l h) = record { sound = λ j. (l, h, tt); times = λ f t j. refl }
Reachable-Inv {wrote} {n} (write {ds} {sys} i d vo vn r e m w) =
    let inv = Reachable-Inv r in
    record {
      sound = write-IsSound wrote sys i d vo vn inv.sound (e, m, w);
      times = λ f t j.
          write-Has f (latest f n ds) sys i d vo vn t (inv.times f t) (inv.sound i).0 e m j
          ∙ latest-cons f n d ds;
    }
Reachable-Inv {wrote} {n} (deliver {ds} {sys} i d before after vo vn r h) =
    let inv = Reachable-Inv r in
    let (e, m, w) =
      (AllGood-take wrote before d after (subst (AllGood wrote) h (inv.sound i).2)).0 in
    record {
      sound = deliver-IsSound wrote sys i d before after vo vn inv.sound h;
      times = λ f t.
          deliver-Has f (latest f n ds) sys i d before after vo vn t (inv.times f t) (inv.sound i).0
            e m h;
    }

arrived :
    (f : Node → ℕ) (t : ℕ) (sys : System) (i : ℕ)
    → Has f t sys
    → (sys i).inbox ≡ []
    → f (sys i).tree ≡ t
arrived f t sys i has a = sym (ap (newest f (f (sys i).tree)) a) ∙ has i

-- The replicas of a zone converge: after any changes and arrivals, in any order, two replicas with
-- nothing under way to them have the newest times of all changes, show the same paths to a reader
-- below any ancestors, and hold at each path that is not deleted what was written there at the
-- newest time, as the program compares values. They start from one tree, the changes are maps
-- without delegations, and no two of them write different values at one path and time.
pub replicas_converge :
    (wrote : TreePath → ℕ → Value) (n : Node) (ds : List Node) (sys : System) (i j : ℕ) (v : Vis)
    (p : TreePath)
    → Reachable wrote n ds sys
    → (sys i).inbox ≡ []
    → (sys j).inbox ≡ []
    → let newest_write = newest (λ d. updated_at d p) (updated_at n p) ds in
      let newest_delete = newest (λ d. deleted_along d p) (deleted_along n p) ds in
      (effective v (sys i).tree p ≡ effective v (sys j).tree p)
      × (updated_at (sys i).tree p ≡ newest_write)
      × (deleted_along (sys i).tree p ≡ newest_delete)
      × (newest_delete < newest_write
          → Same (value_at (sys i).tree p) (wrote p newest_write)
            × Same (value_at (sys j).tree p) (wrote p newest_write))
replicas_converge wrote n ds sys i j v p r a b =
    let inv = Reachable-Inv r in
    let at = λ (k : ℕ) (h : (sys k).inbox ≡ []) (q : TreePath).
      arrived (λ d. updated_at d q) _ sys k (inv.times _ (updated-IsTime q)) h in
    let gone = λ (k : ℕ) (h : (sys k).inbox ≡ []).
      arrived (λ d. deleted_along d p) _ sys k (inv.times _ (deleted-IsTime p)) h in
    let ui = at i a p in
    let uj = at j b p in
    let xi = gone i a in
    let xj = gone j b in
    (
      effective-same v (sys i).tree (sys j).tree p (λ q. at i a q ∙ sym (at j b q)) (xi ∙ sym xj),
      ui,
      xi,
      λ live. (
        subst (λ t. Same (value_at (sys i).tree p) (wrote p t)) ui
            ((inv.sound i).1 p (omega (arith, ui, xi))),
        subst (λ t. Same (value_at (sys j).tree p) (wrote p t)) uj
            ((inv.sound j).1 p (omega (arith, uj, xj))),
      ),
    )
