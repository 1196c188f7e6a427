-- ===== src/Replication/Content.antt =====
-- What the replicas of a zone hold at a path is what was written there.
use qumulus.Base.{
  Bool, true, false, ◌≡◌, refl, sym, ap, ◌∙◌, subst, ◌<◌, ◌≤◌, ◌⊎◌, inl, inr, ℕ, List, [], ◌∷◌,
  ◌++◌, ◌==◌, if◌then◌else◌, ltb, arith,
}
use qumulus.Node.{Node, is_noop}
use qumulus.Node.Merge.{node_merge, merge}
use qumulus.Node.Merge.CutDown.{merge-CutDown}
use qumulus.Node.Merge.DiffShape.{merge_diff-IsLocal, merge_diff-IsMap}
use qumulus.Node.Merge.Joins.{merge-Meets}
use qumulus.Node.Merge.Local.{merge-IsLocal}
use qumulus.Node.Merge.View.{IsLocal, IsMap, updated_at}
use qumulus.Replication.{Site, System, send_diff, write_at, deliver_at, Writes, Holds}
use qumulus.TreePath.{TreePath}
use qumulus.Value.{Value}
use qumulus.Vis.{Vis}

-- A diff that may be sent.
abbrev pub IsGood : (TreePath → ℕ → Value) → Node → Type 0
IsGood wrote d = IsLocal d × IsMap d × Writes wrote d

abbrev pub AllGood : (TreePath → ℕ → Value) → List Node → Type 0
AllGood wrote [] = Unit
AllGood wrote (d ∷ ds) = IsGood wrote d × AllGood wrote ds

-- A replica with what is under way to it.
abbrev pub IsSound : (TreePath → ℕ → Value) → Site → Type 0
IsSound wrote s = IsLocal s.tree × Holds wrote s.tree × AllGood wrote s.inbox

lt_or_le : (a b : ℕ) → (a < b) ⊎ (b ≤ a)
lt_or_le a b =
    elim (ltb a b) as (λ x. ltb a b ≡ x → (a < b) ⊎ (b ≤ a)) [
      | true ↦ λ h. inl (ground arith)
      | false ↦ λ h. inr (ground arith)
    ]
      refl

merged-IsLocal :
    (n d : Node) (vo vn : Vis) → IsLocal n → IsLocal d → IsLocal (node_merge n d vo vn).node
unfolding node_merge
merged-IsLocal n d vo vn l e = (merge-IsLocal [] n d vo vn [] l e).0

module _ (wrote : TreePath → ℕ → Value) where
  AllGood-append :
      (ds : List Node) (d : Node) → AllGood wrote ds → IsGood wrote d → AllGood wrote (ds ++ d ∷ [])
  AllGood-append [] d a g = (g, tt)
  AllGood-append (e ∷ ds) d a g = (a.0, AllGood-append ds d a.1 g)

  pub AllGood-take :
      (before : List Node) (d : Node) (after : List Node)
      → AllGood wrote (before ++ d ∷ after)
      → IsGood wrote d × AllGood wrote (before ++ after)
  AllGood-take [] d after a = a
  AllGood-take (e ∷ before) d after a =
      let rest = AllGood-take before d after a.1 in (rest.0, (a.0, rest.1))

  send_diff-AllGood :
      (d : Node) (ds : List Node)
      → AllGood wrote ds
      → IsGood wrote d
      → AllGood wrote (send_diff d ds)
  send_diff-AllGood d ds a g =
      elim (is_noop d) as (λ b. AllGood wrote (if b then ds else ds ++ d ∷ [])) [
        | true ↦ a
        | false ↦ AllGood-append ds d a g
      ]

  -- What is cut down of a diff writes what the diff wrote.
  merge_diff-IsGood :
      (n d : Node) (vo vn : Vis)
      → IsLocal n
      → IsGood wrote d
      → IsGood wrote (node_merge n d vo vn).diff
  unfolding node_merge
  merge_diff-IsGood n d vo vn l (e, m, w) = (
    merge_diff-IsLocal [] n d vo vn [] e,
    merge_diff-IsMap [] n d vo vn [] m,
    λ p h.
        let c = (merge-CutDown [] n d vo vn [] p l e).content h in
        c.1 ∙ w p (omega (arith, c.0)) ∙ ap (wrote p) (sym c.0),
  )

  merge-Holds :
      (n d : Node) (vo vn : Vis)
      → IsLocal n
      → IsGood wrote d
      → Holds wrote n
      → Holds wrote (node_merge n d vo vn).node
  unfolding node_merge
  merge-Holds n d vo vn l (e, m, w) h p live =
      let t = merge-Meets [] n d vo vn [] p l e m in
      elim (lt_or_le (updated_at n p) (updated_at d p)) [
        | inl newer ↦
            let same : updated_at (merge [] n d vo vn []).node p ≡ updated_at d p =
              omega (arith, t.updated) in
            rw (same, ← w p (omega arith)) (t.newer_value newer live)
        | inr older ↦
            let same : updated_at (merge [] n d vo vn []).node p ≡ updated_at n p =
              omega (arith, t.updated) in
            rw (same, t.older_value older live) (h p (omega (arith, t.updated, t.deleted)))
      ]

  IsSound-if :
      (b : Bool) (s s' : Site)
      → IsSound wrote s
      → IsSound wrote s'
      → IsSound wrote (if b then s else s')
  IsSound-if true s s' h k = h
  IsSound-if false s s' h k = k

  pub write-IsSound :
      (sys : System) (i : ℕ) (d : Node) (vo vn : Vis)
      → ((j : ℕ) → IsSound wrote (sys j))
      → IsGood wrote d
      → (j : ℕ) → IsSound wrote (write_at i d vo vn sys j)
  write-IsSound sys i d vo vn h g j =
      let (l, holds, inbox) = h i in
      let (lj, hj, aj) = h j in
      IsSound-if (j == i) _ _
        (
          merged-IsLocal (sys i).tree d vo vn l g.0,
          merge-Holds (sys i).tree d vo vn l g holds,
          inbox,
        )
        (lj, hj, send_diff-AllGood _ (sys j).inbox aj (merge_diff-IsGood (sys i).tree d vo vn l g))

  pub deliver-IsSound :
      (sys : System) (i : ℕ) (d : Node) (before after : List Node) (vo vn : Vis)
      → ((j : ℕ) → IsSound wrote (sys j))
      → (sys i).inbox ≡ before ++ d ∷ after
      → (j : ℕ) → IsSound wrote (deliver_at i d (before ++ after) vo vn sys j)
  deliver-IsSound sys i d before after vo vn h e j =
      let (l, holds, inbox) = h i in
      let (g, rest) = AllGood-take before d after (subst (AllGood wrote) e inbox) in
      IsSound-if (j == i) _ _
        (
          merged-IsLocal (sys i).tree d vo vn l g.0,
          merge-Holds (sys i).tree d vo vn l g holds,
          rest,
        )
        (h j)
