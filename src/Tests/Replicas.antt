-- ===== src/Tests/Replicas.antt =====
-- Two replicas of a zone, and a change that travels from one to the other.
use qumulus.Base.{ℕ, ◌≡◌, refl, ◌<◌, [], ◌∷◌, arith}
use qumulus.Node
use qumulus.Node.{Node, node, no_keys, some_keys, nil, cons}
use qumulus.Node.Merge.{node_merge}
use qumulus.Node.Merge.Joins.{default_view}
use qumulus.Node.Merge.Replicas.{effective}
use qumulus.Node.Merge.View.{updated_at, deleted_along, value_at, Same}
use qumulus.Replication.{System, Holds, Reachable, start, write, deliver, write_at, deliver_at}
use qumulus.Replication.Converges.{replicas_converge}
use qumulus.Text.{text, text_cmp}
use qumulus.TreePath.{TreePath}
use qumulus.Value.{Value, null, u64}
use qumulus.Vis
use qumulus.Vis.{vis}

-- Writes 7 at `moo` at the time 8.
abbrev change : Node
change =
    node (vis 8 0) null (some_keys (cons (text "moo") (node (vis 8 0) (u64 7) no_keys 0) nil)) 0

abbrev moo : TreePath
moo = text "moo" ∷ []

abbrev wrote : TreePath → ℕ → Value
wrote p t = value_at change p

-- The replica 0 has merged the change, and it is under way to the replica 1.
abbrev sent : System
sent =
    write_at 0 change Vis.permanent Vis.permanent (λ j. record { tree = Node.default; inbox = [] })

abbrev cut : Node
cut = (node_merge Node.default change Vis.permanent Vis.permanent).diff

abbrev arrived : System
arrived = deliver_at 1 cut [] Vis.permanent Vis.permanent sent

default-Holds : Holds wrote Node.default
default-Holds p live = absurd (omega (arith, default_view p))

sent-inbox : (sent 1).inbox ≡ cut ∷ []
unfolding node_merge Node.is_noop
sent-inbox = refl

arrived-Reachable : Reachable wrote Node.default (change ∷ []) arrived
arrived-Reachable =
    deliver 1 cut [] [] Vis.permanent Vis.permanent
      (write 0 change Vis.permanent Vis.permanent (start (refl, tt) default-Holds)
        (refl, ((refl, tt), tt)) (tt, tt, tt) (λ p h. refl))
      sent-inbox

-- Both replicas show the path.
shown_alike :
    effective Vis.permanent (arrived 0).tree moo ≡ effective Vis.permanent (arrived 1).tree moo
unfolding node_merge
shown_alike = refl

replicas_converge_example :
    (effective Vis.permanent (arrived 0).tree moo ≡ effective Vis.permanent (arrived 1).tree moo)
    × (updated_at (arrived 0).tree moo ≡ 8)
    × (deleted_along (arrived 0).tree moo ≡ 0)
    × (0 < 8
        → Same (value_at (arrived 0).tree moo) (u64 7)
          × Same (value_at (arrived 1).tree moo) (u64 7))
unfolding node_merge Node.get_child text_cmp
replicas_converge_example =
    replicas_converge wrote Node.default (change ∷ []) arrived 0 1 Vis.permanent moo
      arrived-Reachable refl refl
