-- ===== src/Tests/Clusters.antt =====
-- A cluster of three replicas, and a peer whose connection fails once.
use qumulus.Base.{ℕ, ◌≡◌, refl, true, false, some, none, [], ◌∷◌, ◌++◌, if◌then◌else◌}
use qumulus.Cluster
use qumulus.Cluster.{
  merge, Replica, Cluster, ClusterMessage, Effect, add, contains, replicate, spawn_peer,
}
use qumulus.Cluster.Peer.{PeerState, Runs, round, waiting, spawned, peer_keeps_order}
use qumulus.Cluster.Replicated.{IsValid, replicate_once, sent_to}
use qumulus.Node

abbrev replica : ℕ → Replica
replica port = record { host = 1; port = port }

abbrev two : Cluster
two = record { id = replica 1000; peers = replica 1001 ∷ []; replicas = replica 1001 ∷ [] }

abbrev three : Cluster
three = record {
  id = replica 1000;
  peers = replica 1001 ∷ replica 1002 ∷ [];
  replicas = replica 1001 ∷ replica 1002 ∷ [];
}

two-IsValid : IsValid two
unfolding contains
two-IsValid = record { same = refl; once = (refl, tt); others = refl }

three-IsValid : IsValid three
unfolding contains
three-IsValid = record { same = refl; once = (refl, (refl, tt)); others = refl }

added : add (replica 1002) two ≡ some (three, spawn_peer (replica 1102) ∷ [])
unfolding add contains Cluster.insert Cluster.shifted
added = refl

added_self : add (replica 1000) two ≡ some (two, [])
unfolding add
added_self = refl

replicate_once_example :
    (sent_to (replica 1002) (replicate [] Node.default_tree three)
      ≡ (if contains (replica 1002) three.replicas then merge [] Node.default_tree ∷ [] else []))
    × (sent_to three.id (replicate [] Node.default_tree three) ≡ [])
replicate_once_example = replicate_once (replica 1002) [] Node.default_tree three three-IsValid

abbrev after_failure : PeerState
after_failure = record { pending = some ClusterMessage.sync; connected = false; inbox = [] }

abbrev after_retry : PeerState
after_retry = record { pending = none; connected = true; inbox = [] }

-- One message arrives, is not written, and is written in the next round.
retried : Runs spawned (ClusterMessage.sync ∷ []) (ClusterMessage.sync ∷ []) after_retry
unfolding round
retried = Runs.arrives ClusterMessage.sync (
    Runs.rounds {s' = after_failure} {sent = []} true false refl
      (Runs.rounds {s' = after_retry} {sent = ClusterMessage.sync ∷ []} true true refl Runs.done))

peer_keeps_order_example :
    (ClusterMessage.sync ∷ []) ++ waiting after_retry ≡ waiting spawned ++ ClusterMessage.sync ∷ []
peer_keeps_order_example = peer_keeps_order retried
