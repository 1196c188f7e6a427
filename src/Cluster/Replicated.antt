-- ===== src/Cluster/Replicated.antt =====
-- To whom src/cluster.rs `Cluster` replicates.
use qumulus.Base.{
  ◌≡◌, refl, sym, ◌∙◌, ap, subst, ◌⊎◌, true, false, ◌||◌, some, List, [], ◌∷◌, ◌++◌, if◌then◌else◌,
  arith, Bool-cases, inl, inr,
}
use qumulus.Cluster.{
  Replica, Cluster, ClusterMessage, Effect, send_peer, merge, replica_eq, contains, insert, add,
  replicate, broadcast,
}
use qumulus.Node.{NodeTree}
use qumulus.TreePath.{TreePath}

abbrev pub NoDup : List Replica → Type 0
NoDup [] = Unit
NoDup (r ∷ replicas) = (contains r replicas ≡ false) × NoDup replicas

-- The peers are the replicas, each once, and never this one itself.
pub record IsValid (c : Cluster) : Type 0 where
  pub same : c.peers ≡ c.replicas
  pub once : NoDup c.replicas
  pub others : contains c.id c.replicas ≡ false

contains-snoc :
    (r q : Replica) (replicas : List Replica)
    → contains r (replicas ++ q ∷ []) ≡ (contains r replicas || replica_eq q r)
unfolding contains
contains-snoc r q [] = ground arith
contains-snoc r q (p ∷ replicas) = ground (arith, contains-snoc r q replicas)

replica_eq_swap : (a b : Replica) → replica_eq a b ≡ replica_eq b a
replica_eq_swap a b = ground arith

NoDup-snoc :
    (q : Replica) (replicas : List Replica)
    → contains q replicas ≡ false
    → NoDup replicas
    → NoDup (replicas ++ q ∷ [])
unfolding contains
NoDup-snoc q [] h n = (refl, tt)
NoDup-snoc q (p ∷ replicas) h n = (
  ground (arith, contains-snoc p q replicas, replica_eq_swap p q, n.0),
  NoDup-snoc q replicas (ground arith) n.1,
)

insert-absent :
    (r : Replica) (peers : List Replica)
    → contains r peers ≡ false
    → insert r peers ≡ peers ++ r ∷ []
unfolding insert
insert-absent r peers h = ground arith

abbrev extended : Cluster → Replica → Cluster
extended c r = record c { replicas = c.replicas ++ r ∷ []; peers = insert r c.peers }

extended-IsValid :
    (r : Replica) (c : Cluster)
    → replica_eq r c.id ≡ false
    → contains r c.replicas ≡ false
    → IsValid c
    → IsValid (extended c r)
extended-IsValid r c d a v = record {
  same = insert-absent r c.peers (ap (contains r) v.same ∙ a) ∙ ap (λ x. x ++ r ∷ []) v.same;
  once = NoDup-snoc r c.replicas a v.once;
  others = ground (arith, contains-snoc c.id r c.replicas, v.others);
}

add_cases :
    (r : Replica) (c : Cluster) {c' : Cluster} {sent : List Effect}
    → add r c ≡ some (c', sent)
    → (c ≡ c')
      ⊎ ((replica_eq r c.id ≡ false) × (contains r c.replicas ≡ false) × (extended c r ≡ c'))
unfolding add
add_cases r c {c' = c'} e = elim (Bool-cases (replica_eq r c.id)) [
  | inl h ↦ inl (ground arith)
  | inr h ↦ elim (Bool-cases (contains r c.replicas)) [
    | inl k ↦ inl (ground arith)
    | inr k ↦ inr (h, k, ground arith)
  ]
]

-- Adding a replica keeps the peers the other replicas, each once: adding one again, or the
-- cluster's own address, does nothing.
pub add-IsValid :
    (r : Replica) (c : Cluster) {c' : Cluster} {sent : List Effect}
    → add r c ≡ some (c', sent)
    → IsValid c
    → IsValid c'
add-IsValid r c e v = elim (add_cases r c e) [
  | inl same ↦ subst IsValid same v
  | inr (h, k, same) ↦ subst IsValid same (extended-IsValid r c h k v)
]

-- The messages to one replica, in their order.
abbrev pub sent_to : Replica → List Effect → List ClusterMessage
sent_to r [] = []
sent_to r (send_peer q message ∷ sent) =
    if replica_eq q r then message ∷ sent_to r sent else sent_to r sent
sent_to r (_ ∷ sent) = sent_to r sent

broadcast-absent :
    (r : Replica) (peers : List Replica) (message : ClusterMessage)
    → contains r peers ≡ false
    → sent_to r (broadcast peers message) ≡ []
unfolding contains broadcast
broadcast-absent r [] message h = refl
broadcast-absent r (q ∷ peers) message h = ground (arith, broadcast-absent r peers message)

eq_of_replica_eq : (a b : Replica) → replica_eq a b ≡ true → a ≡ b
eq_of_replica_eq a b h = ground arith

broadcast_once :
    (r : Replica) (peers : List Replica) (message : ClusterMessage)
    → NoDup peers
    → sent_to r (broadcast peers message) ≡ (if contains r peers then message ∷ [] else [])
unfolding contains broadcast
broadcast_once r [] message n = refl
broadcast_once r (q ∷ peers) message n = elim (Bool-cases (replica_eq q r)) [
  | inl h ↦
      let absent : contains r peers ≡ false =
        subst (λ x. contains x peers ≡ false) (eq_of_replica_eq q r h) n.0 in
      ground (arith, broadcast-absent r peers message absent)
  | inr h ↦ ground (arith, broadcast_once r peers message n.1)
]

-- Where the peers are the other replicas, each once, a change is sent to every one of them once, with
-- its path and its diff and nothing else. Nothing is sent to anybody else, nor back to this one.
pub replicate_once :
    (r : Replica) (path : TreePath) (tree : NodeTree) (c : Cluster)
    → IsValid c
    → (sent_to r (replicate path tree c)
        ≡ (if contains r c.replicas then merge path tree ∷ [] else []))
      × (sent_to c.id (replicate path tree c) ≡ [])
unfolding replicate
replicate_once r path tree c v =
    let once : NoDup c.peers = subst NoDup (sym v.same) v.once in
    let mine : contains c.id c.peers ≡ false = ap (contains c.id) v.same ∙ v.others in
    (
      broadcast_once r c.peers (merge path tree) once
          ∙ ap (λ x. if contains r x then merge path tree ∷ [] else []) v.same,
      broadcast-absent c.id c.peers (merge path tree) mine,
    )
