-- ===== src/Cluster.antt =====
-- src/cluster.rs, `Cluster`, and src/replica.rs: the replicas, and what is sent to them. A
-- `HashMap` of peers is a list; its order is any, and stands for the order of sending.
pub mod Peer
pub mod Calls
pub mod Handle
pub mod Incoming
pub mod Replicated
use qumulus.Base.{
  ℕ, ◌+◌, Bool, true, false, ◌&&◌, Option, none, some, List, [], ◌∷◌, ◌++◌, ltb, ◌==◌,
  if◌then◌else◌,
}
use qumulus.Node.{NodeTree}
use qumulus.TreePath.{TreePath}
use qumulus.Zone.Data.{ZoneData}

-- An address.
pub record Replica : Type 0 where
  pub host : ℕ
  pub port : ℕ  -- u16

abbrev pub replica_eq : Replica → Replica → Bool
replica_eq a b = a.host == b.host && a.port == b.port

-- The port of the replica, moved up; `none` is the overflow, which a debug build reports.
unfoldable pub shifted : ℕ → Replica → Option Replica
shifted n r = if ltb (r.port + n) 65536 then some (record r { port = r.port + n }) else none

abbrev pub peer_addr : Replica → Option Replica
peer_addr r = shifted 100 r

abbrev pub monitor_addr : Replica → Option Replica
monitor_addr r = shifted 200 r

pub data ClusterMessage : Type 0 where
  merge : TreePath → NodeTree → ClusterMessage
  sync : ClusterMessage

-- A peer is known by its replica.
pub record Cluster : Type 0 where
  pub id : Replica
  pub peers : List Replica
  pub replicas : List Replica

-- `merge_zone` loads the zone and merges without replicating.
pub data Effect : Type 0 where
  spawn_peer : Replica → Effect
  send_peer : Replica → ClusterMessage → Effect
  merge_zone : TreePath → NodeTree → Effect

unfoldable pub contains : Replica → List Replica → Bool
contains r [] = false
contains r (q ∷ replicas) = elim (replica_eq q r) [ true ↦ true | false ↦ contains r replicas ]

-- `HashMap::insert`.
unfoldable pub insert : Replica → List Replica → List Replica
unfolding contains
insert r peers = if contains r peers then peers else peers ++ r ∷ []

abbrev added : Cluster → Replica → Option Replica → Option (Cluster × List Effect)
added c replica none = none
added c replica (some addr) = some (
  record c { replicas = c.replicas ++ replica ∷ []; peers = insert replica c.peers },
  spawn_peer addr ∷ [],
)

unfoldable pub add : Replica → Cluster → Option (Cluster × List Effect)
unfolding contains insert shifted
add replica c =
    if replica_eq replica c.id
    then some (c, [])
    else if contains replica c.replicas
    then some (c, [])
    else added c replica (peer_addr replica)

unfoldable pub broadcast : List Replica → ClusterMessage → List Effect
broadcast [] message = []
broadcast (peer ∷ peers) message = send_peer peer message ∷ broadcast peers message

unfoldable pub replicate : TreePath → NodeTree → Cluster → List Effect
unfolding broadcast
replicate path tree c = broadcast c.peers (merge path tree)

-- The zones that the store lists, and what it loads.
module _ (stored : List TreePath) (load_data : TreePath → Option ZoneData) where
  unfoldable pub sync_zone : TreePath → Cluster → List Effect
  unfolding replicate
  sync_zone path c = elim (load_data path) [ none ↦ [] | some zone ↦ replicate path zone.tree c ]

  unfoldable pub sync_from : List TreePath → Cluster → List Effect
  unfolding sync_zone
  sync_from [] c = []
  sync_from (path ∷ paths) c = sync_zone path c ++ sync_from paths c

  unfoldable pub sync_each : Cluster → List Effect
  unfolding sync_from
  sync_each c = sync_from stored c

  unfoldable pub sync_all : Cluster → List Effect
  unfolding broadcast sync_each
  sync_all c = broadcast c.peers sync ++ sync_each c

  unfoldable pub handle_cluster_message : ClusterMessage → Cluster → List Effect
  unfolding sync_each
  handle_cluster_message (merge path tree) c = merge_zone path tree ∷ []
  handle_cluster_message sync c = sync_each c
