-- ===== src/Cluster/Calls.antt =====
-- src/cluster.rs, `ClusterCall`, `ClusterHandle` and the message loop.
use qumulus.Base.{Option, none, some, List, [], ◌∷◌, ◌++◌}
use qumulus.Cluster
use qumulus.Cluster.{Cluster, ClusterMessage, Replica, Effect}
use qumulus.Node.{NodeTree}
use qumulus.TreePath.{TreePath}
use qumulus.Zone.Data.{ZoneData}

-- `ClusterHandle` sends each call by a method of the same name.
pub data ClusterCall : Type 0 where
  add : Replica → ClusterCall
  handle_cluster_message : ClusterMessage → ClusterCall
  replicate : TreePath → NodeTree → ClusterCall
  sync : ClusterCall
  sync_all : ClusterCall
  sync_zone : TreePath → ClusterCall

abbrev only_sends : Cluster → List Effect → Option (Cluster × List Effect)
only_sends c sent = some (c, sent)

abbrev prepend : List Effect → Option (Cluster × List Effect) → Option (Cluster × List Effect)
prepend sent none = none
prepend sent (some (c, more)) = some (c, sent ++ more)

-- The zones that the store lists, and what it loads.
module _ (stored : List TreePath) (load_data : TreePath → Option ZoneData) where
  unfoldable pub handle : ClusterCall → Cluster → Option (Cluster × List Effect)
  unfolding Cluster.add Cluster.handle_cluster_message Cluster.replicate Cluster.sync_each
      Cluster.sync_all Cluster.sync_zone
  handle (add replica) c = Cluster.add replica c
  handle (handle_cluster_message message) c =
      only_sends c (Cluster.handle_cluster_message stored load_data message c)
  handle (replicate path tree) c = only_sends c (Cluster.replicate path tree c)
  handle sync c = only_sends c (Cluster.sync_each stored load_data c)
  handle sync_all c = only_sends c (Cluster.sync_all stored load_data c)
  handle (sync_zone path) c = only_sends c (Cluster.sync_zone stored load_data path c)

  -- The loop over the calls that arrive; `none` is a panic.
  unfoldable pub message_loop : List ClusterCall → Cluster → Option (Cluster × List Effect)
  unfolding handle
  message_loop [] c = some (c, [])
  message_loop (call ∷ calls) c = elim (handle call c) [
    | none ↦ none
    | some (c', sent) ↦ prepend sent (message_loop calls c')
  ]
