-- ===== src/Cluster/Handle.antt =====
-- src/cluster.rs, `ClusterHandle`: each method sends one call, and panics if the process is gone.
use qumulus.Base.{Bool, true, false, Option, none, some}
use qumulus.Cluster.{Replica, ClusterMessage}
use qumulus.Cluster.Calls
use qumulus.Cluster.Calls.{ClusterCall}
use qumulus.Node.{NodeTree}
use qumulus.TreePath.{TreePath}

-- `running` says whether the process still has the receiver.
module _ (running : Bool) where
  unfoldable pub send : ClusterCall → Option ClusterCall
  send call = elim running [ true ↦ some call | false ↦ none ]

  unfoldable pub add : Replica → Option ClusterCall
  unfolding send
  add replica = send (Calls.add replica)

  unfoldable pub sync : Option ClusterCall
  unfolding send
  sync = send Calls.sync

  unfoldable pub sync_all : Option ClusterCall
  unfolding send
  sync_all = send Calls.sync_all

  unfoldable pub sync_zone : TreePath → Option ClusterCall
  unfolding send
  sync_zone path = send (Calls.sync_zone path)

  unfoldable pub replicate : TreePath → NodeTree → Option ClusterCall
  unfolding send
  replicate path tree = send (Calls.replicate path tree)

  unfoldable pub handle_cluster_message : ClusterMessage → Option ClusterCall
  unfolding send
  handle_cluster_message message = send (Calls.handle_cluster_message message)
