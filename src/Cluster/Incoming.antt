-- ===== src/Cluster/Incoming.antt =====
-- src/cluster.rs, `Server::handle_peer`: the messages of a replica that connects to this one.
use qumulus.Base.{Option, none, some, List, [], ◌∷◌}
use qumulus.Cluster.{ClusterMessage}
use qumulus.Cluster.Calls.{ClusterCall, handle_cluster_message}

-- What bincode reads one after the other; `none` is an error, at which the connection is given up.
unfoldable pub handle_peer : List (Option ClusterMessage) → List ClusterCall
handle_peer [] = []
handle_peer (none ∷ messages) = []
handle_peer (some message ∷ messages) = handle_cluster_message message ∷ handle_peer messages

-- `Server::accept_loop`: each connection is read by a thread of its own; `none` is an error of
-- `accept`, after which the loop goes on.
unfoldable pub accept_loop : List (Option (List (Option ClusterMessage))) → List (List ClusterCall)
unfolding handle_peer
accept_loop [] = []
accept_loop (none ∷ accepted) = accept_loop accepted
accept_loop (some messages ∷ accepted) = handle_peer messages ∷ accept_loop accepted
