-- ===== src/Lib.antt =====
-- Qumulus: a hierarchical store of JSON-like data that is kept in zones, replicated and observed.
--
-- A client's request (src/command.rs: Command) is sent to the zone that owns its path. Zones
-- (src/zone.rs: Zone.State, Zone.Data, Zone.Calls, Zone.Loop) are actors: each owns one subtree, a
-- `NodeTree` of src/node.rs, and handles calls one by one. A write, a kill, a replicated change
-- and a delegation are all merges of a diff into the subtree (Node.Steps, Node.Merge); what
-- becomes visible is sent to listeners (src/listener.rs: Listener; the JSON in Update.Reply). A
-- read walks a match specification (Node.Read; src/path.rs: TreePath). A zone that has grown
-- delegates parts of itself to new zones (src/delegate.rs: Delegate). The manager (src/manager.rs:
-- Manager.Registry) keeps the active zones by path and limits how many are loaded; the eviction
-- manager (Manager.Eviction) tells zones to hibernate. The client (src/client.rs: Client) finds
-- the zone for a command and follows the delegations in its answers. The store (src/store: Store)
-- keeps zones in files, and the cluster (src/cluster.rs: Cluster, Cluster.Peer) sends changes to
-- the other replicas.
--
-- The processes talk by messages. Manager.Calls, Store.Calls, Cluster.Calls and Zone.Loop are their
-- message loops; Manager.Handle, Zone.Handle, Cluster.Handle and Store.Handle are the methods of
-- the handles, by which a call is sent and its boxed answer taken. Client.Lines is the loop that
-- reads the lines of a client, and Client.Session runs the client's four threads (the reader, the
-- workers, the pinger and the writer) side by side as a step relation. App holds the counters of
-- src/app.rs that all parts share. Startup is src/main.rs with the channels of src/app.rs: which
-- process is started when. Server is src/server.rs and src/monitor.rs: the connections that are
-- accepted, and the statistics in JSON. Shell and Shell.Loop read the console (src/shell.rs).
-- Replication puts the merge of a zone and the sending of its diff together: the replicas of a
-- zone, each with the diffs that are under way to it, as a step relation. Zone.Persistence does the
-- same for one zone: Owed is what the store and the manager still owe it,
-- Marked which calls leave it dirty, Life the relation of its
-- rounds with the calls and the answers that reach it between them. Node.Merge.Whole is a merge
-- that never moves a part to another zone, the reference for Held, Moved
-- and Delegated (the data of delegated nodes, on its way to fresh zones); Update.Shown and
-- Update.Listened say what a listener sees of an update.
--
-- Vis, Value, Json and Text hold the data that these share: src/node.rs `Vis`, src/value.rs,
-- serde_json's values, and `String`. A `BTreeMap` is a list with ascending keys, looked up and
-- inserted into in order (Node, Update, Manager.Registry). `Option<BTreeMap>` keeps its two
-- levels: `no_keys` and `some_keys`.
--
-- The recursive `merge` returns what the source leaves in its `&mut` arguments: the node, the diff
-- cut down to changes, the update and the externals. `merge_flat` is that function at a diff
-- without keys, as it is called to propagate timestamps, so that both recur on a subterm and need
-- no fuel. A method of a zone is a function from the zone to the zone after it and what it sent,
-- or to `none`, the panic. Two loops take fuel. `find_nearest`: one step for each component and
-- one more is enough with an active root, and no number is enough without an active prefix.
-- `Client.serve`: as many steps as the delegated matches weigh, where zones name ever smaller
-- parts.
--
-- Timestamps and sizes are natural numbers; they are only compared, and sums of sizes are taken to
-- fit. Parameters stand for serde_json's reader, the clock, the numbers' floats, the random
-- numbers of the eviction manager, which channels still have a receiver, and which callers of a
-- zone still wait for their reply.
--
-- Not modelled: the sockets, threads and channels themselves (a call is an effect, and its arrival
-- an argument), how a value is formatted for debugging, the log, and the text of what is printed at
-- the start. bincode, the hasher, the reader of addresses and what the file system makes of each
-- call are arguments. A worker of the store's thread pool runs to its end before the next call, and
-- the answers that a client's worker will send are fixed when it takes the command.
pub mod Base
pub mod Text
pub mod Vis
pub mod Value
pub mod Json
pub mod TreePath
pub mod Node
pub mod Update
pub mod Delegate
pub mod Listener
pub mod Command
pub mod Replication
pub mod Zone
pub mod App
pub mod Manager
pub mod Client
pub mod Store
pub mod Cluster
pub mod Shell
pub mod Startup
pub mod Server
pub mod Tests
