-- ===== src/Server.antt =====
-- src/server.rs, the loop that accepts clients, and src/monitor.rs, a server that answers every
-- connection with the counters of src/app.rs.
use qumulus.App.{Stat, Stats, ClientStats, ClusterStats, StoreStats, ZoneStats, CommandStats}
use qumulus.Base.{ℕ, suc, Bool, true, false, List, [], ◌∷◌, ◌++◌}
use qumulus.Json
use qumulus.Json.{Json}
use qumulus.Text.{Text, text}

-- What `accept` gives: a stream, whose `peer_addr` may be an error, or an error.
pub data Accepted : Type 0 where
  stream : Bool → Accepted
  failed : Accepted

-- The clients that are served, by the number of the connection, and whether the loop goes on.
unfoldable pub accept_loop : ℕ → List Accepted → List ℕ × Bool
accept_loop n [] = ([], true)
accept_loop n (stream true ∷ accepted) =
    let (clients, alive) = accept_loop (suc n) accepted in (n ∷ clients, alive)
accept_loop n (stream false ∷ accepted) = ([], false)
accept_loop n (failed ∷ accepted) = accept_loop (suc n) accepted

-- `Serialize for Stat`, and the fields that serde derives for the others.
abbrev stat_json : Stat → Json
stat_json s = Json.number (Json.of_u64 s.value)

abbrev command_stats_json : CommandStats → Json
command_stats_json s = Json.object (
    Json.field (text "bind") (stat_json s.bind) (
      Json.field (text "kill") (stat_json s.kill) (
        Json.field (text "read") (stat_json s.read)
          (Json.field (text "write") (stat_json s.write) Json.end))))

abbrev client_stats_json : ClientStats → Json
client_stats_json s = Json.object (
    Json.field (text "connects") (stat_json s.connects) (
      Json.field (text "disconnects") (stat_json s.disconnects) (
        Json.field (text "commands") (command_stats_json s.commands)
          (Json.field (text "replies") (stat_json s.replies) Json.end))))

abbrev cluster_stats_json : ClusterStats → Json
cluster_stats_json s = Json.object (
    Json.field (text "broadcast") (stat_json s.broadcast) (
      Json.field (text "handle_cluster_message") (stat_json s.handle_cluster_message) (
        Json.field (text "replicas") (stat_json s.replicas)
          (Json.field (text "replicate") (stat_json s.replicate) Json.end))))

abbrev store_stats_json : StoreStats → Json
store_stats_json s = Json.object (
    Json.field (text "reads") (stat_json s.reads) (
      Json.field (text "reads_pending") (stat_json s.reads_pending) (
        Json.field (text "reads_errors") (stat_json s.reads_errors) (
          Json.field (text "writes") (stat_json s.writes) (
            Json.field (text "writes_pending") (stat_json s.writes_pending)
              (Json.field (text "writes_errors") (stat_json s.writes_errors) Json.end))))))

abbrev zone_stats_json : ZoneStats → Json
zone_stats_json s = Json.object (
    Json.field (text "local_active") (stat_json s.local_active)
      (Json.field (text "local_loaded") (stat_json s.local_loaded) Json.end))

unfoldable pub stats_json : Stats → Json
stats_json s = Json.object (
    Json.field (text "clients") (client_stats_json s.clients) (
      Json.field (text "cluster") (cluster_stats_json s.cluster) (
        Json.field (text "store") (store_stats_json s.store)
          (Json.field (text "zones") (zone_stats_json s.zones) Json.end))))

-- The head of the monitor's response.
abbrev line_end : Text
line_end = b'\r' ∷ b'\n' ∷ []

abbrev pub response_head : Text
response_head =
    text "HTTP/1.1 200 OK"
    ++ (line_end ++ (text "Access-Control-Allow-Origin: *" ++ (line_end ++ line_end)))

-- What a monitor's connection does: whether it takes the head, and then the counters. The write of
-- the head is unwrapped, all that comes after it is not.
pub data Connection : Type 0 where
  takes : Bool → Bool → Connection
  no_connection : Connection

abbrev body_sent : Bool → Text → Text
body_sent true body = body
body_sent false body = []

-- What each connection is sent, and whether the loop goes on.
module _ (pretty : Json → Text) where
  unfoldable pub monitor_loop : List (Connection × Stats) → List Text × Bool
  unfolding stats_json
  monitor_loop [] = ([], true)
  monitor_loop ((no_connection, s) ∷ connections) = monitor_loop connections
  monitor_loop ((takes false body, s) ∷ connections) = ([], false)
  monitor_loop ((takes true body, s) ∷ connections) =
      let (sent, alive) = monitor_loop connections in
      ((response_head ++ body_sent body (pretty (stats_json s))) ∷ sent, alive)
