-- ===== src/Manager/Handle.antt =====
-- src/manager.rs, `ManagerHandle`: the methods that wait for an answer, those that do not, and the
-- routing of data to the zones that it is delegated to.
pub mod Routes
use qumulus.Base.{ℕ, Bool, true, Option, none, List, [], ◌∷◌, ◌++◌, length, take}
use qumulus.Listener.{RListener}
use qumulus.Manager.Calls.{
  Called, call, handle, as_optional_zone, as_nearest, as_zone, as_boolean, as_zones,
}
use qumulus.Manager.Calls
use qumulus.Manager.Registry
use qumulus.Manager.Registry.{Manager, ZoneHandle, Effect, external_path}
use qumulus.Node.Steps.{External}
use qumulus.TreePath.{TreePath}
use qumulus.Zone.Handle
use qumulus.Zone.Handle.{Message}

unfoldable pub find : ℕ → TreePath → Manager → Called (Option ZoneHandle)
unfolding handle
find fuel path m = call as_optional_zone (handle fuel (Calls.find path) m)

unfoldable pub find_nearest : ℕ → TreePath → Manager → Called (TreePath × ZoneHandle)
unfolding handle
find_nearest fuel path m = call as_nearest (handle fuel (Calls.find_nearest path) m)

unfoldable pub load : ℕ → TreePath → Manager → Called ZoneHandle
unfolding handle
load fuel path m = call as_zone (handle fuel (Calls.load path) m)

unfoldable pub zone_loaded : ℕ → TreePath → Manager → Called Bool
unfolding handle
zone_loaded fuel path m = call as_boolean (handle fuel (Calls.zone_loaded path) m)

unfoldable pub list : ℕ → Manager → Called (List ZoneHandle)
unfolding handle
list fuel m = call as_zones (handle fuel Calls.list m)

-- The manager after a load, and the messages to the zones.
abbrev pub Routed : Type 0
Routed = Manager × List Effect × List Message

unfoldable pub send_external : TreePath → External → Bool → Manager → Routed
unfolding Registry.load external_path
send_external prefix external replicate m =
    let path = external_path prefix external.path in
    let (zone, m', sent) = Registry.load m path in
    (m', sent, Handle.merge zone external.tree replicate ∷ [])

unfoldable pub send_external_with_listeners :
    TreePath → External → List RListener → Manager → Routed
unfolding Registry.load external_path
send_external_with_listeners prefix external listeners m =
    let path = external_path prefix external.path in
    let (zone, m', sent) = Registry.load m path in
    (m', sent, Handle.merge_with_listeners zone external.tree listeners ∷ [])

-- The loop of `send_externals`, which appends to one path and truncates it to `len` again.
unfoldable pub send_from : TreePath → ℕ → List External → Manager → Routed
unfolding Registry.load
send_from path len [] m = (m, [], [])
send_from path len (external ∷ externals) m =
    let path' = path ++ external.path in
    let (zone, m', sent) = Registry.load m path' in
    let (m'', more, messages) = send_from (take len path') len externals m' in
    (m'', sent ++ more, Handle.merge zone external.tree true ∷ messages)

unfoldable pub send_externals : TreePath → List External → Manager → Routed
unfolding send_from
send_externals prefix externals m = send_from prefix (length prefix) externals m

-- The methods that do not wait put their call, without a channel for an answer, behind those that
-- the manager has yet to take.
abbrev Inbox : Type 0
Inbox = List (Option ℕ × Calls.ManagerCall)

abbrev pub cast : Calls.ManagerCall → Inbox → Inbox
cast msg inbox = inbox ++ (none, msg) ∷ []

abbrev pub zone_defer_hibernation : ZoneHandle → Inbox → Inbox
zone_defer_hibernation zone inbox = cast (Calls.signal_defer_hibernation zone) inbox

abbrev pub zone_hibernated : ZoneHandle → Inbox → Inbox
zone_hibernated zone inbox = cast (Calls.signal_hibernated zone) inbox

abbrev pub zone_request_load : ZoneHandle → Inbox → Inbox
zone_request_load zone inbox = cast (Calls.signal_request_load zone) inbox
