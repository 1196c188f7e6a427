-- ===== src/Zone/Calls.antt =====
-- src/zone.rs: the handlers of `Zone`.
use qumulus.Base.{
  ℕ, suc, Bool, true, false, not, ◌&&◌, Option, none, some, List, [], ◌∷◌, ◌++◌, leb, if◌then◌else◌,
  is_empty,
}
use qumulus.Command
use qumulus.Command.{Command}
use qumulus.Delegate
use qumulus.Json.{Json, Number}
use qumulus.Listener
use qumulus.Listener.{Listener, RListener}
use qumulus.Node
use qumulus.Node.{NodeTree}
use qumulus.Node.Expand.{expand_from}
use qumulus.Node.Merge.{External, tree_merge}
use qumulus.Node.Read.{tree_read}
use qumulus.TreePath.{TreePath}
use qumulus.Update.{Update}
use qumulus.Vis
use qumulus.Zone.Data.{
  ZoneData, ZoneResult, ZoneCall, Effect, reply_result, reply_dump, reply_size, reply_state,
  notify_listener, hibernated, defer_hibernation, send_external, send_external_with_listeners,
  store_load, store_write, request_write, replicate, no_result, set_tree, M, ◌>>=◌, ◌>>◌, pure, get,
  modify, send, panic, set_state, when,
}
use qumulus.Zone.State

-- `listeners.retain(|l| l.update(update).is_ok())`: a listener whose channel is closed goes, once
-- there is something to send to it. `alive` says which channels have a receiver.
unfoldable pub notify_all : (ℕ → Bool) → List Listener → Option Update → List Listener × List Effect
unfolding Listener.message
notify_all alive ls none = (ls, [])
notify_all alive [] (some u) = ([], [])
notify_all alive (l ∷ ls) (some u) =
    let (kept, sent) = notify_all alive ls (some u) in
    elim (Listener.message l u) [
      | none ↦ (l ∷ kept, sent)
      | some json ↦
          if alive l.tx then (l ∷ kept, notify_listener l.tx json ∷ sent) else (kept, sent)
    ]

-- The listeners that stay when the data at `path` is delegated, and those that go with it.
unfoldable pub split_listeners : List Listener → TreePath → List Listener × List RListener
unfolding Listener.delegate
split_listeners [] path = ([], [])
split_listeners (l ∷ ls) path =
    let (kept, gone) = split_listeners ls path in
    let (retain, x) = Listener.delegate l path in
    (if retain then l ∷ kept else kept, elim x [ none ↦ gone | some r ↦ r ∷ gone ])

abbrev pub split_initial : List Listener → External → List Listener × List RListener
split_initial ls external = if external.initial then split_listeners ls external.path else (ls, [])

unfoldable pub dirty : M (Unit {0})
dirty = do
  z ← get
  if State.is_dirty z.state
      then pure tt
      else if State.is_active z.state
      then (do send request_write; set_state State.dirty)
      else if State.is_writing z.state
      then set_state State.dirty
      else panic

-- The loop of `merge` over the externals.
unfoldable pub route_externals : List External → Bool → List Listener → List Listener × List Effect
unfolding split_listeners
route_externals [] replicates ls = (ls, [])
route_externals (external ∷ externals) replicates ls =
    let (kept, gone) = split_initial ls external in
    let (ls', sent) = route_externals externals replicates kept in
    (
      ls',
      (if is_empty gone
            then send_external external replicates
            else send_external_with_listeners external gone)
          ∷ sent,
    )

-- The loop of `merge_with_listeners` over the externals: only listeners are propagated.
unfoldable pub route_listeners : List External → List Listener → List Listener × List Effect
unfolding split_listeners
route_listeners [] ls = (ls, [])
route_listeners (external ∷ externals) ls =
    let (kept, gone) = split_initial ls external in
    let (ls', sent) = route_listeners externals kept in
    (ls', if is_empty gone then sent else send_external_with_listeners external gone ∷ sent)

unfoldable pub send_all : List Listener × List Effect → M (Unit {0})
send_all (ls, sent) z = some (tt, record z { listeners = ls }, sent)

abbrev pub to_absolute_all : TreePath → List RListener → List Listener
to_absolute_all root [] = []
to_absolute_all root (l ∷ ls) = Listener.to_absolute l root ∷ to_absolute_all root ls

-- The channels that are open, serde_json's `as_f64`, and the clock of a split.
module _ (alive : ℕ → Bool) (as_f64 : Number → ℕ) (stamp : TreePath → ℕ) where
  unfoldable pub merge : NodeTree → Bool → M (Unit {0})
  merge diff replicates = do
    z ← get
    let m = tree_merge z.tree_data.tree diff
    let changed = not (Node.is_noop m.diff.node)
    modify (λ s. set_tree s m.tree)
    send_all (notify_all alive z.listeners m.update)
    when changed (do modify (λ s. record s { writes = suc s.writes }); dirty)
    s ← get
    send_all (route_externals m.externals replicates s.listeners)
    when (replicates && changed) (send (replicate m.diff))

  abbrev pub merge_some : Option Node.Node → M (Unit {0})
  merge_some none = pure tt
  merge_some (some n) = merge (Node.noop_vis n) true

  unfoldable pub split_check : M (Unit {0})
  split_check = do
    z ← get
    when (leb 10 z.writes) (do
      modify (λ s. record s { writes = 0 })
      merge_some (Delegate.delegate stamp z.tree_data.tree.node))

  -- The merge "the other way" gives the updates that bring the listeners up to date.
  unfoldable pub merge_with_listeners : NodeTree → List RListener → M (Unit {0})
  merge_with_listeners diff ls = do
    z ← get
    let m = tree_merge diff z.tree_data.tree
    let routed = route_listeners m.externals (to_absolute_all z.path ls)
    let told = notify_all alive routed.0 m.update
    send_all (z.listeners, routed.1 ++ told.1)
    merge diff false
    modify (λ s. record s { listeners = s.listeners ++ told.0 })

  unfoldable pub read : TreePath → M ZoneResult
  read path = do
    z ← get
    let (update, delegated) = tree_read z.tree_data.tree path
    pure (record { update = update; delegated = delegated })

  unfoldable pub sub : TreePath → ℕ → M (Unit {0})
  sub path tx = modify λ z. record z {
    listeners = z.listeners ++ record { root = z.path; path = path; tx = tx } ∷ [];
  }

  unfoldable pub bind : TreePath → ℕ → M ZoneResult
  bind path tx = do sub path tx; read path

  unfoldable pub kill : TreePath → ℕ → M (Unit {0})
  kill path ts = merge (Node.noop_vis (Node.prepend_path (Node.delete ts) path)) true

  unfoldable pub write : TreePath → ℕ → Json → M (Unit {0})
  write path ts value = merge (Node.noop_vis (expand_from as_f64 path value ts)) true

  -- The `match` of `dispatch`.
  unfoldable pub dispatch_call : Command.Call → Command → ℕ → M ZoneResult
  dispatch_call Command.bind command tx = bind command.path tx
  dispatch_call Command.kill command tx = do kill command.path command.timestamp; pure no_result
  dispatch_call Command.read command tx = read command.path
  dispatch_call Command.write command tx = do
    write command.path command.timestamp command.params
    split_check
    pure no_result

  unfoldable pub dispatch : Command → ℕ → M ZoneResult
  dispatch command tx = dispatch_call command.call command tx

unfoldable pub load : M (Unit {0})
load = do
  z ← get
  if State.is_init z.state then (do send store_load; set_state State.loading) else panic

-- The root zone is always visible.
unfoldable pub loaded : ZoneData → M (Unit {0})
loaded stored = do
  z ← get
  let v = if is_empty z.path then Vis.permanent else stored.tree.vis
  if State.is_loading z.state
      then (do
        modify (λ s. set_tree s (record { node = stored.tree.node; vis = v }))
        set_state State.active)
      else panic

unfoldable pub hibernate : M (Unit {0})
hibernate = do
  z ← get
  if State.is_active z.state
      then (do set_state State.idle; modify (λ s. set_tree s Node.default_tree); send hibernated)
      else send defer_hibernation

-- A spurious call is only printed.
unfoldable pub save : M (Unit {0})
save = do
  z ← get
  if State.is_dirty z.state
      then (do send (store_write z.tree_data); set_state State.writing)
      else pure tt

unfoldable pub saved : M (Unit {0})
saved = do
  z ← get
  if State.is_writing z.state
      then set_state State.active
      else if State.is_dirty z.state
      then send request_write
      else panic

-- `reply.send(..).unwrap()`: a caller that no longer waits makes the zone panic.
abbrev pub reply_to : Bool → Effect → M (Unit {0})
reply_to waits e = if waits then send e else panic

-- `handle_call`. `awaits` says which replies still have a receiver.
module _ (alive awaits : ℕ → Bool) (as_f64 : Number → ℕ) (stamp : TreePath → ℕ) where
  unfoldable pub handle_call : ZoneCall → M (Unit {0})
  handle_call (ZoneCall.user_command cmd) = do
    result ← dispatch alive as_f64 stamp cmd.command cmd.listener
    reply_to (awaits cmd.reply) (reply_result cmd.reply result)
  handle_call (ZoneCall.dump reply) = do
    z ← get
    reply_to (awaits reply) (reply_dump reply z.tree_data.tree)
  handle_call ZoneCall.load = load
  handle_call (ZoneCall.loaded stored) = loaded stored
  handle_call (ZoneCall.merge diff replicates) = do
    merge alive as_f64 stamp diff replicates
    when replicates (split_check alive as_f64 stamp)
  handle_call (ZoneCall.merge_with_listeners diff ls) = do
    merge_with_listeners alive as_f64 stamp diff ls
    split_check alive as_f64 stamp
  handle_call ZoneCall.hibernate = hibernate
  handle_call ZoneCall.save = save
  handle_call ZoneCall.saved = saved
  handle_call (ZoneCall.size reply) = do
    z ← get
    reply_to (awaits reply) (reply_size reply (Node.total_byte_size z.tree_data.tree.node))
  handle_call (ZoneCall.state reply) = do
    z ← get
    reply_to (awaits reply) (reply_state reply z.state)
