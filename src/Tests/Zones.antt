-- ===== src/Tests/Zones.antt =====
-- A zone's life, run from its first call.
use qumulus.Base.{
  ℕ, ◌+◌, ◌≡◌, refl, ◌⊎◌, List, true, Bool, false, none, some, [], ◌∷◌, ◌++◌, inl, arith,
}
use qumulus.Json.{Number}
use qumulus.TreePath.{TreePath}
use qumulus.Zone.Calls
use qumulus.Zone.Data.{
  Zone, ZoneCall, Effect, new, get, modify, send, set_state, pure, panic, request_load, reply_state,
  when,
}
use qumulus.Zone.Loop
use qumulus.Zone.Loop.{message_loop, next, blocked}
use qumulus.Zone.Order.Rounds.{ready_in_order}
use qumulus.Zone.Persistence.Life.{nothing, Reachable, start, arrive}
use qumulus.Zone.Persistence.Life.Safe.{zone_lives}
use qumulus.Zone.Persistence.Owed.{Handles, Balanced, before}
use qumulus.Zone.Persistence.Store.{handle_call_settles}
use qumulus.Zone.State
use qumulus.Zone.Persistence.Marked.{changes, DirtyAfter}
use qumulus.Tests.Trees.{stored_tree}
use qumulus.Node
use qumulus.Node.Merge.{tree_merge, node_merge, merge}
use qumulus.Value.{value_eq}
use qumulus.Vis

abbrev nobody : ℕ → Bool
nobody tx = false

abbrev all_wait : ℕ → Bool
all_wait reply = true

abbrev no_float : Number → ℕ
no_float n = 0

abbrev at_once : TreePath → ℕ
at_once path = 0

-- The first call asks the manager to load the zone, and waits.
first_call :
    message_loop nobody all_wait no_float at_once (new []) (ZoneCall.dump 1 ∷ [])
    ≡ next
        (record (new []) { state = State.init; queued = ZoneCall.dump 1 ∷ [] })
        []
        (request_load ∷ [])
unfolding message_loop Loop.wait new get modify send set_state pure when
first_call = refl

abbrev active_zone : Zone
active_zone = record (new []) { state = State.active }

handle_call_settles_example :
    let result =
      Calls.handle_call nobody all_wait no_float at_once
        (ZoneCall.merge stored_tree false)
        active_zone in
    Handles nothing result
    × ((changes nobody no_float at_once (ZoneCall.merge stored_tree false) active_zone ≡ false)
        ⊎ DirtyAfter result)
handle_call_settles_example =
    handle_call_settles nobody all_wait no_float at_once (λ r. refl)
      (ZoneCall.merge stored_tree false) active_zone nothing (omega arith, omega arith)
      (inl (omega arith, omega arith, omega arith), omega arith)

-- The diff changes the zone, so that it is dirty afterwards.
stored_changes :
    changes nobody no_float at_once (ZoneCall.merge stored_tree false) active_zone ≡ true
unfolding new tree_merge node_merge merge Node.is_noop Vis.is_noop value_eq
stored_changes = refl

-- A caller that no longer waits makes the zone panic.
no_caller : Calls.handle_call nobody nobody no_float at_once (ZoneCall.state 1) active_zone ≡ none
unfolding Calls.handle_call get panic
no_caller = refl

abbrev ready_zone : Zone
ready_zone = record (new []) { state = State.active; queued = ZoneCall.state 1 ∷ [] }

abbrev emptied_zone : Zone
emptied_zone = record (new []) { state = State.active }

ready_round :
    message_loop nobody all_wait no_float at_once ready_zone (ZoneCall.save ∷ [])
    ≡ next emptied_zone (ZoneCall.save ∷ []) (reply_state 1 3 ∷ [])
unfolding message_loop new Calls.handle_call get send
ready_round = refl

ready_in_order_example :
    (call : ZoneCall) × (before : Zone) × (Calls.handle_call nobody all_wait no_float at_once call
        before
      ≡ some (tt, emptied_zone, reply_state 1 3 ∷ []))
    × (ready_zone.queued ++ ZoneCall.save ∷ [] ≡ call ∷ (emptied_zone.queued ++ ZoneCall.save ∷ []))
ready_in_order_example =
    ready_in_order nobody all_wait no_float at_once ready_zone (ZoneCall.save ∷ []) refl ready_round

abbrev queued_zone : Zone
queued_zone = record (new []) { state = State.init; queued = ZoneCall.dump 1 ∷ [] }

-- After the first call the manager owes the zone its answer.
queued_zone-Reachable :
    Reachable nobody all_wait no_float at_once queued_zone (before nothing ZoneCall.load)
unfolding new
queued_zone-Reachable = arrive nothing (ZoneCall.dump 1) (start []) refl first_call

zone_lives_example :
    ((z : Zone) × (sent : List Effect) × ((message_loop nobody all_wait no_float at_once queued_zone
            []
          ≡ next z [] sent)
        ⊎ (message_loop nobody all_wait no_float at_once queued_zone (ZoneCall.load ∷ [])
            ≡ next z [] sent)))
    × Balanced queued_zone (before nothing ZoneCall.load)
    × ((queued_zone.queued ≡ [])
        ⊎ ((State.is_ready queued_zone.state ≡ true)
            ⊎ ((before nothing ZoneCall.load).loads + (before nothing ZoneCall.load).stored ≡ 1)))
unfolding new
zone_lives_example =
    zone_lives nobody all_wait no_float at_once (λ r. refl) queued_zone nothing ZoneCall.load
      queued_zone-Reachable
