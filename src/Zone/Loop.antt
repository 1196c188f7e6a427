-- ===== src/Zone/Loop.antt =====
-- src/zone.rs, `message_loop`: one round for a call from the inbox or the queue.
use qumulus.Base.{ℕ, Bool, true, false, Option, none, some, List, [], ◌∷◌, ◌++◌, if◌then◌else◌}
use qumulus.Json.{Number}
use qumulus.TreePath.{TreePath}
use qumulus.Zone.Calls.{handle_call}
use qumulus.Zone.Data.{
  ZoneCall, hibernate, load, loaded, size, state, Effect, request_load, Zone, M, ◌>>=◌, ◌>>◌, get,
  modify, send, set_state, when,
}
use qumulus.Zone.State

-- The calls that a zone without data handles at once.
abbrev pub needs_no_data : ZoneCall → Bool
needs_no_data load = true
needs_no_data (loaded stored) = true
needs_no_data hibernate = true
needs_no_data (size reply) = true
needs_no_data (state reply) = true
needs_no_data _ = false

-- A round of the loop that takes a call from the inbox, in a zone that is not ready.
module _ (alive awaits : ℕ → Bool) (as_f64 : Number → ℕ) (stamp : TreePath → ℕ) where
  unfoldable pub wait : ZoneCall → M (Unit {0})
  wait call = if needs_no_data call then handle_call alive awaits as_f64 stamp call else do
    modify (λ z. record z { queued = z.queued ++ call ∷ [] })
    z ← get
    when (State.is_idle z.state) (do send request_load; set_state State.init)

-- A zone with its inbox, after a round. It blocks on an empty inbox.
pub data Round : Type 0 where
  blocked : Round
  panicked : Round
  next : Zone → List ZoneCall → List Effect → Round

abbrev pub after : List ZoneCall → Option (Unit {0} × Zone × List Effect) → Round
after inbox none = panicked
after inbox (some (u, z, sent)) = next z inbox sent

module _ (alive awaits : ℕ → Bool) (as_f64 : Number → ℕ) (stamp : TreePath → ℕ) where
  -- Takes the call from the queue first, if the zone is ready.
  abbrev pub take_ready : Zone → List ZoneCall → List ZoneCall → Round
  take_ready z (call ∷ queued) inbox =
      after inbox (handle_call alive awaits as_f64 stamp call (record z { queued = queued }))
  take_ready z [] [] = blocked
  take_ready z [] (call ∷ inbox) = after inbox (handle_call alive awaits as_f64 stamp call z)

  abbrev pub take_waiting : Zone → List ZoneCall → Round
  take_waiting z [] = blocked
  take_waiting z (call ∷ inbox) = after inbox (wait alive awaits as_f64 stamp call z)

  unfoldable pub message_loop : Zone → List ZoneCall → Round
  message_loop z inbox =
      if State.is_ready z.state then take_ready z z.queued inbox else take_waiting z inbox
