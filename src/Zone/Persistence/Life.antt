-- ===== src/Zone/Persistence/Life.antt =====
-- The life of a zone of src/zone.rs: rounds of its loop, and answers that come when they are due.
pub mod Rounds
pub mod Safe
use qumulus.Base.{
  ℕ, ◌+◌, ◌≤◌, ◌<◌, ◌≡◌, ◌≢◌, refl, sym, subst, ◌∙◌, ap, ◌⊎◌, inl, inr, Bool, true, false, not,
  ◌&&◌, Bool-cases, Option, none, some, List, [], ◌∷◌, ◌++◌, if◌then◌else◌, is_empty, arith,
}
use qumulus.Json.{Number}
use qumulus.TreePath.{TreePath}
use qumulus.Zone.Calls
use qumulus.Zone.Calls.{handle_call}
use qumulus.Zone.Data.{
  ZoneCall, Zone, Effect, request_load, new, get, modify, send, set_state, pure, panic, when,
}
use qumulus.Zone.Loop.{
  Round, message_loop, wait, next, blocked, needs_no_data, after, take_ready, take_waiting,
}
use qumulus.Zone.Order.Rounds.{ready_loop, waiting_loop, wait_handles, handled-SameQueue}
use qumulus.Zone.Persistence.Owed.{
  MayArrive, answered_request, answered_write, answered_load, answered_data, IsPlain, Owed,
  Balanced, before, with_sent, Handles,
}
use qumulus.Zone.Persistence.Store.{handle_call-Handles, plain-IsSafe}
use qumulus.Zone.Persistence.Rules.{IsReady, Settles, Returns, Agrees, Loads}
use qumulus.Zone.State

abbrev pub nothing : Owed
nothing = record { loads = 0; stored = 0; requests = 0; writes = 0 }

-- A ready zone takes its queue before its inbox.
abbrev pub looks_at_inbox : Zone → Bool
looks_at_inbox z = not (State.is_ready z.state && not (is_empty z.queued))

abbrev pub AllPlain : List ZoneCall → Type 0
AllPlain [] = Unit
AllPlain (call ∷ calls) = IsPlain call × AllPlain calls

module _ (alive awaits : ℕ → Bool) (as_f64 : Number → ℕ) (stamp : TreePath → ℕ) where
  -- The zones that are reached, with what is owed to them. In a round a zone takes a queued call,
  -- or the next call that arrives: any call at any time, but an answer only if it is owed.
  pub data Reachable : Zone → Owed → Type 0 where
    start : (path : TreePath) → Reachable (new path) nothing
    resume :
        {z z' : Zone} (o : Owed) {sent : List Effect}
        → Reachable z o
        → message_loop alive awaits as_f64 stamp z [] ≡ next z' [] sent
        → Reachable z' (with_sent o sent)
    arrive :
        {z z' : Zone} (o : Owed) {sent : List Effect} (call : ZoneCall)
        → Reachable z (before o call)
        → looks_at_inbox z ≡ true
        → message_loop alive awaits as_f64 stamp z (call ∷ []) ≡ next z' [] sent
        → Reachable z' (with_sent o sent)
