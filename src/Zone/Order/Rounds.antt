-- ===== src/Zone/Order/Rounds.antt =====
-- The calls that src/zone.rs `message_loop` handles are those that arrived, in their order.
use qumulus.Base.{
  ℕ, ◌≡◌, refl, sym, subst, ◌∙◌, Bool, true, false, Option, none, some, List, [], ◌∷◌, ◌++◌,
  if◌then◌else◌, arith,
}
use qumulus.Json.{Number}
use qumulus.TreePath.{TreePath}
use qumulus.Zone.Calls.{handle_call}
use qumulus.Zone.Data.{
  ZoneCall, Zone, Effect, request_load, get, modify, send, set_state, when, pure,
}
use qumulus.Zone.Loop.{message_loop, wait, next, needs_no_data, after, take_ready, take_waiting}
use qumulus.Zone.Order.Kept.{SameQueue, handle_call-IsAside}
use qumulus.Zone.State

after-next :
    {z' : Zone} {inbox inbox' : List ZoneCall} {sent : List Effect}
    (o : Option (Unit {0} × Zone × List Effect))
    → after inbox o ≡ next z' inbox' sent
    → (o ≡ some (tt, z', sent)) × (inbox ≡ inbox')
after-next none e = absurd cc
after-next (some (u, z, sent)) e = (cc, cc)

module _ (alive awaits : ℕ → Bool) (as_f64 : Number → ℕ) (stamp : TreePath → ℕ) where
  pub handled-SameQueue :
      (call : ZoneCall) (z : Zone) {z' : Zone} {sent : List Effect}
      → handle_call alive awaits as_f64 stamp call z ≡ some (tt, z', sent)
      → z'.queued ≡ z.queued
  handled-SameQueue call z e =
      subst (SameQueue z) e ((handle_call-IsAside alive awaits as_f64 stamp call).run z)

  ready_from :
      (z : Zone) (queued inbox : List ZoneCall) {z' : Zone} {inbox' : List ZoneCall}
      {sent : List Effect}
      → z.queued ≡ queued
      → take_ready alive awaits as_f64 stamp z queued inbox ≡ next z' inbox' sent
      → (call : ZoneCall) × (before : Zone) × (handle_call alive awaits as_f64 stamp call before
          ≡ some (tt, z', sent))
        × (queued ++ inbox ≡ call ∷ (z'.queued ++ inbox'))
  ready_from z (call ∷ queued) inbox q e =
      let r =
        after-next (handle_call alive awaits as_f64 stamp call (record z { queued = queued })) e in
      let kept = handled-SameQueue call (record z { queued = queued }) r.0 in
      (call, record z { queued = queued }, r.0, rw (kept, r.1) refl)
  ready_from z [] [] q e = absurd cc
  ready_from z [] (call ∷ inbox) q e =
      let r = after-next (handle_call alive awaits as_f64 stamp call z) e in
      let kept = handled-SameQueue call z r.0 ∙ q in (call, z, r.0, rw (kept, r.1) refl)

  pub ready_loop :
      (z : Zone) (inbox : List ZoneCall)
      → State.is_ready z.state ≡ true
      → message_loop alive awaits as_f64 stamp z inbox
        ≡ take_ready alive awaits as_f64 stamp z z.queued inbox
  unfolding message_loop
  ready_loop z inbox r = ground arith

  pub waiting_loop :
      (z : Zone) (inbox : List ZoneCall)
      → State.is_ready z.state ≡ false
      → message_loop alive awaits as_f64 stamp z inbox
        ≡ take_waiting alive awaits as_f64 stamp z inbox
  unfolding message_loop
  waiting_loop z inbox r = ground arith

  pub wait_handles :
      (call : ZoneCall) (z : Zone)
      → needs_no_data call ≡ true
      → wait alive awaits as_f64 stamp call z ≡ handle_call alive awaits as_f64 stamp call z
  unfolding wait
  wait_handles call z h = ground arith

  pub wait-idle :
      (z : Zone) (call : ZoneCall)
      → needs_no_data call ≡ false
      → State.is_idle z.state ≡ true
      → wait alive awaits as_f64 stamp call z
        ≡ some
            (tt, record z { state = State.init; queued = z.queued ++ call ∷ [] }, request_load ∷ [])
  unfolding wait get modify send set_state when pure
  wait-idle z call n h = ground arith

  pub wait-other :
      (z : Zone) (call : ZoneCall)
      → needs_no_data call ≡ false
      → State.is_idle z.state ≡ false
      → wait alive awaits as_f64 stamp call z
        ≡ some (tt, record z { queued = z.queued ++ call ∷ [] }, [])
  unfolding wait get modify send set_state when pure
  wait-other z call n h = ground arith

  -- What comes of a call in a zone without data.
  abbrev pub waited : ZoneCall → Zone → Option (Unit {0} × Zone × List Effect)
  waited call z =
      if needs_no_data call
      then handle_call alive awaits as_f64 stamp call z
      else if State.is_idle z.state
      then some
          (tt, record z { state = State.init; queued = z.queued ++ call ∷ [] }, request_load ∷ [])
      else some (tt, record z { queued = z.queued ++ call ∷ [] }, [])

  -- A round of a ready zone that neither waits nor panics handles the first of the calls that are
  -- queued and then of those in its inbox, and leaves the others in their order.
  pub ready_in_order :
      (z : Zone) (inbox : List ZoneCall) {z' : Zone} {inbox' : List ZoneCall} {sent : List Effect}
      → State.is_ready z.state ≡ true
      → message_loop alive awaits as_f64 stamp z inbox ≡ next z' inbox' sent
      → (call : ZoneCall) × (before : Zone) × (handle_call alive awaits as_f64 stamp call before
          ≡ some (tt, z', sent))
        × (z.queued ++ inbox ≡ call ∷ (z'.queued ++ inbox'))
  ready_in_order z inbox r e = ready_from z z.queued inbox refl (sym (ready_loop z inbox r) ∙ e)
