-- ===== src/Zone/Persistence/Owed.antt =====
-- What a zone waits for, and the calls by which its manager and its store answer it.
use qumulus.Base.{
  ℕ, ◌+◌, ◌≤◌, ◌≡◌, ◌≢◌, refl, inl, inr, true, false, Option, none, some, List, [], ◌∷◌,
  if◌then◌else◌, arith, is_empty,
}
use qumulus.Node
use qumulus.Node.{NodeTree}
use qumulus.Zone.Calls
use qumulus.Zone.Calls.{notify_all, route_externals, route_listeners, dirty, send_all, merge_some}
use qumulus.Zone.Data.{
  ZoneData, ZoneCall, Effect, request_write, store_write, Zone, store_load, hibernated,
  defer_hibernation, pure, get, modify, send, panic, set_state, set_tree,
}
use qumulus.Vis
use qumulus.Zone.State
use native.Mathlib.Decide.{ℕ_discrete}
use qumulus.Zone.Loop.{needs_no_data}
use qumulus.Zone.Persistence.Rules
use qumulus.Zone.Persistence.Rules.{
  load_requests, store_loads, store_writes, Agrees, Loads, Agrees-cong, IsReady, Returns, Settles,
  IsSafe, bind-IsSafe, then-IsSafe, get-IsSafe, send-IsSafe, when-IsSafe,
}

-- In which states a call is handled: a zone without data queues all calls but those that
-- `needs_no_data`.
abbrev pub MayArrive : ℕ → ZoneCall → Type 0
MayArrive state call = if needs_no_data call then state ≤ State.writing else IsReady state

-- The request that a save answers, and the write that a saved answers.
abbrev pub answered_request : ZoneCall → ℕ
answered_request ZoneCall.save = 1
answered_request _ = 0

abbrev pub answered_write : ZoneCall → ℕ
answered_write ZoneCall.saved = 1
answered_write _ = 0

-- The request to be loaded that a load answers, and the load that loaded data answers.
abbrev pub answered_load : ZoneCall → ℕ
answered_load ZoneCall.load = 1
answered_load _ = 0

abbrev pub answered_data : ZoneCall → ℕ
answered_data (ZoneCall.loaded stored) = 1
answered_data _ = 0

-- A call that needs data and answers nothing: a zone without data queues it.
abbrev pub IsPlain : ZoneCall → Type 0
IsPlain call =
    (needs_no_data call ≡ false) × (answered_request call ≡ 0) × (answered_write call ≡ 0)

pub not_plain : true ≢ false
not_plain e = cc

-- What is not answered yet: requests to be loaded, loads, requests to write, and writes.
pub record Owed : Type 0 where
  pub loads : ℕ
  pub stored : ℕ
  pub requests : ℕ
  pub writes : ℕ

-- The zone waits for what its state says, and for nothing else.
abbrev pub Balanced : Zone → Owed → Type 0
Balanced z o = Agrees z.state o.requests o.writes × Loads z.state o.loads o.stored

-- The answer that a call brings comes off, and what is sent is added.
abbrev pub before : Owed → ZoneCall → Owed
before o call = record {
  loads = o.loads + answered_load call;
  stored = o.stored + answered_data call;
  requests = o.requests + answered_request call;
  writes = o.writes + answered_write call;
}

abbrev pub with_sent : Owed → List Effect → Owed
with_sent o sent = record {
  loads = o.loads + load_requests sent;
  stored = o.stored + store_loads sent;
  requests = o.requests + Rules.requests sent;
  writes = o.writes + store_writes sent;
}

abbrev pub Handles : {A : Type 0} → Owed → Option (A × Zone × List Effect) → Type 0
Handles {A} o result =
    (a : A) × (z : Zone) × (sent : List Effect) × (result ≡ some (a, z, sent))
    × Balanced z (with_sent o sent)

pub handles :
    {A : Type 0} (o : Owed) {s : ℕ} (result : Option (A × Zone × List Effect))
    → Agrees s o.requests o.writes
    → o.loads ≡ 0
    → o.stored ≡ 0
    → Returns result (Settles s)
    → Handles o result
handles o none a l d h = absurd h
handles o (some (x, z, sent)) a l d h =
    (x, z, sent, refl, (h.3 o.requests o.writes a, omega (arith, h.0, h.1, h.2)))

save-dirty :
    (z : Zone)
    → z.state ≡ State.dirty
    → Calls.save z ≡ some (tt, record z { state = State.writing }, store_write z.tree_data ∷ [])
unfolding Calls.save get pure send set_state
save-dirty z h = ground arith

saved-writing :
    (z : Zone)
    → z.state ≡ State.writing
    → Calls.saved z ≡ some (tt, record z { state = State.active }, [])
unfolding Calls.saved get pure send set_state panic
saved-writing z h = ground arith

saved-dirty : (z : Zone) → z.state ≡ State.dirty → Calls.saved z ≡ some (tt, z, request_write ∷ [])
unfolding Calls.saved get pure send set_state panic
saved-dirty z h = ground arith

pub save-Handles :
    (z : Zone) (o : Owed) → Balanced z (before o ZoneCall.save) → Handles o (Calls.save z)
save-Handles z o (a, l) =
    let e : z.state ≡ State.dirty = omega arith in
    (
      tt,
      record z { state = State.writing },
      store_write z.tree_data ∷ [],
      save-dirty z e,
      (omega arith, omega arith),
    )

pub saved-Handles :
    (z : Zone) (o : Owed) → Balanced z (before o ZoneCall.saved) → Handles o (Calls.saved z)
saved-Handles z o (inl a, l) = absurd (omega arith)
saved-Handles z o (inr (inl a), l) =
    (tt, z, request_write ∷ [], saved-dirty z a.0, (omega arith, omega arith))
saved-Handles z o (inr (inr a), l) =
    (tt, record z { state = State.active }, [], saved-writing z a.0, (omega arith, omega arith))

load-init :
    (z : Zone)
    → z.state ≡ State.init
    → Calls.load z ≡ some (tt, record z { state = State.loading }, store_load ∷ [])
unfolding Calls.load get send set_state panic
load-init z h = ground arith

pub load-Handles :
    (z : Zone) (o : Owed) → Balanced z (before o ZoneCall.load) → Handles o (Calls.load z)
load-Handles z o (a, l) =
    let e : z.state ≡ State.init = omega arith in
    (
      tt,
      record z { state = State.loading },
      store_load ∷ [],
      load-init z e,
      (omega arith, omega arith),
    )

-- The zone with its data.
abbrev with_data : Zone → ZoneData → Zone
with_data z stored =
    record (set_tree z (record {
      node = stored.tree.node;
      vis = if is_empty z.path then Vis.permanent else stored.tree.vis;
    })) { state = State.active }

loaded-loading :
    (z : Zone) (stored : ZoneData)
    → z.state ≡ State.loading
    → Calls.loaded stored z ≡ some (tt, with_data z stored, [])
unfolding Calls.loaded get modify set_state panic
loaded-loading z stored h = ground arith

pub loaded-Handles :
    (z : Zone) (stored : ZoneData) (o : Owed)
    → Balanced z (before o (ZoneCall.loaded stored))
    → Handles o (Calls.loaded stored z)
loaded-Handles z stored o (a, l) =
    let e : z.state ≡ State.loading = omega arith in
    (tt, with_data z stored, [], loaded-loading z stored e, (omega arith, omega arith))

hibernate-active :
    (z : Zone)
    → z.state ≡ State.active
    → Calls.hibernate z
      ≡ some (tt, set_tree (record z { state = State.idle }) Node.default_tree, hibernated ∷ [])
unfolding Calls.hibernate get modify send set_state
hibernate-active z h = ground arith

hibernate-other :
    (z : Zone) → z.state ≢ State.active → Calls.hibernate z ≡ some (tt, z, defer_hibernation ∷ [])
unfolding Calls.hibernate get modify send set_state
hibernate-other z h = ground arith

pub hibernate-Handles :
    (z : Zone) (o : Owed) → Balanced z (before o ZoneCall.hibernate) → Handles o (Calls.hibernate z)
hibernate-Handles z o (a, l) = elim (ℕ_discrete z.state State.active) [
  | yes e ↦ (
    tt,
    set_tree (record z { state = State.idle }) Node.default_tree,
    hibernated ∷ [],
    hibernate-active z e,
    (omega arith, omega arith),
  )
  | no e ↦ (
    tt,
    z,
    defer_hibernation ∷ [],
    hibernate-other z e,
    (Agrees-cong (omega arith) (omega arith) a, omega arith),
  )
]
