-- ===== src/Zone/Persistence/Life/Rounds.antt =====
-- Each round of a zone keeps what is owed to it in step with its state.
use qumulus.Base.{
  ℕ, ◌≤◌, ◌<◌, ◌≡◌, ◌≢◌, refl, sym, subst, ◌∙◌, ap, inl, inr, Bool, true, false, Bool-cases, Option,
  none, some, List, [], ◌∷◌, ◌++◌, is_empty, arith,
}
use qumulus.Json.{Number}
use qumulus.TreePath.{TreePath}
use qumulus.Zone.Calls
use qumulus.Zone.Calls.{handle_call}
use qumulus.Zone.Data.{
  ZoneCall, Zone, Effect, request_load, get, modify, send, set_state, pure, panic,
}
use qumulus.Zone.Loop.{Round, message_loop, next, needs_no_data, after, take_ready}
use qumulus.Zone.Order.Rounds.{
  ready_loop, waiting_loop, wait_handles, wait-idle, wait-other, handled-SameQueue,
}
use qumulus.Zone.Persistence.Owed.{
  MayArrive, answered_load, answered_data, IsPlain, Owed, Balanced, before, with_sent,
}
use qumulus.Zone.Persistence.Store.{handle_call-Handles, plain-IsSafe}
use qumulus.Zone.Persistence.Rules.{IsReady, Settles, Returns, Agrees, Loads}
use qumulus.Zone.State
use qumulus.Zone.Persistence.Life.{looks_at_inbox, AllPlain}

not_data : false ≢ true
not_data e = cc

at_most_writing : (z : Zone) (o : Owed) → Balanced z o → z.state ≤ State.writing
at_most_writing z o b = let a = b.0 in omega arith

is_ready-IsReady : (s : ℕ) → State.is_ready s ≡ true → s ≤ State.writing → IsReady s
is_ready-IsReady s r h = ground arith

ltb_of : (s : ℕ) → State.is_ready s ≡ false → s < State.active
ltb_of s r = ground arith

nil_of : (calls : List ZoneCall) → is_empty calls ≡ true → calls ≡ []
nil_of [] e = refl
nil_of (c ∷ calls) e = absurd (not_data e)

emptied : (z : Zone) → looks_at_inbox z ≡ true → State.is_ready z.state ≡ true → z.queued ≡ []
emptied z g r = let e : is_empty z.queued ≡ true = ground arith in nil_of z.queued e

answers_none :
    (call : ZoneCall)
    → needs_no_data call ≡ false
    → (answered_load call ≡ 0) × (answered_data call ≡ 0)
answers_none ZoneCall.load n = absurd (not_data (sym n))
answers_none (ZoneCall.loaded stored) n = absurd (not_data (sym n))
answers_none _ n = (refl, refl)

AllPlain-snoc :
    (calls : List ZoneCall) (call : ZoneCall)
    → AllPlain calls
    → IsPlain call
    → AllPlain (calls ++ call ∷ [])
AllPlain-snoc [] call a p = (p, tt)
AllPlain-snoc (c ∷ calls) call a p = (a.0, AllPlain-snoc calls call a.1 p)

-- What a method of a ready zone leaves, where nothing is owed but by the store.
settled :
    (o : Owed) (s : ℕ) (result : Option (Unit {0} × Zone × List Effect))
    → IsReady s
    → Returns result (Settles s)
    → Agrees s o.requests o.writes
    → Loads s o.loads o.stored
    → (z' : Zone) × (sent : List Effect) × (result ≡ some (tt, z', sent))
      × IsReady z'.state
      × Balanced z' (with_sent o sent)
settled o s none r h a l = absurd h
settled o s (some (u, z', sent)) r h a l =
    (z', sent, refl, h.0, (h.3 o.requests o.writes a, omega (arith, h.0, h.1, h.2)))

module _ (alive awaits : ℕ → Bool) (as_f64 : Number → ℕ) (stamp : TreePath → ℕ) where
  pub record Inv (z : Zone) (o : Owed) : Type 0 where
    pub balanced : Balanced z o
    pub plain : AllPlain z.queued
    pub awake : z.state ≡ State.idle → z.queued ≡ []

  -- A round that takes one call, and what it leaves.
  abbrev pub Rounds : Owed → Round → Type 0
  Rounds o r =
      (z' : Zone) × (sent : List Effect) × (r ≡ next z' [] sent) × Inv z' (with_sent o sent)

  ready-MayArrive : (s : ℕ) (call : ZoneCall) → IsReady s → MayArrive s call
  ready-MayArrive s call r = elim (Bool-cases (needs_no_data call)) [
    | inl e ↦ rw e r.1
    | inr e ↦ rw e r
  ]

  -- A ready zone without queued calls takes the next call that arrives.
  ready_arrive :
      ((r : ℕ) → awaits r ≡ true)
      → (z : Zone) (o : Owed) (call : ZoneCall) → IsReady z.state
      → z.queued ≡ []
      → Balanced z (before o call)
      → Rounds o (message_loop alive awaits as_f64 stamp z (call ∷ []))
  ready_arrive w z o call r q b =
      let (u, z', sent, e, b') =
        handle_call-Handles alive awaits as_f64 stamp w call z o (ready-MayArrive z.state call r)
          b in
      let kept = handled-SameQueue alive awaits as_f64 stamp call z e ∙ q in
      let loop = ready_loop alive awaits as_f64 stamp z (call ∷ []) (ground arith) in
      (
        z',
        sent,
        loop ∙ ap (λ x. take_ready alive awaits as_f64 stamp z x (call ∷ [])) q ∙ ap (after []) e,
        record { balanced = b'; plain = subst AllPlain (sym kept) tt; awake = λ h. kept },
      )

  -- A zone without data falls asleep by none of the calls that need none.
  stays_awake :
      (z z' : Zone) (call : ZoneCall) (sent : List Effect)
      → needs_no_data call ≡ true
      → State.is_ready z.state ≡ false
      → handle_call alive awaits as_f64 stamp call z ≡ some (tt, z', sent)
      → z'.state ≡ State.idle
      → z.state ≡ State.idle
  unfolding handle_call Calls.load Calls.loaded Calls.hibernate get modify send set_state pure panic
  stays_awake z z' ZoneCall.load sent n r e h = ground arith
  stays_awake z z' (ZoneCall.loaded stored) sent n r e h = ground arith
  stays_awake z z' ZoneCall.hibernate sent n r e h = ground arith
  stays_awake z z' (ZoneCall.size reply) sent n r e h = ground arith
  stays_awake z z' (ZoneCall.state reply) sent n r e h = ground arith
  stays_awake z z' _ sent n r e h = absurd (not_data n)

  -- It handles a call that needs no data at once.
  waiting_handles :
      ((r : ℕ) → awaits r ≡ true)
      → (z : Zone) (o : Owed) (call : ZoneCall) → State.is_ready z.state ≡ false
      → needs_no_data call ≡ true
      → Inv z (before o call)
      → Rounds o (message_loop alive awaits as_f64 stamp z (call ∷ []))
  waiting_handles w z o call r n inv =
      let b = inv.balanced in
      let (u, z', sent, e, b') =
        handle_call-Handles alive awaits as_f64 stamp w call z o
          (rw n (at_most_writing z (before o call) b)) b in
      let kept = handled-SameQueue alive awaits as_f64 stamp call z e in
      (
        z',
        sent,
        waiting_loop alive awaits as_f64 stamp z (call ∷ []) r
            ∙ ap (after []) (wait_handles alive awaits as_f64 stamp call z n ∙ e),
        record {
          balanced = b';
          plain = subst AllPlain (sym kept) inv.plain;
          awake = λ h. kept ∙ inv.awake (stays_awake z z' call sent n r e h);
        },
      )

  -- It queues any other, and asks to be loaded if it has not.
  waiting_queues :
      (z : Zone) (o : Owed) (call : ZoneCall)
      → State.is_ready z.state ≡ false
      → needs_no_data call ≡ false
      → Inv z (before o call)
      → Rounds o (message_loop alive awaits as_f64 stamp z (call ∷ []))
  waiting_queues z o call r n inv =
      let (a, l) = inv.balanced in
      let (x, y) = answers_none call n in
      let plain : IsPlain call =
        (n, omega (arith, ltb_of z.state r), omega (arith, ltb_of z.state r)) in
      let queue = AllPlain-snoc z.queued call inv.plain plain in
      let loop = waiting_loop alive awaits as_f64 stamp z (call ∷ []) r in
      elim (Bool-cases (State.is_idle z.state)) [
        | inl h ↦
            let idle : z.state ≡ State.idle = ground arith in
            (
              record z { state = State.init; queued = z.queued ++ call ∷ [] },
              request_load ∷ [],
              loop ∙ ap (after []) (wait-idle alive awaits as_f64 stamp z call n h),
              record {
                balanced = (omega arith, omega arith);
                plain = queue;
                awake = λ e. absurd (omega arith);
              },
            )
        | inr h ↦ (
          record z { queued = z.queued ++ call ∷ [] },
          [],
          loop ∙ ap (after []) (wait-other alive awaits as_f64 stamp z call n h),
          record {
            balanced = (omega arith, omega arith);
            plain = queue;
            awake = λ e. absurd (ground arith);
          },
        )
      ]

  pub arrive-Rounds :
      ((r : ℕ) → awaits r ≡ true)
      → (z : Zone) (o : Owed) (call : ZoneCall) → looks_at_inbox z ≡ true
      → Inv z (before o call)
      → Rounds o (message_loop alive awaits as_f64 stamp z (call ∷ []))
  arrive-Rounds w z o call g inv = elim (Bool-cases (State.is_ready z.state)) [
    | inl r ↦
        let b = inv.balanced in
        ready_arrive w z o call (is_ready-IsReady z.state r (at_most_writing z (before o call) b))
          (emptied z g r) b
    | inr r ↦ elim (Bool-cases (needs_no_data call)) [
      | inl n ↦ waiting_handles w z o call r n inv
      | inr n ↦ waiting_queues z o call r n inv
    ]
  ]

  -- A ready zone takes the first of its queued calls.
  pub resume_ready :
      ((r : ℕ) → awaits r ≡ true)
      → (z : Zone) (o : Owed) (call : ZoneCall) (queue : List ZoneCall)
      → State.is_ready z.state ≡ true
      → z.queued ≡ call ∷ queue
      → Inv z o
      → Rounds o (message_loop alive awaits as_f64 stamp z [])
  resume_ready w z o call queue r q inv =
      let zq = record z { queued = queue } in
      let (a, l) = inv.balanced in
      let p = subst AllPlain q inv.plain in
      let ready = is_ready-IsReady z.state r (at_most_writing z o inv.balanced) in
      let run = (plain-IsSafe alive awaits as_f64 stamp w call p.0).run zq ready in
      let (z', sent, e, ready', b) = settled o z.state _ ready run a l in
      let kept = handled-SameQueue alive awaits as_f64 stamp call zq e in
      (
        z',
        sent,
        ready_loop alive awaits as_f64 stamp z [] r
            ∙ ap (λ x. take_ready alive awaits as_f64 stamp z x []) q
            ∙ ap (after []) e,
        record {
          balanced = b;
          plain = subst AllPlain (sym kept) p.1;
          awake = λ h. absurd (omega arith);
        },
      )
