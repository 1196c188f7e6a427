-- ===== src/Zone/Persistence/Life/Safe.antt =====
-- No reachable zone whose callers wait panics, and none is stuck.
use qumulus.Base.{
  ℕ, ◌+◌, ◌≡◌, ◌≢◌, refl, sym, subst, ◌∙◌, ap, ◌⊎◌, inl, inr, Bool, true, false, Bool-cases, List,
  [], ◌∷◌, is_empty, arith,
}
use qumulus.Json.{Number}
use qumulus.TreePath.{TreePath}
use qumulus.Zone.Data.{ZoneCall, Zone, Effect, new}
use qumulus.Zone.Loop.{Round, message_loop, next, blocked, take_ready}
use qumulus.Zone.Order.Rounds.{ready_loop, waiting_loop}
use qumulus.Zone.Persistence.Owed.{Owed, Balanced, before, with_sent}
use qumulus.Zone.State
use qumulus.Zone.Persistence.Life.{looks_at_inbox, Reachable, start, resume, arrive}
use qumulus.Zone.Persistence.Life.Rounds.{Inv, Rounds, arrive-Rounds, resume_ready}

List-cases : {A : Type 0} (l : List A) → (l ≡ []) ⊎ ((a : A) × (rest : List A) × (l ≡ a ∷ rest))
List-cases [] = inl refl
List-cases (a ∷ rest) = inr (a, rest, refl)

module _ (alive awaits : ℕ → Bool) (as_f64 : Number → ℕ) (stamp : TreePath → ℕ) where
  next_cong :
      {r : Round} {z z' : Zone} {sent sent' : List Effect}
      → r ≡ next z [] sent
      → r ≡ next z' [] sent'
      → (z ≡ z') × (sent ≡ sent')
  next_cong e f = let g = sym e ∙ f in (cc, cc)

  left-Inv :
      (o : Owed) (r : Round) {z : Zone} {sent : List Effect}
      → Rounds alive awaits as_f64 stamp o r
      → r ≡ next z [] sent
      → Inv alive awaits as_f64 stamp z (with_sent o sent)
  left-Inv o r {z} {sent} (z', sent', e, inv) f =
      let (same, alike) = next_cong e f in
      subst (λ x. Inv alive awaits as_f64 stamp x (with_sent o sent)) same
        (subst (λ x. Inv alive awaits as_f64 stamp z' (with_sent o x)) alike inv)

  waiting_blocks :
      (z : Zone)
      → State.is_ready z.state ≡ false
      → message_loop alive awaits as_f64 stamp z [] ≡ blocked
  waiting_blocks z r = waiting_loop alive awaits as_f64 stamp z [] r

  empty_blocks : (z : Zone) → z.queued ≡ [] → message_loop alive awaits as_f64 stamp z [] ≡ blocked
  empty_blocks z q = elim (Bool-cases (State.is_ready z.state)) [
    | inl r ↦
        ready_loop alive awaits as_f64 stamp z [] r
        ∙ ap (λ x. take_ready alive awaits as_f64 stamp z x []) q
    | inr r ↦ waiting_blocks z r
  ]

  -- Without a call that arrives, a round takes a queued call or blocks.
  resume-Rounds :
      ((r : ℕ) → awaits r ≡ true)
      → (z : Zone) (o : Owed) → Inv alive awaits as_f64 stamp z o
      → (message_loop alive awaits as_f64 stamp z [] ≡ blocked)
        ⊎ Rounds alive awaits as_f64 stamp o (message_loop alive awaits as_f64 stamp z [])
  resume-Rounds w z o inv = elim (Bool-cases (State.is_ready z.state)) [
    | inr r ↦ inl (waiting_blocks z r)
    | inl r ↦ elim (List-cases z.queued) [
      | inl q ↦ inl (empty_blocks z q)
      | inr (call, queue, q) ↦ inr (resume_ready alive awaits as_f64 stamp w z o call queue r q inv)
    ]
  ]

  blocked_next : {z : Zone} {sent : List Effect} → blocked ≢ next z [] sent
  blocked_next e = cc

  goes_on :
      ((r : ℕ) → awaits r ≡ true)
      → (z : Zone) (o : Owed) (call : ZoneCall) → Inv alive awaits as_f64 stamp z (before o call)
      → (z' : Zone) × (sent : List Effect) × ((message_loop alive awaits as_f64 stamp z []
            ≡ next z' [] sent)
          ⊎ (message_loop alive awaits as_f64 stamp z (call ∷ []) ≡ next z' [] sent))
  goes_on w z o call inv = elim (Bool-cases (looks_at_inbox z)) [
    | inl g ↦
        let (z', sent, e, inv') = arrive-Rounds alive awaits as_f64 stamp w z o call g inv in
        (z', sent, inr e)
    | inr g ↦ elim (List-cases z.queued) [
      | inl q ↦ let t : is_empty z.queued ≡ true = ap is_empty q in absurd (ground arith)
      | inr (c, queue, q) ↦
          let (z', sent, e, inv') =
            resume_ready alive awaits as_f64 stamp w z (before o call) c queue (ground arith) q
              inv in
          (z', sent, inl e)
    ]
  ]

  queue_waits :
      (z : Zone) (o : Owed)
      → Inv alive awaits as_f64 stamp z o
      → (z.queued ≡ []) ⊎ ((State.is_ready z.state ≡ true) ⊎ (o.loads + o.stored ≡ 1))
  queue_waits z o inv = elim (Bool-cases (State.is_ready z.state)) [
    | inl r ↦ inr (inl r)
    | inr r ↦ elim (Bool-cases (State.is_idle z.state)) [
      | inl h ↦ inl (inv.awake (ground arith))
      | inr h ↦ let l = inv.balanced.1 in inr (inr (ground arith))
    ]
  ]

  Reachable-Inv :
      {z : Zone} {o : Owed}
      → ((r : ℕ) → awaits r ≡ true)
      → Reachable alive awaits as_f64 stamp z o
      → Inv alive awaits as_f64 stamp z o
  unfolding new
  Reachable-Inv w (start path) = record {
    balanced = (omega arith, omega arith);
    plain = tt;
    awake = λ h. refl;
  }
  Reachable-Inv w (resume {z} o r e) = elim (resume-Rounds w z o (Reachable-Inv w r)) [
    | inl b ↦ absurd (blocked_next (sym b ∙ e))
    | inr left ↦ left-Inv o _ left e
  ]
  Reachable-Inv w (arrive {z} o call r g e) =
      left-Inv o _ (arrive-Rounds alive awaits as_f64 stamp w z o call g (Reachable-Inv w r)) e

  -- Where every caller waits until its reply is sent, a zone never panics and is never stuck: however
  -- its rounds and the calls and due answers that reach it are interleaved, the next call that
  -- arrives is taken, or a queued one before it. It waits for what its state says and for nothing
  -- else, and calls stay queued only in a ready zone, which takes them, or while one answer to be
  -- loaded is due.
  pub zone_lives :
      ((r : ℕ) → awaits r ≡ true)
      → (z : Zone) (o : Owed) (call : ZoneCall)
      → Reachable alive awaits as_f64 stamp z (before o call)
      → ((z' : Zone) × (sent : List Effect) × ((message_loop alive awaits as_f64 stamp z []
              ≡ next z' [] sent)
            ⊎ (message_loop alive awaits as_f64 stamp z (call ∷ []) ≡ next z' [] sent)))
        × Balanced z (before o call)
        × ((z.queued ≡ [])
            ⊎ ((State.is_ready z.state ≡ true)
                ⊎ ((before o call).loads + (before o call).stored ≡ 1)))
  zone_lives w z o call r =
      let inv = Reachable-Inv w r in
      (goes_on w z o call inv, inv.balanced, queue_waits z (before o call) inv)
