-- ===== src/Zone/Persistence/Store.antt =====
-- The zone's calls against its store, one by one.
use qumulus.Base.{ℕ, ◌+◌, ◌≡◌, ◌⊎◌, true, false, refl, Bool, [], ◌∷◌, arith}
use qumulus.Json.{Number}
use qumulus.Node
use qumulus.Node.{NodeTree}
use qumulus.TreePath.{TreePath}
use qumulus.Zone.Calls
use qumulus.Zone.Calls.{
  notify_all, route_externals, route_listeners, dirty, send_all, merge_some, reply_to,
}
use qumulus.Zone.Data.{
  UserCommand, ZoneCall, Effect, reply_result, reply_dump, reply_size, reply_state, Zone, M, get,
  send,
}
use qumulus.Zone.Persistence.Marked.{changes, DirtyAfter, handle_call-marks}
use qumulus.Zone.Persistence.Rules.{
  IsQuiet, Agrees, Loads, Agrees-cong, IsReady, IsSafe, bind-IsSafe, then-IsSafe, get-IsSafe,
  send-IsSafe, when-IsSafe,
}
use qumulus.Zone.Persistence.Owed.{
  MayArrive, IsPlain, not_plain, Owed, Balanced, before, Handles, handles, save-Handles,
  saved-Handles, load-Handles, loaded-Handles, hibernate-Handles,
}
use qumulus.Zone.Persistence.Handlers.{
  dispatch_call-IsSafe, merge-IsSafe, split_check-IsSafe, merge_with_listeners-IsSafe,
}

reply_to-IsSafe :
    {waits : Bool} → waits ≡ true → (e : Effect) → IsQuiet (e ∷ []) → IsSafe (reply_to waits e)
reply_to-IsSafe w e q = rw w (send-IsSafe e q)

module _ (alive : ℕ → Bool) (as_f64 : Number → ℕ) (stamp : TreePath → ℕ) where
  handle_safe :
      {A : Type 0} (m : M A) (z : Zone) (o : Owed)
      → IsSafe m
      → IsReady z.state
      → Agrees z.state (o.requests + 0) (o.writes + 0)
      → Loads z.state (o.loads + 0) (o.stored + 0)
      → Handles o (m z)
  handle_safe m z o h r a l =
      handles o (m z) (Agrees-cong (omega arith) (omega arith) a) (omega arith) (omega arith)
        (h.run z r)

  dispatch-IsSafe :
      (cmd : UserCommand) → IsSafe (Calls.dispatch alive as_f64 stamp cmd.command cmd.listener)
  unfolding Calls.dispatch
  dispatch-IsSafe cmd = dispatch_call-IsSafe alive as_f64 stamp cmd.command.call _ _

module _ (alive awaits : ℕ → Bool) (as_f64 : Number → ℕ) (stamp : TreePath → ℕ) where
  pub plain-IsSafe :
      ((r : ℕ) → awaits r ≡ true)
      → (call : ZoneCall) → IsPlain call
      → IsSafe (Calls.handle_call alive awaits as_f64 stamp call)
  unfolding Calls.handle_call
  plain-IsSafe w (ZoneCall.user_command cmd) p =
      bind-IsSafe _ _ (dispatch-IsSafe alive as_f64 stamp cmd)
        λ r. reply_to-IsSafe (w cmd.reply) (reply_result cmd.reply r) (refl, refl, refl, refl)
  plain-IsSafe w (ZoneCall.dump reply) p =
      bind-IsSafe get _ get-IsSafe
        λ s. reply_to-IsSafe (w reply) (reply_dump reply s.tree_data.tree) (refl, refl, refl, refl)
  plain-IsSafe w (ZoneCall.merge diff replicates) p =
      then-IsSafe _ _ (merge-IsSafe alive as_f64 stamp diff replicates)
        (when-IsSafe _ _ (split_check-IsSafe alive as_f64 stamp))
  plain-IsSafe w (ZoneCall.merge_with_listeners diff ls) p =
      then-IsSafe _ _ (merge_with_listeners-IsSafe alive as_f64 stamp diff ls)
        (split_check-IsSafe alive as_f64 stamp)
  plain-IsSafe w ZoneCall.save p = absurd (omega (arith, p.1))
  plain-IsSafe w ZoneCall.saved p = absurd (omega (arith, p.2))
  plain-IsSafe w _ p = absurd (not_plain p.0)

  pub handle_call-Handles :
      ((r : ℕ) → awaits r ≡ true)
      → (call : ZoneCall) (z : Zone) (o : Owed) → MayArrive z.state call
      → Balanced z (before o call)
      → Handles o (Calls.handle_call alive awaits as_f64 stamp call z)
  unfolding Calls.handle_call get send
  handle_call-Handles w (ZoneCall.user_command cmd) z o m (a, l) =
      handle_safe alive as_f64 stamp _ z o
        (plain-IsSafe w (ZoneCall.user_command cmd) (refl, refl, refl)) m a l
  handle_call-Handles w (ZoneCall.dump reply) z o m (a, l) =
      handle_safe alive as_f64 stamp _ z o (plain-IsSafe w (ZoneCall.dump reply) (refl, refl, refl))
        m a l
  handle_call-Handles w ZoneCall.hibernate z o m b = hibernate-Handles z o b
  handle_call-Handles w ZoneCall.load z o m b = load-Handles z o b
  handle_call-Handles w (ZoneCall.loaded stored) z o m b = loaded-Handles z stored o b
  handle_call-Handles w (ZoneCall.merge diff replicates) z o m (a, l) =
      handle_safe alive as_f64 stamp _ z o
        (plain-IsSafe w (ZoneCall.merge diff replicates) (refl, refl, refl)) m a l
  handle_call-Handles w (ZoneCall.merge_with_listeners diff ls) z o m (a, l) =
      handle_safe alive as_f64 stamp _ z o
        (plain-IsSafe w (ZoneCall.merge_with_listeners diff ls) (refl, refl, refl)) m a l
  handle_call-Handles w ZoneCall.save z o m b = save-Handles z o b
  handle_call-Handles w ZoneCall.saved z o m b = saved-Handles z o b
  handle_call-Handles w (ZoneCall.size reply) z o m b = (
    tt,
    z,
    reply_size reply (Node.total_byte_size z.tree_data.tree.node) ∷ [],
    rw (w reply) refl,
    b,
  )
  handle_call-Handles w (ZoneCall.state reply) z o m b =
      (tt, z, reply_state reply z.state ∷ [], rw (w reply) refl, b)

  -- Where every caller waits for its reply, a call that is handled in its state is handled without a
  -- panic, and afterwards again the zone waits for what its state says: a dirty zone for exactly one
  -- answer of the store (to its request, or to the write that was under way when it became dirty), a
  -- writing zone for the end of its one write, a zone that is to be loaded for the manager's answer
  -- or the store's, and any other zone for none. A kill, a write or a merge of a diff that is not
  -- all cut away by the zone's tree leaves the zone dirty, so that such a change has a write to come.
  pub handle_call_settles :
      ((r : ℕ) → awaits r ≡ true)
      → (call : ZoneCall) (z : Zone) (o : Owed) → MayArrive z.state call
      → Balanced z (before o call)
      → let result = Calls.handle_call alive awaits as_f64 stamp call z in
        Handles o result × ((changes alive as_f64 stamp call z ≡ false) ⊎ DirtyAfter result)
  handle_call_settles w call z o m b =
      (handle_call-Handles w call z o m b, handle_call-marks alive awaits as_f64 stamp call z)
