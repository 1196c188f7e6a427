-- ===== src/Zone/Order/Kept.antt =====
-- No handler of src/zone.rs touches the queue of calls.
use qumulus.Base.{
  ℕ, ◌≡◌, refl, ◌∙◌, Bool, true, false, Option, none, some, List, if◌then◌else◌, is_empty,
}
use qumulus.Command
use qumulus.Command.{Command}
use qumulus.Json.{Number}
use qumulus.Listener.{Listener, RListener}
use qumulus.Node
use qumulus.Node.{NodeTree}
use qumulus.TreePath.{TreePath}
use qumulus.Vis
use qumulus.Zone.Calls
use qumulus.Zone.Calls.{dirty, send_all, merge_some, reply_to}
use qumulus.Zone.Data.{
  ZoneCall, Effect, Zone, M, ◌>>=◌, ◌>>◌, pure, get, modify, send, panic, set_state, when, prepend,
  set_tree, reply_result, reply_dump, reply_size, reply_state, request_write, store_write,
  store_load, hibernated, defer_hibernation,
}
use qumulus.Zone.State

-- The queue is as it was, if the method returns.
abbrev pub SameQueue : {A : Type 0} → Zone → Option (A × Zone × List Effect) → Type 0
SameQueue z none = Unit
SameQueue z (some (a, z', sent)) = z'.queued ≡ z.queued

-- A method that leaves the queue alone.
pub record IsAside {A : Type 0} (m : M A) : Type 0 where
  pub run : (z : Zone) → SameQueue z (m z)

prepend-SameQueue :
    {B : Type 0} (z z' : Zone) (sent : List Effect) (o : Option (B × Zone × List Effect))
    → z'.queued ≡ z.queued
    → SameQueue z' o
    → SameQueue z (prepend sent o)
prepend-SameQueue z z' sent none e k = tt
prepend-SameQueue z z' sent (some (b, z'', more)) e k = k ∙ e

bind-SameQueue :
    {A B : Type 0} (z : Zone) (o : Option (A × Zone × List Effect)) (f : A → M B)
    → SameQueue z o
    → ((a : A) → IsAside (f a))
    → SameQueue z (elim o [ none ↦ none | some (a, z', sent) ↦ prepend sent (f a z') ])
bind-SameQueue z none f h k = tt
bind-SameQueue z (some (a, z', sent)) f h k = prepend-SameQueue z z' sent (f a z') h ((k a).run z')

bind-IsAside :
    {A B : Type 0} (m : M A) (f : A → M B)
    → IsAside m
    → ((a : A) → IsAside (f a))
    → IsAside (m >>= f)
bind-IsAside m f h k = record { run = λ z. bind-SameQueue z (m z) f (h.run z) k }

then-IsAside : {B : Type 0} (m : M (Unit {0})) (k : M B) → IsAside m → IsAside k → IsAside (m >> k)
then-IsAside m k h i = bind-IsAside m (λ _. k) h (λ _. i)

pure-IsAside : {A : Type 0} (a : A) → IsAside (pure a)
unfolding pure
pure-IsAside a = record { run = λ z. refl }

get-IsAside : IsAside get
unfolding get
get-IsAside = record { run = λ z. refl }

modify-IsAside : (f : Zone → Zone) → ((z : Zone) → (f z).queued ≡ z.queued) → IsAside (modify f)
unfolding modify
modify-IsAside f h = record { run = h }

set_state-IsAside : (s : ℕ) → IsAside (set_state s)
unfolding set_state
set_state-IsAside s = modify-IsAside _ (λ z. refl)

send-IsAside : (e : Effect) → IsAside (send e)
unfolding send
send-IsAside e = record { run = λ z. refl }

panic-IsAside : {A : Type 0} → IsAside (panic {A = A})
unfolding panic
panic-IsAside = record { run = λ z. tt }

send_all-IsAside : (x : List Listener × List Effect) → IsAside (send_all x)
unfolding send_all
send_all-IsAside (ls, sent) = record { run = λ z. refl }

when-IsAside : (b : Bool) (m : M (Unit {0})) → IsAside m → IsAside (when b m)
unfolding when
when-IsAside true m h = h
when-IsAside false m h = pure-IsAside tt

if-IsAside : (b : Bool) (m k : M (Unit {0})) → IsAside m → IsAside k → IsAside (if b then m else k)
if-IsAside true m k h i = h
if-IsAside false m k h i = i

send_then-IsAside : (e : Effect) (s : ℕ) → IsAside (send e >> set_state s)
send_then-IsAside e s = then-IsAside _ _ (send-IsAside e) (set_state-IsAside s)

dirty-IsAside : IsAside dirty
unfolding dirty
dirty-IsAside = bind-IsAside get _ get-IsAside λ z.
    if-IsAside (State.is_dirty z.state) _ _ (pure-IsAside tt) (
      if-IsAside (State.is_active z.state) _ _ (send_then-IsAside request_write State.dirty)
        (if-IsAside (State.is_writing z.state) _ _ (set_state-IsAside State.dirty) panic-IsAside))

reply_to-IsAside : (waits : Bool) (e : Effect) → IsAside (reply_to waits e)
reply_to-IsAside waits e = if-IsAside waits _ _ (send-IsAside e) panic-IsAside

module _ (alive : ℕ → Bool) (as_f64 : Number → ℕ) (stamp : TreePath → ℕ) where
  merge-IsAside :
      (diff : NodeTree) (replicates : Bool)
      → IsAside (Calls.merge alive as_f64 stamp diff replicates)
  unfolding Calls.merge
  merge-IsAside diff replicates = bind-IsAside get _ get-IsAside λ z.
      then-IsAside _ _ (modify-IsAside _ (λ s. refl)) (
        then-IsAside _ _ (send_all-IsAside _) (
          then-IsAside _ _
            (when-IsAside _ _ (then-IsAside _ _ (modify-IsAside _ (λ s. refl)) dirty-IsAside))
            (bind-IsAside get _ get-IsAside
              λ s. then-IsAside _ _ (send_all-IsAside _) (when-IsAside _ _ (send-IsAside _)))))

  merge_some-IsAside : (o : Option Node.Node) → IsAside (merge_some alive as_f64 stamp o)
  merge_some-IsAside none = pure-IsAside tt
  merge_some-IsAside (some n) = merge-IsAside (Node.noop_vis n) true

  split_check-IsAside : IsAside (Calls.split_check alive as_f64 stamp)
  unfolding Calls.split_check
  split_check-IsAside =
      bind-IsAside get _ get-IsAside λ z.
        when-IsAside _ _ (then-IsAside _ _ (modify-IsAside _ (λ s. refl)) (merge_some-IsAside _))

  merge_with_listeners-IsAside :
      (diff : NodeTree) (ls : List RListener)
      → IsAside (Calls.merge_with_listeners alive as_f64 stamp diff ls)
  unfolding Calls.merge_with_listeners
  merge_with_listeners-IsAside diff ls = bind-IsAside get _ get-IsAside λ z.
      then-IsAside _ _ (send_all-IsAside _)
        (then-IsAside _ _ (merge-IsAside diff false) (modify-IsAside _ (λ s. refl)))

  read-IsAside : (path : TreePath) → IsAside (Calls.read alive as_f64 stamp path)
  unfolding Calls.read
  read-IsAside path = bind-IsAside get _ get-IsAside λ z. pure-IsAside _

  dispatch_call-IsAside :
      (call : Command.Call) (command : Command) (tx : ℕ)
      → IsAside (Calls.dispatch_call alive as_f64 stamp call command tx)
  unfolding Calls.dispatch_call Calls.bind Calls.sub Calls.kill Calls.write
  dispatch_call-IsAside Command.bind command tx =
      then-IsAside _ _ (modify-IsAside _ (λ s. refl)) (read-IsAside command.path)
  dispatch_call-IsAside Command.kill command tx =
      then-IsAside _ _ (merge-IsAside _ true) (pure-IsAside _)
  dispatch_call-IsAside Command.read command tx = read-IsAside command.path
  dispatch_call-IsAside Command.write command tx =
      then-IsAside _ _ (merge-IsAside _ true)
        (then-IsAside _ _ split_check-IsAside (pure-IsAside _))

  dispatch-IsAside : (c : Command) (tx : ℕ) → IsAside (Calls.dispatch alive as_f64 stamp c tx)
  unfolding Calls.dispatch
  dispatch-IsAside c tx = dispatch_call-IsAside c.call c tx

module _ (alive awaits : ℕ → Bool) (as_f64 : Number → ℕ) (stamp : TreePath → ℕ) where
  pub handle_call-IsAside :
      (call : ZoneCall) → IsAside (Calls.handle_call alive awaits as_f64 stamp call)
  unfolding Calls.handle_call Calls.load Calls.loaded Calls.hibernate Calls.save Calls.saved
  handle_call-IsAside (ZoneCall.user_command cmd) =
      bind-IsAside _ _ (dispatch-IsAside alive as_f64 stamp cmd.command cmd.listener)
        λ r. reply_to-IsAside (awaits cmd.reply) (reply_result cmd.reply r)
  handle_call-IsAside (ZoneCall.dump reply) =
      bind-IsAside get _ get-IsAside
        λ z. reply_to-IsAside (awaits reply) (reply_dump reply z.tree_data.tree)
  handle_call-IsAside ZoneCall.hibernate = bind-IsAside get _ get-IsAside λ z.
      if-IsAside (State.is_active z.state) _ _
        (then-IsAside _ _ (set_state-IsAside State.idle) (
          then-IsAside _ _ (modify-IsAside (λ s. set_tree s Node.default_tree) (λ s. refl))
            (send-IsAside hibernated)))
        (send-IsAside defer_hibernation)
  handle_call-IsAside ZoneCall.load = bind-IsAside get _ get-IsAside λ z.
      if-IsAside (State.is_init z.state) _ _ (send_then-IsAside store_load State.loading)
        panic-IsAside
  handle_call-IsAside (ZoneCall.loaded stored) = bind-IsAside get _ get-IsAside λ z.
      let v = if is_empty z.path then Vis.permanent else stored.tree.vis in
      if-IsAside (State.is_loading z.state) _ _
        (then-IsAside _ _
          (modify-IsAside (λ s. set_tree s (record { node = stored.tree.node; vis = v }))
            (λ s. refl))
          (set_state-IsAside State.active))
        panic-IsAside
  handle_call-IsAside (ZoneCall.merge diff replicates) =
      then-IsAside _ _ (merge-IsAside alive as_f64 stamp diff replicates)
        (when-IsAside _ _ (split_check-IsAside alive as_f64 stamp))
  handle_call-IsAside (ZoneCall.merge_with_listeners diff ls) =
      then-IsAside _ _ (merge_with_listeners-IsAside alive as_f64 stamp diff ls)
        (split_check-IsAside alive as_f64 stamp)
  handle_call-IsAside ZoneCall.save = bind-IsAside get _ get-IsAside λ z.
      if-IsAside (State.is_dirty z.state) _ _
        (send_then-IsAside (store_write z.tree_data) State.writing) (pure-IsAside tt)
  handle_call-IsAside ZoneCall.saved = bind-IsAside get _ get-IsAside λ z.
      if-IsAside (State.is_writing z.state) _ _ (set_state-IsAside State.active)
        (if-IsAside (State.is_dirty z.state) _ _ (send-IsAside request_write) panic-IsAside)
  handle_call-IsAside (ZoneCall.size reply) = bind-IsAside get _ get-IsAside λ z.
      reply_to-IsAside (awaits reply)
        (reply_size reply (Node.total_byte_size z.tree_data.tree.node))
  handle_call-IsAside (ZoneCall.state reply) =
      bind-IsAside get _ get-IsAside
        λ z. reply_to-IsAside (awaits reply) (reply_state reply z.state)
