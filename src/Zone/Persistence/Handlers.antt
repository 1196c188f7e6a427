-- ===== src/Zone/Persistence/Handlers.antt =====
-- The handlers that need data are safe in a ready zone.
use qumulus.Base.{ℕ, refl, Bool, true, false, Option, none, some, List, [], ◌∷◌, arith}
use qumulus.Command
use qumulus.Command.{Command}
use qumulus.Json.{Number}
use qumulus.Listener.{Listener, RListener}
use qumulus.Node
use qumulus.Node.{NodeTree}
use qumulus.Node.Merge.{External}
use qumulus.TreePath.{TreePath}
use qumulus.Update.{Update}
use qumulus.Zone.Calls
use qumulus.Zone.Calls.{notify_all, route_externals, route_listeners, dirty, send_all, merge_some}
use qumulus.Zone.Data.{get}
use qumulus.Zone.Persistence.Rules.{
  IsQuiet, IsQuiet-append, IsSafe, bind-IsSafe, then-IsSafe, pure-IsSafe, get-IsSafe, modify-IsSafe,
  send-IsSafe, send_all-IsSafe, when-IsSafe, dirty-IsSafe,
}

notify_all-IsQuiet :
    (alive : ℕ → Bool) (ls : List Listener) (u : Option Update) → IsQuiet (notify_all alive ls u).1
unfolding notify_all
notify_all-IsQuiet alive ls none = (refl, refl, refl, refl)
notify_all-IsQuiet alive [] (some u) = (refl, refl, refl, refl)
notify_all-IsQuiet alive (l ∷ ls) (some u) = ground (arith, notify_all-IsQuiet alive ls (some u))

route_externals-IsQuiet :
    (xs : List External) (replicates : Bool) (ls : List Listener)
    → IsQuiet (route_externals xs replicates ls).1
unfolding route_externals
route_externals-IsQuiet [] replicates ls = (refl, refl, refl, refl)
route_externals-IsQuiet (x ∷ xs) replicates ls =
    ground (arith, route_externals-IsQuiet xs replicates (Calls.split_initial ls x).0)

route_listeners-IsQuiet :
    (xs : List External) (ls : List Listener) → IsQuiet (route_listeners xs ls).1
unfolding route_listeners
route_listeners-IsQuiet [] ls = (refl, refl, refl, refl)
route_listeners-IsQuiet (x ∷ xs) ls =
    ground (arith, route_listeners-IsQuiet xs (Calls.split_initial ls x).0)

module _ (alive : ℕ → Bool) (as_f64 : Number → ℕ) (stamp : TreePath → ℕ) where
  pub merge-IsSafe :
      (diff : NodeTree) (replicates : Bool)
      → IsSafe (Calls.merge alive as_f64 stamp diff replicates)
  unfolding Calls.merge
  merge-IsSafe diff replicates = bind-IsSafe get _ get-IsSafe λ z.
      then-IsSafe _ _ (modify-IsSafe _ (λ s. refl)) (
        then-IsSafe _ _ (send_all-IsSafe _ _ (notify_all-IsQuiet alive z.listeners _)) (
          then-IsSafe _ _
            (when-IsSafe _ _ (then-IsSafe _ _ (modify-IsSafe _ (λ s. refl)) dirty-IsSafe))
            (bind-IsSafe get _ get-IsSafe λ s.
              then-IsSafe _ _
                (send_all-IsSafe _ _ (route_externals-IsQuiet _ replicates s.listeners))
                (when-IsSafe _ _ (send-IsSafe _ (refl, refl, refl, refl))))))

  pub merge_some-IsSafe : (o : Option Node.Node) → IsSafe (merge_some alive as_f64 stamp o)
  merge_some-IsSafe none = pure-IsSafe tt
  merge_some-IsSafe (some n) = merge-IsSafe (Node.noop_vis n) true

  pub split_check-IsSafe : IsSafe (Calls.split_check alive as_f64 stamp)
  unfolding Calls.split_check
  split_check-IsSafe =
      bind-IsSafe get _ get-IsSafe
        λ z. when-IsSafe _ _ (then-IsSafe _ _ (modify-IsSafe _ (λ s. refl)) (merge_some-IsSafe _))

  pub merge_with_listeners-IsSafe :
      (diff : NodeTree) (ls : List RListener)
      → IsSafe (Calls.merge_with_listeners alive as_f64 stamp diff ls)
  unfolding Calls.merge_with_listeners
  merge_with_listeners-IsSafe diff ls = bind-IsSafe get _ get-IsSafe λ z.
      then-IsSafe _ _
        (send_all-IsSafe z.listeners _
          (IsQuiet-append _ _ (route_listeners-IsQuiet _ _) (notify_all-IsQuiet alive _ _)))
        (then-IsSafe _ _ (merge-IsSafe diff false) (modify-IsSafe _ (λ s. refl)))

  pub read-IsSafe : (path : TreePath) → IsSafe (Calls.read alive as_f64 stamp path)
  unfolding Calls.read
  read-IsSafe path = bind-IsSafe get _ get-IsSafe λ z. pure-IsSafe _

  pub dispatch_call-IsSafe :
      (call : Command.Call) (command : Command) (tx : ℕ)
      → IsSafe (Calls.dispatch_call alive as_f64 stamp call command tx)
  unfolding Calls.dispatch_call Calls.bind Calls.sub Calls.kill Calls.write
  dispatch_call-IsSafe Command.bind command tx =
      then-IsSafe _ _ (modify-IsSafe _ (λ s. refl)) (read-IsSafe command.path)
  dispatch_call-IsSafe Command.kill command tx =
      then-IsSafe _ _ (merge-IsSafe _ true) (pure-IsSafe _)
  dispatch_call-IsSafe Command.read command tx = read-IsSafe command.path
  dispatch_call-IsSafe Command.write command tx =
      then-IsSafe _ _ (merge-IsSafe _ true) (then-IsSafe _ _ split_check-IsSafe (pure-IsSafe _))
