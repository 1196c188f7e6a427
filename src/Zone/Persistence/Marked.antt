-- ===== src/Zone/Persistence/Marked.antt =====
-- A change of a zone of src/zone.rs marks it dirty, and it stays so until its store answers.
use qumulus.Base.{
  ℕ, ◌≡◌, refl, Bool, true, false, not, ◌⊎◌, inl, inr, Bool-cases, Option, none, some, List, [],
  arith,
}
use qumulus.Command
use qumulus.Command.{Command}
use qumulus.Json.{Number}
use qumulus.Listener.{Listener, RListener}
use qumulus.Node
use qumulus.Node.{NodeTree}
use qumulus.Node.Expand.{expand_from}
use qumulus.Node.Merge.{tree_merge}
use qumulus.TreePath.{TreePath}
use qumulus.Zone.Calls
use qumulus.Zone.Calls.{dirty, send_all, merge_some, reply_to}
use qumulus.Zone.Data.{
  ZoneCall, Effect, Zone, M, ◌>>=◌, ◌>>◌, pure, get, modify, send, panic, set_state, when, prepend,
}
use qumulus.Zone.State

-- The zone is dirty, if the method returns.
abbrev pub DirtyAfter : {A : Type 0} → Option (A × Zone × List Effect) → Type 0
DirtyAfter none = Unit
DirtyAfter (some (a, z, sent)) = z.state ≡ State.dirty

-- A method that leaves any zone dirty, and one that leaves a dirty zone dirty.
pub record Dirties {A : Type 0} (m : M A) : Type 0 where
  pub run : (z : Zone) → DirtyAfter (m z)

pub record KeepsDirty {A : Type 0} (m : M A) : Type 0 where
  pub run : (z : Zone) → z.state ≡ State.dirty → DirtyAfter (m z)

prepend-DirtyAfter :
    {B : Type 0} (sent : List Effect) (o : Option (B × Zone × List Effect))
    → DirtyAfter o
    → DirtyAfter (prepend sent o)
prepend-DirtyAfter sent none h = tt
prepend-DirtyAfter sent (some (b, z, more)) h = h

bind-DirtyAfter :
    {A B : Type 0} (o : Option (A × Zone × List Effect)) (f : A → M B)
    → DirtyAfter o
    → ((a : A) → KeepsDirty (f a))
    → DirtyAfter (elim o [ none ↦ none | some (a, z', sent) ↦ prepend sent (f a z') ])
bind-DirtyAfter none f h k = tt
bind-DirtyAfter (some (a, z', sent)) f h k = prepend-DirtyAfter sent (f a z') ((k a).run z' h)

last-DirtyAfter :
    {A B : Type 0} (o : Option (A × Zone × List Effect)) (f : A → M B)
    → ((a : A) → Dirties (f a))
    → DirtyAfter (elim o [ none ↦ none | some (a, z', sent) ↦ prepend sent (f a z') ])
last-DirtyAfter none f k = tt
last-DirtyAfter (some (a, z', sent)) f k = prepend-DirtyAfter sent (f a z') ((k a).run z')

bind-KeepsDirty :
    {A B : Type 0} (m : M A) (f : A → M B)
    → KeepsDirty m
    → ((a : A) → KeepsDirty (f a))
    → KeepsDirty (m >>= f)
bind-KeepsDirty m f h k = record { run = λ z d. bind-DirtyAfter (m z) f (h.run z d) k }

then-KeepsDirty :
    {B : Type 0} (m : M (Unit {0})) (k : M B) → KeepsDirty m → KeepsDirty k → KeepsDirty (m >> k)
then-KeepsDirty m k h i = bind-KeepsDirty m (λ _. k) h (λ _. i)

-- What comes after leaves it dirty, or what comes last makes it dirty.
then-Dirties :
    {B : Type 0} (m : M (Unit {0})) (k : M B) → Dirties m → KeepsDirty k → Dirties (m >> k)
then-Dirties m k h i = record { run = λ z. bind-DirtyAfter (m z) (λ _. k) (h.run z) (λ _. i) }

last-Dirties :
    {B : Type 0} (m : M (Unit {0})) (k : M B) → KeepsDirty m → Dirties k → Dirties (m >> k)
last-Dirties m k _ h = record { run = λ z. last-DirtyAfter (m z) (λ _. k) (λ _. h) }

pure-KeepsDirty : {A : Type 0} (a : A) → KeepsDirty (pure a)
unfolding pure
pure-KeepsDirty a = record { run = λ z d. d }

get-KeepsDirty : KeepsDirty get
unfolding get
get-KeepsDirty = record { run = λ z d. d }

modify-KeepsDirty : (f : Zone → Zone) → ((z : Zone) → (f z).state ≡ z.state) → KeepsDirty (modify f)
unfolding modify
modify-KeepsDirty f h = record { run = λ z d. omega (arith, h z, d) }

send-KeepsDirty : (e : Effect) → KeepsDirty (send e)
unfolding send
send-KeepsDirty e = record { run = λ z d. d }

send_all-KeepsDirty : (x : List Listener × List Effect) → KeepsDirty (send_all x)
unfolding send_all
send_all-KeepsDirty (ls, sent) = record { run = λ z d. d }

when-KeepsDirty : (b : Bool) (m : M (Unit {0})) → KeepsDirty m → KeepsDirty (when b m)
unfolding when
when-KeepsDirty true m h = h
when-KeepsDirty false m h = pure-KeepsDirty tt

reply_to-KeepsDirty : (waits : Bool) (e : Effect) → KeepsDirty (reply_to waits e)
unfolding panic
reply_to-KeepsDirty true e = send-KeepsDirty e
reply_to-KeepsDirty false e = record { run = λ z d. tt }

dirty-Dirties : Dirties dirty
unfolding dirty get pure send set_state modify panic
dirty-Dirties = record { run = λ z. ground arith }

dirty-KeepsDirty : KeepsDirty dirty
dirty-KeepsDirty = record { run = λ z d. dirty-Dirties.run z }

when-Dirties : (b : Bool) (m : M (Unit {0})) → b ≡ true → Dirties m → Dirties (when b m)
unfolding when
when-Dirties true m e h = h
when-Dirties false m e h = cc

get_then-DirtyAfter :
    {B : Type 0} (f : Zone → M B) (z : Zone) → DirtyAfter (f z z) → DirtyAfter ((get >>= f) z)
unfolding get
get_then-DirtyAfter f z h = prepend-DirtyAfter [] (f z z) h

get_then-Dirties :
    {B : Type 0} (f : Zone → M B) (z : Zone) → Dirties (f z) → DirtyAfter ((get >>= f) z)
get_then-Dirties f z h = get_then-DirtyAfter f z (h.run z)

send_all_then-DirtyAfter :
    {B : Type 0} (ls : List Listener) (sent : List Effect) (k : M B) (z : Zone)
    → DirtyAfter (k (record z { listeners = ls }))
    → DirtyAfter ((send_all (ls, sent) >> k) z)
unfolding send_all
send_all_then-DirtyAfter ls sent k z h = prepend-DirtyAfter sent (k (record z { listeners = ls })) h

-- The diff changes something in the zone's tree.
abbrev pub changes_by : NodeTree → Zone → Bool
changes_by diff z = not (Node.is_noop (tree_merge z.tree_data.tree diff).diff.node)

module _ (alive : ℕ → Bool) (as_f64 : Number → ℕ) (stamp : TreePath → ℕ) where
  merge-KeepsDirty :
      (diff : NodeTree) (replicates : Bool)
      → KeepsDirty (Calls.merge alive as_f64 stamp diff replicates)
  unfolding Calls.merge
  merge-KeepsDirty diff replicates = bind-KeepsDirty get _ get-KeepsDirty λ z.
      then-KeepsDirty _ _ (modify-KeepsDirty _ (λ s. refl)) (
        then-KeepsDirty _ _ (send_all-KeepsDirty _) (
          then-KeepsDirty _ _
            (when-KeepsDirty _ _
              (then-KeepsDirty _ _ (modify-KeepsDirty _ (λ s. refl)) dirty-KeepsDirty))
            (bind-KeepsDirty get _ get-KeepsDirty λ s.
              then-KeepsDirty _ _ (send_all-KeepsDirty _)
                (when-KeepsDirty _ _ (send-KeepsDirty _)))))

  merge-DirtyAfter :
      (diff : NodeTree) (replicates : Bool) (z : Zone)
      → changes_by diff z ≡ true
      → DirtyAfter (Calls.merge alive as_f64 stamp diff replicates z)
  unfolding Calls.merge
  merge-DirtyAfter diff replicates z e = get_then-Dirties _ z (
      last-Dirties _ _ (modify-KeepsDirty _ (λ s. refl)) (
        last-Dirties _ _ (send_all-KeepsDirty _) (
          then-Dirties _ _
            (when-Dirties _ _ e (last-Dirties _ _ (modify-KeepsDirty _ (λ s. refl)) dirty-Dirties))
            (bind-KeepsDirty get _ get-KeepsDirty λ s.
              then-KeepsDirty _ _ (send_all-KeepsDirty _)
                (when-KeepsDirty _ _ (send-KeepsDirty _))))))

  merge_some-KeepsDirty : (o : Option Node.Node) → KeepsDirty (merge_some alive as_f64 stamp o)
  merge_some-KeepsDirty none = pure-KeepsDirty tt
  merge_some-KeepsDirty (some n) = merge-KeepsDirty (Node.noop_vis n) true

  split_check-KeepsDirty : KeepsDirty (Calls.split_check alive as_f64 stamp)
  unfolding Calls.split_check
  split_check-KeepsDirty = bind-KeepsDirty get _ get-KeepsDirty λ z.
      when-KeepsDirty _ _
        (then-KeepsDirty _ _ (modify-KeepsDirty _ (λ s. refl)) (merge_some-KeepsDirty _))

  -- The diff that a command makes, and whether a call changes the zone.
  abbrev command_changes : Command.Call → Command → Zone → Bool
  command_changes Command.kill c z =
      changes_by (Node.noop_vis (Node.prepend_path (Node.delete c.timestamp) c.path)) z
  command_changes Command.write c z =
      changes_by (Node.noop_vis (expand_from as_f64 c.path c.params c.timestamp)) z
  command_changes _ c z = false

  abbrev pub changes : ZoneCall → Zone → Bool
  changes (ZoneCall.user_command cmd) z = command_changes cmd.command.call cmd.command z
  changes (ZoneCall.merge diff replicates) z = changes_by diff z
  changes (ZoneCall.merge_with_listeners diff ls) z = changes_by diff z
  changes _ z = false

  dispatch_call-DirtyAfter :
      (call : Command.Call) (c : Command) (tx : ℕ) (z : Zone)
      → command_changes call c z ≡ true
      → DirtyAfter (Calls.dispatch_call alive as_f64 stamp call c tx z)
  unfolding Calls.dispatch_call Calls.kill Calls.write
  dispatch_call-DirtyAfter Command.kill c tx z e =
      bind-DirtyAfter _ _ (merge-DirtyAfter _ true z e) (λ _. pure-KeepsDirty _)
  dispatch_call-DirtyAfter Command.write c tx z e =
      bind-DirtyAfter _ _ (merge-DirtyAfter _ true z e)
        (λ _. then-KeepsDirty _ _ split_check-KeepsDirty (pure-KeepsDirty _))
  dispatch_call-DirtyAfter _ c tx z e = cc

  merge_with_listeners-DirtyAfter :
      (diff : NodeTree) (ls : List RListener) (z : Zone)
      → changes_by diff z ≡ true
      → DirtyAfter (Calls.merge_with_listeners alive as_f64 stamp diff ls z)
  unfolding Calls.merge_with_listeners
  merge_with_listeners-DirtyAfter diff ls z e = get_then-DirtyAfter _ z (
      send_all_then-DirtyAfter _ _ _ z (
        bind-DirtyAfter _ _ (merge-DirtyAfter diff false (record z { listeners = z.listeners }) e)
          (λ _. modify-KeepsDirty _ (λ s. refl))))

module _ (alive awaits : ℕ → Bool) (as_f64 : Number → ℕ) (stamp : TreePath → ℕ) where
  changed-DirtyAfter :
      (call : ZoneCall) (z : Zone)
      → changes alive as_f64 stamp call z ≡ true
      → DirtyAfter (Calls.handle_call alive awaits as_f64 stamp call z)
  unfolding Calls.handle_call Calls.dispatch
  changed-DirtyAfter (ZoneCall.user_command cmd) z e =
      bind-DirtyAfter _ _
        (dispatch_call-DirtyAfter alive as_f64 stamp cmd.command.call cmd.command cmd.listener z e)
        (λ r. reply_to-KeepsDirty _ _)
  changed-DirtyAfter (ZoneCall.merge diff replicates) z e =
      bind-DirtyAfter _ _ (merge-DirtyAfter alive as_f64 stamp diff replicates z e)
        (λ _. when-KeepsDirty _ _ (split_check-KeepsDirty alive as_f64 stamp))
  changed-DirtyAfter (ZoneCall.merge_with_listeners diff ls) z e =
      bind-DirtyAfter _ _ (merge_with_listeners-DirtyAfter alive as_f64 stamp diff ls z e)
        (λ _. split_check-KeepsDirty alive as_f64 stamp)
  changed-DirtyAfter _ z e = cc

  -- Every change is marked, if the method returns.
  pub handle_call-marks :
      (call : ZoneCall) (z : Zone)
      → (changes alive as_f64 stamp call z ≡ false)
        ⊎ DirtyAfter (Calls.handle_call alive awaits as_f64 stamp call z)
  handle_call-marks call z = elim (Bool-cases (changes alive as_f64 stamp call z)) [
    | inl e ↦ inr (changed-DirtyAfter call z e)
    | inr e ↦ inl e
  ]
