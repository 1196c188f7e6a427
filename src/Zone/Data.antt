-- ===== src/Zone/Data.antt =====
-- src/zone.rs: the state of a zone, the calls that it receives, and what it sends.
use qumulus.Base.{ℕ, Bool, Option, none, some, List, [], ◌∷◌, ◌++◌, if◌then◌else◌, is_empty}
use qumulus.Command.{Command}
use qumulus.Json.{Json}
use qumulus.Listener.{Listener, RListener}
use qumulus.Node
use qumulus.Node.{NodeTree}
use qumulus.Node.Merge.{External}
use qumulus.Node.Read.{DelegatedMatch}
use qumulus.TreePath.{TreePath}
use qumulus.Update.{Update}
use qumulus.Vis
use qumulus.Zone.State

-- The path is kept for the store.
pub record ZoneData : Type 0 where
  pub path : TreePath
  pub tree : NodeTree

pub record UserCommand : Type 0 where
  pub command : Command
  pub reply : ℕ
  pub listener : ℕ

pub record ZoneResult : Type 0 where
  pub update : Option Update
  pub delegated : List DelegatedMatch

pub data ZoneCall : Type 0 where
  user_command : UserCommand → ZoneCall
  dump : ℕ → ZoneCall
  hibernate : ZoneCall
  load : ZoneCall
  loaded : ZoneData → ZoneCall
  merge : NodeTree → Bool → ZoneCall
  merge_with_listeners : NodeTree → List RListener → ZoneCall
  save : ZoneCall
  saved : ZoneCall
  size : ℕ → ZoneCall
  state : ℕ → ZoneCall

-- What the zone sends: to its callers, its listeners, the manager, the store and the cluster.
pub data Effect : Type 0 where
  reply_result : ℕ → ZoneResult → Effect
  reply_dump : ℕ → NodeTree → Effect
  reply_size : ℕ → ℕ → Effect
  reply_state : ℕ → ℕ → Effect
  notify_listener : ℕ → Json → Effect
  request_load : Effect
  hibernated : Effect
  defer_hibernation : Effect
  send_external : External → Bool → Effect
  send_external_with_listeners : External → List RListener → Effect
  store_load : Effect
  store_write : ZoneData → Effect
  request_write : Effect
  replicate : NodeTree → Effect

-- `handle` is the zone itself; `rx` is the inbox of `Zone.Loop`.
pub record Zone : Type 0 where
  pub path : TreePath
  pub tree_data : ZoneData
  pub state : ℕ
  pub queued : List ZoneCall
  pub listeners : List Listener
  pub writes : ℕ

unfoldable pub new : TreePath → Zone
new path = record {
  path = path;
  tree_data = record {
    path = path;
    tree = record {
      node = Node.default;
      vis = if is_empty path then Vis.permanent else Vis.default;
    };
  };
  state = State.idle;
  queued = [];
  listeners = [];
  writes = 0;
}

abbrev pub no_result : ZoneResult
no_result = record { update = none; delegated = [] }

abbrev pub set_tree : Zone → NodeTree → Zone
set_tree z t = record z { tree_data = record { path = z.tree_data.path; tree = t } }

-- A method changes the zone and sends; it panics as `none`.
abbrev pub M : Type 0 → Type 0
M A = Zone → Option (A × Zone × List Effect)

abbrev pub prepend :
    {A : Type 0} → List Effect → Option (A × Zone × List Effect) → Option (A × Zone × List Effect)
prepend sent none = none
prepend sent (some (a, z, more)) = some (a, z, sent ++ more)

infixl 5 ◌>>=◌ ◌>>◌
abbrev pub ◌>>=◌ : {A B : Type 0} → M A → (A → M B) → M B
◌>>=◌ m f z = elim (m z) [ none ↦ none | some (a, z', sent) ↦ prepend sent (f a z') ]

abbrev pub ◌>>◌ : {B : Type 0} → M (Unit {0}) → M B → M B
m >> k = m >>= λ _. k

unfoldable pub pure : {A : Type 0} → A → M A
pure a z = some (a, z, [])

unfoldable pub get : M Zone
get z = some (z, z, [])

unfoldable pub modify : (Zone → Zone) → M (Unit {0})
modify f z = some (tt, f z, [])

unfoldable pub send : Effect → M (Unit {0})
send e z = some (tt, z, e ∷ [])

unfoldable pub panic : {A : Type 0} → M A
panic z = none

unfoldable pub set_state : ℕ → M (Unit {0})
unfolding modify
set_state s = modify (λ z. record z { state = s })

unfoldable pub when : Bool → M (Unit {0}) → M (Unit {0})
unfolding pure
when b m = if b then m else pure tt
