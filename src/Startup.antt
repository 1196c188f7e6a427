-- ===== src/Startup.antt =====
-- src/main.rs, and what src/app.rs `App` is for: every process takes its own end of a channel once.
pub mod Served
use qumulus.Base.{
  ℕ, Bool, true, false, Option, none, some, List, [], ◌∷◌, ◌++◌, ◌==◌, map, if◌then◌else◌,
}
use qumulus.Cluster.{Replica, peer_addr, monitor_addr}
use qumulus.Shell.{onto_first}
use qumulus.Text.{Text}

-- Whether the receiver of each channel is still to be taken.
pub record Channels : Type 0 where
  pub cluster : Bool
  pub manager : Bool
  pub store : Bool

pub record App : Type 0 where
  pub id : Replica
  pub channels : Channels

unfoldable pub new : Replica → App
new id = record { id = id; channels = record { cluster = true; manager = true; store = true } }

-- `take().expect("Receiver already taken")`, as each process is spawned. The store makes its
-- directory first, if there is none, and panics if it cannot.
unfoldable pub spawn_store : Bool → App → Option App
spawn_store ready app =
    if app.channels.store
    then (if ready
        then some (record app { channels = record app.channels { store = false } })
        else none)
    else none

unfoldable pub spawn_manager : App → Option App
spawn_manager app =
    if app.channels.manager
    then some (record app { channels = record app.channels { manager = false } })
    else none

unfoldable pub spawn_cluster : App → Option App
spawn_cluster app =
    if app.channels.cluster
    then some (record app { channels = record app.channels { cluster = false } })
    else none

-- What `main` has set going, in order.
pub data Started : Type 0 where
  usage store_process manager_process cluster_process load_root console : Started
  listen add_replica monitor : Replica → Started

pub data Outcome : Type 0 where
  returns panics : List Started → Outcome

abbrev pub after : Started → Outcome → Outcome
after e (returns started) = returns (e ∷ started)
after e (panics started) = panics (e ∷ started)

-- `unwrap`.
abbrev pub unwrap {ℓ} : {A : Type ℓ} → Option A → (A → Outcome) → Outcome
unwrap none f = panics []
unwrap (some a) f = f a

-- `split(' ')`.
unfoldable pub split_spaces : Text → List Text
split_spaces [] = [] ∷ []
split_spaces (c ∷ s) =
    if c == b' ' then [] ∷ split_spaces s else onto_first (c ∷ []) (split_spaces s)

abbrev pub add_all : List Replica → Outcome → Outcome
add_all [] rest = rest
add_all (r ∷ replicas) rest = after (add_replica r) (add_all replicas rest)

-- The system's reader of addresses.
module _ (parse : Text → Option Replica) where
  unfoldable pub parse_all : List Text → Option (List Replica)
  parse_all [] = some []
  parse_all (t ∷ texts) = elim (parse t) [
    | none ↦ none
    | some r ↦ elim (parse_all texts) [ none ↦ none | some replicas ↦ some (r ∷ replicas) ]
  ]

  -- The variable `CLUSTER`, if it is set.
  unfoldable pub replicas_of : Option Text → Option (List Replica)
  unfolding parse_all split_spaces
  replicas_of none = some []
  replicas_of (some cluster) = parse_all (split_spaces cluster)

  -- From the API's listener on.
  abbrev pub serve : Option Text → Replica → Replica → Outcome
  serve cluster id monitored = after (listen id) (
      unwrap (replicas_of cluster)
        λ replicas. add_all replicas (after (monitor monitored) (after console (returns []))))

  -- The addresses are printed, so that each must be an address.
  abbrev pub with_addresses : Option Text → Replica → Outcome
  with_addresses cluster id =
      unwrap (peer_addr id) λ peer. unwrap (monitor_addr id) λ monitored. serve cluster id monitored

  abbrev pub with_id : Bool → Option Text → Replica → Outcome
  with_id ready cluster id = unwrap (spawn_store ready (new id)) λ app. after store_process (
      unwrap (spawn_manager app) λ app. after manager_process (
        unwrap (spawn_cluster app)
          λ app. after cluster_process (after load_root (with_addresses cluster id))))

  -- The arguments are the program's name and the ID. The usage prints the first, which must be there.
  unfoldable pub main : Bool → Option Text → List Text → Outcome
  unfolding spawn_store spawn_manager spawn_cluster new replicas_of
  main ready cluster (name ∷ id ∷ []) = unwrap (parse id) (with_id ready cluster)
  main ready cluster [] = panics []
  main ready cluster args = after usage (returns [])
