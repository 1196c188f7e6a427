-- ===== src/Manager/Registry.antt =====
-- src/manager.rs, `Manager` and the routing functions of `ManagerHandle`.
pub mod Limits
pub mod Nearest
pub mod Lookup
pub mod Placed
use Prim.Native.Nat.{Ordering}
use qumulus.Base.{
  ℕ, zero, suc, ◌+◌, ◌-◌, Bool, true, false, Option, none, some, List, [], ◌∷◌, ◌++◌, ltb, ◌==◌,
  if◌then◌else◌, is_some,
}
use qumulus.Text.{text_cmp}
use qumulus.TreePath
use qumulus.TreePath.{TreePath}

abbrev pub max_loaded_soft : ℕ
max_loaded_soft = 600

abbrev pub max_loaded_hard : ℕ
max_loaded_hard = 800

pub record ZoneHandle : Type 0 where
  pub path : TreePath

-- The derived `Ord` of paths, by which the map of active zones is sorted.
unfoldable pub path_cmp : TreePath → TreePath → Ordering
path_cmp [] [] = Ordering.eq
path_cmp [] (q ∷ t) = Ordering.lt
path_cmp (p ∷ s) [] = Ordering.gt
path_cmp (p ∷ s) (q ∷ t) = elim (text_cmp p q) [
  | Ordering.lt ↦ Ordering.lt
  | Ordering.eq ↦ path_cmp s t
  | Ordering.gt ↦ Ordering.gt
]

-- `BTreeMap<Path, ZoneHandle>`, sorted by path.
abbrev pub Active : Type 0
Active = List (TreePath × ZoneHandle)

unfoldable pub get : TreePath → Active → Option ZoneHandle
get p [] = none
get p ((q, z) ∷ active) = elim (path_cmp p q) [
  | Ordering.lt ↦ none
  | Ordering.eq ↦ some z
  | Ordering.gt ↦ get p active
]

unfoldable pub insert : TreePath → ZoneHandle → Active → Active
insert p z [] = (p, z) ∷ []
insert p z ((q, y) ∷ active) = elim (path_cmp p q) [
  | Ordering.lt ↦ (p, z) ∷ (q, y) ∷ active
  | Ordering.eq ↦ (q, z) ∷ active
  | Ordering.gt ↦ (q, y) ∷ insert p z active
]

pub data EvictionCall : Type 0 where
  loaded unloaded deferred : ZoneHandle → EvictionCall

-- What the manager does to the rest of the program.
pub data Effect : Type 0 where
  spawn_zone : TreePath → Effect
  load_zone_call : ZoneHandle → Effect
  tell_eviction : EvictionCall → Effect
  local_active_increment local_loaded_increment local_loaded_decrement : Effect

pub record Manager : Type 0 where
  pub active : Active
  pub loaded : ℕ
  pub requesting_load : List ZoneHandle

unfoldable pub new : Manager
new = record { active = []; loaded = 0; requesting_load = [] }

-- The handle of the zone at `path`, which is spawned if it is not active.
unfoldable pub load : Manager → TreePath → ZoneHandle × Manager × List Effect
unfolding get insert
load m path =
    let zone : ZoneHandle = record { path = path } in
    elim (get path m.active) [
      | some z ↦ (z, m, [])
      | none ↦ (
        zone,
        record m { active = insert path zone m.active },
        spawn_zone path ∷ local_active_increment ∷ [],
      )
    ]

unfoldable pub zone_loaded : Manager → TreePath → Bool
unfolding get
zone_loaded m path = is_some (get path m.active)

unfoldable pub find : Manager → TreePath → Option ZoneHandle
unfolding get
find m path = get path m.active

-- The loop of `find_nearest`, which tries ever shorter prefixes; `none` means that the fuel ran
-- out. An empty path is popped to itself, so without a root zone the loop never ends.
unfoldable pub find_nearest : ℕ → Active → TreePath → Option (TreePath × ZoneHandle)
unfolding get TreePath.pop
find_nearest zero active probe = none
find_nearest (suc fuel) active probe =
    let rest = find_nearest fuel active (TreePath.pop probe).0 in
    elim (get probe active) [ some found ↦ some (probe, found) | none ↦ rest ]

abbrev values : Active → List ZoneHandle
values [] = []
values ((p, z) ∷ active) = z ∷ values active

unfoldable pub list : Manager → List ZoneHandle
list m = values m.active

unfoldable pub zone_defer_hibernation : Manager → ZoneHandle → Manager × List Effect
zone_defer_hibernation m zone = (m, tell_eviction (deferred zone) ∷ [])

-- What loading a zone does, at either place.
abbrev admit : Manager → ZoneHandle → Manager × List Effect
admit m zone = (
  record m { loaded = m.loaded + 1 },
  load_zone_call zone ∷ tell_eviction (loaded zone) ∷ local_loaded_increment ∷ [],
)

-- The first of the zones that wait to load takes the place.
abbrev admit_next : Manager → List ZoneHandle → Manager × List Effect
admit_next m [] = (m, [])
admit_next m (zone ∷ waiting) = admit (record m { requesting_load = waiting }) zone

-- `none` is the underflow of `loaded`, which a debug build reports by a panic.
unfoldable pub zone_hibernated : Manager → ZoneHandle → Option (Manager × List Effect)
zone_hibernated m zone =
    let (m', sent) = admit_next (record m { loaded = m.loaded - 1 }) m.requesting_load in
    if m.loaded == 0
    then none
    else some (m', tell_eviction (unloaded zone) ∷ local_loaded_decrement ∷ sent)

-- `zone_request_load`, through `load_zone`.
unfoldable pub load_zone : Manager → ZoneHandle → Manager × List Effect
load_zone m zone =
    if ltb max_loaded_hard m.loaded
    then (record m { requesting_load = m.requesting_load ++ zone ∷ [] }, [])
    else admit m zone

-- Where `send_external` routes a delegation below the zone at `prefix`.
unfoldable pub external_path : TreePath → TreePath → TreePath
external_path prefix path = prefix ++ path

-- The calls that zones make on the manager.
pub data Signal : Type 0 where
  defer_hibernation hibernated request_load : ZoneHandle → Signal

unfoldable pub signal : Manager → Signal → Option (Manager × List Effect)
unfolding zone_defer_hibernation zone_hibernated load_zone
signal m (defer_hibernation zone) = some (zone_defer_hibernation m zone)
signal m (hibernated zone) = zone_hibernated m zone
signal m (request_load zone) = some (load_zone m zone)
