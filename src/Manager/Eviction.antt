-- ===== src/Manager/Eviction.antt =====
-- src/manager.rs, `EvictionManager`. A `HashSet` of handles is a list without repetitions; its
-- order, like the two random numbers of a pass, is any.
pub mod Choice
use qumulus.Base.{
  ℕ, zero, suc, ◌+◌, ◌-◌, ◌/◌, ◌%◌, Bool, true, false, Option, none, some, List, [], ◌∷◌, leb, ltb,
  ◌==◌, if◌then◌else◌, length, is_empty,
}
use qumulus.Manager.Registry.{
  ZoneHandle, EvictionCall, loaded, unloaded, deferred, max_loaded_soft, max_loaded_hard,
}
use qumulus.TreePath.{path_eq}

abbrev pub handle_eq : ZoneHandle → ZoneHandle → Bool
handle_eq a b = path_eq a.path b.path

unfoldable pub contains : ZoneHandle → List ZoneHandle → Bool
contains z [] = false
contains z (y ∷ set) = elim (handle_eq y z) [ true ↦ true | false ↦ contains z set ]

-- `HashSet::insert` and `HashSet::remove`.
unfoldable pub insert : ZoneHandle → List ZoneHandle → List ZoneHandle
unfolding contains
insert z set = if contains z set then set else z ∷ set

unfoldable pub remove : ZoneHandle → List ZoneHandle → List ZoneHandle
remove z [] = []
remove z (y ∷ set) = let rest = remove z set in if handle_eq y z then rest else y ∷ rest

abbrev pub nth : List ZoneHandle → ℕ → Option ZoneHandle
nth [] i = none
nth (z ∷ set) zero = some z
nth (z ∷ set) (suc i) = nth set i

pub record EvictionManager : Type 0 where
  pub loaded : List ZoneHandle
  pub pending : List ZoneHandle

abbrev pub new : EvictionManager
new = record { loaded = []; pending = [] }

-- The zone that is told to hibernate is pending until it answers.
abbrev choose : EvictionManager → Option ZoneHandle → EvictionManager × Option ZoneHandle
choose m none = (m, none)
choose m (some zone) =
    (record { loaded = remove zone m.loaded; pending = insert zone m.pending }, some zone)

-- A single pass, with the random numbers that it draws; also the zone that it tells to hibernate.
unfoldable pub evict : ℕ → ℕ → EvictionManager → EvictionManager × Option ZoneHandle
unfolding remove insert
evict random_r random_i m =
    let total = length m.loaded + length m.pending in
    let overflow = total - max_loaded_soft in
    let r = random_r % (max_loaded_hard - max_loaded_soft) / 2 in
    if leb total max_loaded_soft
    then (m, none)
    else if length m.loaded == 0
    then (m, none)
    else if ltb overflow r
    then (m, none)
    else choose m (nth m.loaded (random_i % length m.loaded))

-- The root zone is exempted.
unfoldable pub handle : EvictionCall → EvictionManager → EvictionManager
unfolding remove insert
handle (loaded zone) m =
    if is_empty zone.path then m else record m { loaded = insert zone m.loaded }
handle (unloaded zone) m = record { loaded = remove zone m.loaded; pending = remove zone m.pending }
handle (deferred zone) m = record { loaded = insert zone m.loaded; pending = remove zone m.pending }

-- A round of `message_loop`.
unfoldable pub message_loop :
    ℕ → ℕ → EvictionCall → EvictionManager → EvictionManager × Option ZoneHandle
unfolding handle evict
message_loop random_r random_i call m = evict random_r random_i (handle call m)
