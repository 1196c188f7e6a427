-- ===== src/Tests/Registries.antt =====
-- The manager's registry and the eviction manager, run on few zones.
use qumulus.Base.{
  ◌++◌, ℕ, zero, suc, ◌+◌, ◌<◌, ◌≤◌, ◌≡◌, ◌≢◌, refl, some, none, List, [], ◌∷◌, length, take, arith,
}
use qumulus.Manager.Eviction.{EvictionManager, evict}
use qumulus.Manager.Eviction.Choice.{evict_forced}
use qumulus.Manager.Registry
use qumulus.Manager.Registry.{
  ZoneHandle, Active, Manager, Effect, request_load, hibernated, signal, load, find, find_nearest,
  get, max_loaded_soft,
}
use qumulus.Manager.Registry.Limits.{IsValid, loads, requests, hibernations, signal_accounts}
use qumulus.Manager.Registry.Lookup.{load_registers}
use qumulus.Manager.Registry.Nearest.{find_nearest_longest, find_nearest-diverges}
use qumulus.Text.{text, text_cmp}
use qumulus.TreePath
use qumulus.TreePath.{TreePath}

abbrev rooms : TreePath
rooms = text "rooms" ∷ []

abbrev cows : TreePath
cows = text "rooms" ∷ text "cows" ∷ []

abbrev zone_at : TreePath → ZoneHandle
zone_at path = record { path = path }

abbrev active : Active
active = ([], zone_at []) ∷ (rooms, zone_at rooms) ∷ []

-- The hard limit is reached by the zone that is admitted at 800.
abbrev full : Manager
full = record { active = active; loaded = 801; requesting_load = zone_at rooms ∷ [] }

full-IsValid : IsValid full
full-IsValid = record { at_most = omega arith; full = λ h. refl }

admits_the_801st :
    (Registry.load_zone
      (record full { loaded = 800; requesting_load = [] })
      (zone_at cows)).0.loaded
    ≡ 801
unfolding Registry.load_zone
admits_the_801st = refl

-- The waiting zone takes the place of the one that hibernates.
abbrev served : Manager
served = record { active = active; loaded = 801; requesting_load = [] }

abbrev served_effects : List Effect
served_effects =
    Registry.tell_eviction (Registry.unloaded (zone_at cows))
    ∷ Registry.local_loaded_decrement
    ∷ Registry.load_zone_call (zone_at rooms)
    ∷ Registry.tell_eviction (Registry.loaded (zone_at rooms))
    ∷ Registry.local_loaded_increment
    ∷ []

served_step : signal full (hibernated (zone_at cows)) ≡ some (served, served_effects)
unfolding signal Registry.zone_hibernated
served_step = refl

signal_accounts_example :
    (full.requesting_load ++ requests (hibernated (zone_at cows))
      ≡ loads served_effects ++ served.requesting_load)
    × (served.loaded + hibernations (hibernated (zone_at cows))
        ≡ full.loaded + length (loads served_effects))
signal_accounts_example = signal_accounts full (hibernated (zone_at cows)) served_step full-IsValid

nearest_cows : find_nearest 2 active cows ≡ some (rooms, zone_at rooms)
unfolding find_nearest get Registry.path_cmp text_cmp TreePath.pop
nearest_cows = refl

find_nearest_longest_example :
    (k : ℕ) × (zone : ZoneHandle) × (find_nearest (suc (length cows)) active cows
      ≡ some (take k cows, zone))
    × (get (take k cows) active ≡ some zone)
    × ((j : ℕ) → k < j → j ≤ length cows → get (take j cows) active ≡ none)
unfolding get Registry.path_cmp
find_nearest_longest_example = find_nearest_longest active cows {root = zone_at []} refl

no_active : (j : ℕ) → j ≤ length rooms → get (take j rooms) [] ≡ none
unfolding get
no_active j h = refl

find_nearest-diverges_example : find_nearest 1000 [] rooms ≡ none
find_nearest-diverges_example = find_nearest-diverges [] rooms no_active 1000

cows_ne_rooms : cows ≢ rooms
cows_ne_rooms h = cc

load_registers_example :
    let (zone, m', sent) = load full rooms in
    (find m' rooms ≡ some zone) × (find m' cows ≡ find full cows) × (load m' rooms ≡ (zone, m', []))
load_registers_example = load_registers full rooms cows cows_ne_rooms

-- As many zones as the number.
abbrev many : ℕ → List ZoneHandle
many zero = []
many (suc n) = zone_at rooms ∷ many n

length-many : (n : ℕ) → length (many n) ≡ n
length-many zero = refl
length-many (suc n) = omega (arith, length-many n)

abbrev crowded : EvictionManager
crowded = record { loaded = zone_at cows ∷ []; pending = many 698 }

crowded_evicts : (evict 0 0 crowded).1 ≡ some (zone_at cows)
unfolding evict
crowded_evicts = let e = length-many 698 in ground arith

evict_forced_example : (z : ZoneHandle) × ((evict 5 9 crowded).1 ≡ some z)
evict_forced_example = evict_forced 5 9 crowded (omega (arith, length-many 698)) (omega arith)
